-- ===== src/StringSet/Equality.antt =====
-- pkg/set/stringset.go: `Equals` and the elements of sets.
use mefs_sdk_go.Prelude.{
  ℕ, ◌≤◌, ◌<◌, true, false, ◌≡◌, refl, ◌↔◌, [], ◌∷◌, arith, length, Bool-cases, Bool-ext, inl, inr,
}
use mefs_sdk_go.Prelude.Text.{Text, text_eq, text_eq_refl, text_eq→eq}
use mefs_sdk_go.StringSet.{StringSet, contains, remove, subset, equals, intersection}
use mefs_sdk_go.StringSet.Members.{contains-remove, contains-intersection}
use mefs_sdk_go.StringSet.Keys.{HasDistinctKeys, intersection-HasDistinctKeys}

-- Two sets have the same elements.
abbrev pub SameElements : StringSet → StringSet → Type 0
SameElements s t = (x : Text) → contains s x ≡ contains t x

-- What `Equals` tests: the lengths and the loop.
equals_parts : (s t : StringSet) → equals s t ≡ true → (length s ≡ length t) × (subset s t ≡ true)
unfolding equals
equals_parts s t h = ground arith

equals_from_parts : (s t : StringSet) → length s ≡ length t → subset s t ≡ true → equals s t ≡ true
unfolding equals
equals_from_parts s t h k = ground arith

le_antisymm : {a b : ℕ} → a ≤ b → b ≤ a → a ≡ b
le_antisymm h k = omega arith

pub subset→contains :
    (s t : StringSet) (x : Text) → subset s t ≡ true → contains s x ≡ true → contains t x ≡ true
unfolding subset contains
subset→contains [] t x h m = cc
subset→contains (k ∷ s) t x h m = elim (Bool-cases (text_eq k x)) [
  | inl e ↦ let here : contains t k ≡ true = ground arith in rw (← text_eq→eq k x e) here
  | inr n ↦ subset→contains s t x (ground arith) (ground arith)
]

pub contains→subset :
    (s t : StringSet) → ((x : Text) → contains s x ≡ true → contains t x ≡ true) → subset s t ≡ true
unfolding subset contains
contains→subset [] t h = refl
contains→subset (k ∷ s) t h =
    let here : contains t k ≡ true = h k (rw text_eq_refl) in
    let rest : subset s t ≡ true = contains→subset s t (λ x m. h x (ground arith)) in ground arith

length-remove-le : (s : StringSet) (k : Text) → length (remove s k) ≤ length s
unfolding remove
length-remove-le [] k = omega arith
length-remove-le (j ∷ s) k = ground (arith, length-remove-le s k)

-- `Remove` of an element makes the list shorter.
remove_shortens : (s : StringSet) (k : Text) → contains s k ≡ true → length (remove s k) < length s
unfolding contains remove
remove_shortens [] k h = cc
remove_shortens (j ∷ s) k h = elim (Bool-cases (text_eq j k)) [
  | inl e ↦ rw e (omega (arith, length-remove-le s k))
  | inr n ↦ rw n (omega (arith, remove_shortens s k (ground arith)))
]

within_remove :
    (s t : StringSet) (k : Text)
    → contains s k ≡ false
    → ((x : Text) → contains s x ≡ true → contains t x ≡ true)
    → (x : Text) → contains s x ≡ true
    → contains (remove t k) x ≡ true
within_remove s t k absent h x m = elim (Bool-cases (text_eq k x)) [
  | inl e ↦ let clash : contains s k ≡ true = rw (text_eq→eq k x e) m in cc (absent, clash)
  | inr n ↦ rw (contains-remove, n, h x m) refl
]

-- A set of distinct keys is no longer than a list that contains them all.
pub length-le_of_within :
    (s t : StringSet)
    → HasDistinctKeys s
    → ((x : Text) → contains s x ≡ true → contains t x ≡ true)
    → length s ≤ length t
length-le_of_within [] t d h = omega arith
length-le_of_within (k ∷ s) t d h =
    let here : contains t k ≡ true = h k (unfold contains in rw text_eq_refl) in
    let rest : (x : Text) → contains s x ≡ true → contains t x ≡ true =
      λ x m. h x (unfold contains in ground arith) in
    omega (
      arith,
      remove_shortens t k here,
      length-le_of_within s (remove t k) d.1 (within_remove s t k d.0 rest),
    )

-- On sets of distinct keys, `Equals` answers true exactly for sets of the same elements, whatever the
-- order of the keys.
pub equals_iff :
    (s t : StringSet)
    → HasDistinctKeys s
    → HasDistinctKeys t
    → (equals s t ≡ true) ↔ SameElements s t
equals_iff s t ds dt = (
  λ e.
      let (same_length, sub) = equals_parts s t e in
      λ x. Bool-ext _ _ (subset→contains s t x sub) (λ m. elim (Bool-cases (contains s x)) [
        | inl old ↦ old
        | inr absent ↦ absurd (
            omega (
              arith,
              remove_shortens t x m,
              length-le_of_within s (remove t x) ds
                  (within_remove s t x absent (λ y. subset→contains s t y sub)),
            ))
      ]),
  λ same.
      equals_from_parts s t
        (le_antisymm (length-le_of_within s t ds (λ x m. rw (← same x) m))
          (length-le_of_within t s dt (λ x m. rw (same x) m)))
        (contains→subset s t (λ x m. rw (← same x) m)),
)

pub equals→same :
    (s t : StringSet) → HasDistinctKeys s → HasDistinctKeys t → equals s t ≡ true → SameElements s t
equals→same s t ds dt = (equals_iff s t ds dt).0

within_of_same :
    (s t : StringSet) (x : Text)
    → contains (intersection s t) x ≡ contains t x
    → contains t x ≡ true
    → contains s x ≡ true
within_of_same s t x e m = ground (arith, contains-intersection s t x)

-- The program's test `s.Intersection(t).Equals(t)` answers true exactly when `s` contains every
-- element of `t`, whose keys are distinct.
pub intersection-equals_iff :
    (s t : StringSet)
    → HasDistinctKeys t
    → (equals (intersection s t) t ≡ true)
      ↔ ((x : Text) → contains t x ≡ true → contains s x ≡ true)
intersection-equals_iff s t dt = (
  λ e x m. within_of_same s t x ((equals_iff _ t (intersection-HasDistinctKeys s t) dt).0 e x) m,
  λ h.
      (equals_iff _ t (intersection-HasDistinctKeys s t) dt).1 λ x.
        rw contains-intersection (Bool-ext _ _ (λ m. ground arith) (λ m. ground (arith, h x m))),
)
