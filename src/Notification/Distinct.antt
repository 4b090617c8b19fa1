-- ===== src/Notification/Distinct.antt =====
-- bucket-notification.go: the test of the three operations that add, by what the configs hold.
use mefs_sdk_go.Prelude.{
  ℕ, true, false, not, ◌&&◌, Option, none, some, List, [], ◌∷◌, ◌++◌, ◌≡◌, refl, ap, ◌↔◌, inl, inr,
  ◌⊎◌, ==_iff, Bool-cases, All, All-append, arith,
}
use mefs_sdk_go.Prelude.Text.{Text, text_eq, text_eq_iff}
use mefs_sdk_go.StringSet.{StringSet, contains, new_string_set, add_all, intersection, is_empty}
use mefs_sdk_go.StringSet.Members.{contains-intersection, contains-add_all}
use mefs_sdk_go.Notification.Config.{Arn, NotificationConfig, arn_string}
use mefs_sdk_go.Notification.Bucket.{
  TargetConfig, same_pointer, share_events, clashes_with, clashes, add_target, remove_by_arn,
}

abbrev pub IsEvent : List Text → Text → Type 0
IsEvent events e = contains events e ≡ true

-- The config `c` is for the target of `n` with the pointer of `n`, and an event is in both.
abbrev pub Clash : TargetConfig → TargetConfig → Type 0
Clash c n =
    (n.target ≡ arn_string c.config.arn)
    × (c.config.filter ≡ n.config.filter)
    × ((e : Text) × IsEvent c.config.events e × IsEvent n.config.events e)

pub same_pointer_iff : (p q : Option ℕ) → (same_pointer p q ≡ true) ↔ (p ≡ q)
unfolding same_pointer
same_pointer_iff none none = (λ h. refl, λ h. refl)
same_pointer_iff none (some b) = (λ h. cc, λ h. cc)
same_pointer_iff (some a) none = (λ h. cc, λ h. cc)
same_pointer_iff (some a) (some b) = (λ h. ap some ((==_iff a b).0 h), λ h. (==_iff a b).1 (cc h))

is_empty_false : (s : StringSet) → not (is_empty s) ≡ true → (x : Text) × (contains s x ≡ true)
unfolding is_empty contains
is_empty_false [] h = cc
is_empty_false (k ∷ s) h = (k, ground (arith, text_eq_iff k k))

is_empty-true : (s : StringSet) (x : Text) → contains s x ≡ true → not (is_empty s) ≡ true
unfolding is_empty contains
is_empty-true [] x h = cc
is_empty-true (k ∷ s) x h = ground arith

shared :
    (new old : List Text) (x : Text)
    → contains (intersection (add_all new_string_set new) (add_all new_string_set old)) x
      ≡ (contains old x && contains new x)
unfolding contains
shared new old x = ground (
  arith,
  contains-intersection (add_all [] new) (add_all [] old) x,
  contains-add_all new [] x,
  contains-add_all old [] x,
)

share_events→event :
    (new old : List Text) → share_events new old ≡ true → (e : Text) × IsEvent new e × IsEvent old e
unfolding share_events
share_events→event new old h =
    let (e, m) = is_empty_false _ h in
    (e, ground (arith, shared new old e), ground (arith, shared new old e))

event→share_events :
    (new old : List Text) (e : Text) → IsEvent new e → IsEvent old e → share_events new old ≡ true
unfolding share_events
event→share_events new old e h k = is_empty-true _ e (ground (arith, shared new old e))

clashes_with→Clash : (c n : TargetConfig) → clashes_with c n ≡ true → Clash c n
unfolding clashes_with
clashes_with→Clash c n h = (
  (text_eq_iff n.target (arn_string c.config.arn)).0 (ground arith),
  (same_pointer_iff c.config.filter n.config.filter).0 (ground arith),
  share_events→event c.config.events n.config.events (ground arith),
)

Clash→clashes_with : (c n : TargetConfig) → Clash c n → clashes_with c n ≡ true
unfolding clashes_with
Clash→clashes_with c n (target, pointer, (e, new, old)) =
    let t : text_eq n.target (arn_string c.config.arn) ≡ true = (text_eq_iff _ _).1 target in
    let p : same_pointer c.config.filter n.config.filter ≡ true =
      (same_pointer_iff _ _).1 pointer in
    rw (t, p) (event→share_events c.config.events n.config.events e new old)

-- No config of the list clashes with `c`.
abbrev pub Clear : TargetConfig → List TargetConfig → Type 0
Clear c l = All (λ n. ¬ Clash c n) l

-- A config is refused exactly for a config that it clashes with.
clashes_cases :
    (c : TargetConfig) (l : List TargetConfig)
    → ((clashes c l ≡ true) × (¬ Clear c l)) ⊎ ((clashes c l ≡ false) × Clear c l)
unfolding clashes
clashes_cases c [] = inr (refl, tt)
clashes_cases c (n ∷ l) = elim (Bool-cases (clashes_with c n)) [
  | inl e ↦ inl (rw e refl, λ clear. clear.0 (clashes_with→Clash c n e))
  | inr f ↦ elim (clashes_cases c l) [
    | inl (e, found) ↦ inl (rw (f, e) refl, λ clear. found clear.1)
    | inr (e, clear) ↦
        inr (rw (f, e) refl, ((λ clash. let t = Clash→clashes_with c n clash in cc (f, t)), clear))
  ]
]

abbrev pub as_target : NotificationConfig → TargetConfig
as_target c = record { config = c; target = arn_string c.arn }

-- Either the config clashes with one of the list, and the list stays as it is, or it clashes with
-- none, and it is appended.
pub add_target_cases :
    (c : NotificationConfig) (l : List TargetConfig)
    → ((add_target c l ≡ (l, false)) × (¬ Clear (as_target c) l))
      ⊎ ((add_target c l ≡ (l ++ as_target c ∷ [], true)) × Clear (as_target c) l)
unfolding add_target
add_target_cases c l = elim (clashes_cases (as_target c) l) [
  | inl (e, found) ↦ inl (rw e refl, found)
  | inr (e, clear) ↦ inr (rw e refl, clear)
]

-- Each config stands under the text of its ARN, and no later config clashes with an earlier one.
abbrev pub IsDistinct : List TargetConfig → Type 0
IsDistinct [] = Unit
IsDistinct (n ∷ l) = (n.target ≡ arn_string n.config.arn) × All (λ m. ¬ Clash m n) l × IsDistinct l

append-IsDistinct :
    (l : List TargetConfig) (c : NotificationConfig)
    → IsDistinct l
    → Clear (as_target c) l
    → IsDistinct (l ++ as_target c ∷ [])
append-IsDistinct [] c d clear = (refl, tt, tt)
append-IsDistinct (n ∷ l) c (named, apart, d) (clear, rest) =
    (named, All-append _ l _ apart (clear, tt), append-IsDistinct l c d rest)

pub add_target-IsDistinct :
    (c : NotificationConfig) (l : List TargetConfig) → IsDistinct l → IsDistinct (add_target c l).0
add_target-IsDistinct c l d = elim (add_target_cases c l) [
  | inl (e, found) ↦ rw e d
  | inr (e, clear) ↦ rw e (append-IsDistinct l c d clear)
]

remove_by_arn-All :
    (P : TargetConfig → Type 0) (arn : Arn) (l : List TargetConfig)
    → All P l
    → All P (remove_by_arn arn l)
unfolding remove_by_arn
remove_by_arn-All P arn [] h = tt
remove_by_arn-All P arn (n ∷ l) (here, rest) =
    elim (Bool-cases (text_eq n.target (arn_string arn))) [
      | inl e ↦ rw e (remove_by_arn-All P arn l rest)
      | inr f ↦ rw f (here, remove_by_arn-All P arn l rest)
    ]

pub remove_by_arn-IsDistinct :
    (arn : Arn) (l : List TargetConfig) → IsDistinct l → IsDistinct (remove_by_arn arn l)
unfolding remove_by_arn
remove_by_arn-IsDistinct arn [] d = tt
remove_by_arn-IsDistinct arn (n ∷ l) (named, apart, d) =
    elim (Bool-cases (text_eq n.target (arn_string arn))) [
      | inl e ↦ rw e (remove_by_arn-IsDistinct arn l d)
      | inr f ↦ rw f (named, remove_by_arn-All _ arn l apart, remove_by_arn-IsDistinct arn l d)
    ]

remove_by_arn-Clear :
    (c : NotificationConfig) (l : List TargetConfig) → Clear (as_target c) (remove_by_arn c.arn l)
unfolding remove_by_arn
remove_by_arn-Clear c [] = tt
remove_by_arn-Clear c (n ∷ l) = elim (Bool-cases (text_eq n.target (arn_string c.arn))) [
  | inl e ↦ rw e (remove_by_arn-Clear c l)
  | inr f ↦
      rw f ((λ clash. let t = (text_eq_iff _ _).1 clash.0 in cc (f, t)), remove_by_arn-Clear c l)
]

pub add_target-remove_by_arn :
    (c : NotificationConfig) (l : List TargetConfig)
    → add_target c (remove_by_arn c.arn l) ≡ (remove_by_arn c.arn l ++ as_target c ∷ [], true)
add_target-remove_by_arn c l = elim (add_target_cases c (remove_by_arn c.arn l)) [
  | inl (e, found) ↦ absurd (found (remove_by_arn-Clear c l))
  | inr (e, clear) ↦ e
]
