-- ===== src/PostPolicy/Fields.antt =====
-- post-policy.go: the fields of the form and the conditions of the policy.
use mefs_sdk_go.Prelude.{
  Bool, true, false, ◌&&◌, ◌||◌, List, [], ◌∷◌, ◌++◌, ◌==◌, length, Option, none, some, any,
  any-append, All, All-append, ◌≡◌, refl, arith, Bool-cases, inl, inr, ◌⊎◌, if◌then◌else◌,
}
use mefs_sdk_go.Prelude.Text.{Text, codes, text_eq, text_eq_refl, text_eq→eq}
use mefs_sdk_go.Prelude.Int.{ℤ, pos, ltb_ℤ}
use mefs_sdk_go.Map.{Map, lookup, insert}
use mefs_sdk_go.Map.Laws.{lookup-insert}
use mefs_sdk_go.PostPolicy.{
  Time, PolicyCondition, PostPolicy, new_post_policy, set_expires, add_new_policy, store_field,
  set_field, is_blank, set_key, set_key_starts_with, set_bucket, set_content_type,
  set_content_length_range, set_success_status_action, set_user_metadata, set_user_data,
}

-- A condition on the field has its value.
abbrev has_condition : Text → Text → List PolicyCondition → Bool
has_condition name value =
    any (λ c. text_eq c.condition (codes "$" ++ name) && text_eq c.value value)

-- The condition is on a field of the form.
abbrev pub IsOnField : Map Text → PolicyCondition → Type 0
IsOnField form c =
    (name : Text) × (c.condition ≡ codes "$" ++ name)
    × ((value : Text) × (lookup form name ≡ some value))

-- Every field of the form has a condition that its value meets or starts, and every condition is on a
-- field.
abbrev pub IsConsistent : PostPolicy → Type 0
IsConsistent p =
    ((name value : Text)
      → lookup p.form_data name ≡ some value
      → has_condition name value p.conditions ≡ true)
    × All (IsOnField p.form_data) p.conditions

-- An error, and the policy as it was; or none, and the policy is still consistent.
abbrev pub Keeps : PostPolicy → PostPolicy × Option Text → Type 0
Keeps p (q, err) = ((q ≡ p) × ((e : Text) × (err ≡ some e))) ⊎ ((err ≡ none) × IsConsistent q)

refused : (p : PostPolicy) (e : Text) → Keeps p (p, some e)
refused p e = inl (refl, (e, refl))

insert-IsOnField :
    (form : Map Text) (name value : Text) (c : PolicyCondition)
    → IsOnField form c
    → IsOnField (insert form name value) c
insert-IsOnField form name value c (n, e, (v, h)) = elim (Bool-cases (text_eq name n)) [
  | inl same ↦ (n, e, (value, rw (lookup-insert form name n value, same) refl))
  | inr other ↦ (n, e, (v, rw (lookup-insert form name n value, other) h))
]

insert-All :
    (form : Map Text) (name value : Text) (l : List PolicyCondition)
    → All (IsOnField form) l
    → All (IsOnField (insert form name value)) l
insert-All form name value [] h = tt
insert-All form name value (c ∷ l) (here, rest) =
    (insert-IsOnField form name value c here, insert-All form name value l rest)

added :
    (c : PolicyCondition) (p : PostPolicy)
    → ((e : Text) × (add_new_policy c p ≡ (p, some e)))
      ⊎ (add_new_policy c p ≡ (record p { conditions = p.conditions ++ c ∷ [] }, none))
unfolding add_new_policy
added c p =
    elim (Bool-cases (length c.match_type == 0 || length c.condition == 0 || length c.value == 0)) [
      | inl bad ↦ inl (codes "Policy fields are empty.", rw bad refl)
      | inr good ↦ inr (rw good refl)
    ]

has_condition-append :
    (name value : Text) (l : List PolicyCondition) (c : PolicyCondition)
    → has_condition name value (l ++ c ∷ []) ≡ (
        has_condition name value l
        || (text_eq c.condition (codes "$" ++ name) && text_eq c.value value || false))
has_condition-append name value l c = any-append _ l (c ∷ [])

fields_kept :
    (match_type name value : Text) (p : PostPolicy)
    → IsConsistent p
    → (n v : Text) → lookup (insert p.form_data name value) n ≡ some v
    → has_condition n v (
        p.conditions
        ++ record { match_type = match_type; condition = codes "$" ++ name; value = value } ∷ [])
      ≡ true
fields_kept match_type name value p (fields, _) n v h = elim (Bool-cases (text_eq name n)) [
  | inl same ↦
      let stored : value ≡ v = ground (arith, lookup-insert p.form_data name n value) in
      rw
        (
          has_condition-append,
          ← text_eq→eq name n same,
          ← stored,
          text_eq_refl (codes "$" ++ name),
          text_eq_refl value,
        )
        (ground arith)
  | inr other ↦
      let old : lookup p.form_data n ≡ some v =
        ground (arith, lookup-insert p.form_data name n value) in
      rw (has_condition-append, fields n v old) refl
]

set_field-Keeps :
    (match_type name value : Text) (p : PostPolicy)
    → IsConsistent p
    → Keeps p (set_field match_type name value p)
unfolding set_field store_field
set_field-Keeps match_type name value p (fields, conditions) =
    let c : PolicyCondition = record {
      match_type = match_type;
      condition = codes "$" ++ name;
      value = value;
    } in
    let stored : lookup (insert p.form_data name value) name ≡ some value =
      rw (lookup-insert p.form_data name name value, text_eq_refl name) refl in
    elim (added c p) [
      | inl (e, bad) ↦ rw bad (refused p e)
      | inr good ↦ rw good (
          inr (
            refl,
            (
              fields_kept match_type name value p (fields, conditions),
              All-append _ p.conditions (c ∷ [])
                  (insert-All p.form_data name value p.conditions conditions)
                  ((name, refl, (value, stored)), tt),
            ),
          ))
    ]

-- The calls of the setters.
pub data Setter : Type 0 where
  expires : Time → Setter
  key key_starts_with bucket content_type success_status_action : Text → Setter
  content_length_range : ℤ → ℤ → Setter
  user_metadata user_data : Text → Text → Setter

unfoldable pub perform_setter : Setter → PostPolicy → PostPolicy × Option Text
perform_setter (expires t) = set_expires t
perform_setter (key k) = set_key k
perform_setter (key_starts_with k) = set_key_starts_with k
perform_setter (bucket b) = set_bucket b
perform_setter (content_type t) = set_content_type t
perform_setter (success_status_action s) = set_success_status_action s
perform_setter (content_length_range min max) = set_content_length_range min max
perform_setter (user_metadata k v) = set_user_metadata k v
perform_setter (user_data k v) = set_user_data k v

-- A setter with a test before it.
guarded :
    (p : PostPolicy) (b : Bool) (e : Text) (r : PostPolicy × Option Text)
    → Keeps p r
    → Keeps p (if b then (p, some e) else r)
guarded p true e r h = refused p e
guarded p false e r h = h

perform_setter-Keeps : (s : Setter) (p : PostPolicy) → IsConsistent p → Keeps p (perform_setter s p)
unfolding perform_setter set_expires set_key set_key_starts_with set_bucket set_content_type
    set_success_status_action set_content_length_range set_user_metadata set_user_data
perform_setter-Keeps (expires t) p h = guarded p t.is_zero _ _ (inr (refl, h))
perform_setter-Keeps (key k) p h = guarded p (is_blank k) _ _ (set_field-Keeps _ _ _ p h)
perform_setter-Keeps (key_starts_with k) p h =
    guarded p (is_blank k) _ _ (set_field-Keeps _ _ _ p h)
perform_setter-Keeps (bucket b) p h = guarded p (is_blank b) _ _ (set_field-Keeps _ _ _ p h)
perform_setter-Keeps (content_type t) p h = guarded p (is_blank t) _ _ (set_field-Keeps _ _ _ p h)
perform_setter-Keeps (success_status_action s) p h =
    guarded p (is_blank s) _ _ (set_field-Keeps _ _ _ p h)
perform_setter-Keeps (content_length_range min max) p h =
    guarded p (ltb_ℤ max min) _ _
      (guarded p (ltb_ℤ min (pos 0)) _ _ (guarded p (ltb_ℤ max (pos 0)) _ _ (inr (refl, h))))
perform_setter-Keeps (user_metadata k v) p h =
    guarded p (is_blank k) _ _ (guarded p (is_blank v) _ _ (set_field-Keeps _ _ _ p h))
perform_setter-Keeps (user_data k v) p h =
    guarded p (length k == 0) _ _ (guarded p (length v == 0) _ _ (set_field-Keeps _ _ _ p h))

-- The policies that calls of the setters make from a new one.
pub data Reachable : PostPolicy → Type 0 where
  fresh : Reachable new_post_policy
  set : (s : Setter) (p : PostPolicy) → Reachable p → Reachable (perform_setter s p).0

kept-IsConsistent :
    (p : PostPolicy) (r : PostPolicy × Option Text) → IsConsistent p → Keeps p r → IsConsistent r.0
kept-IsConsistent p r h (inl (same, _)) = rw same h
kept-IsConsistent p r h (inr (_, consistent)) = consistent

Reachable-IsConsistent : (p : PostPolicy) → Reachable p → IsConsistent p
unfolding lookup
Reachable-IsConsistent _ fresh = (λ n v h. absurd (cc h), tt)
Reachable-IsConsistent _ (set s p r) =
    let h = Reachable-IsConsistent p r in kept-IsConsistent p _ h (perform_setter-Keeps s p h)

-- In every policy that calls of the setters make from a new one, each field of the form has a condition
-- on it with the field's value, and each condition is on a field of the form; and each further call
-- either returns an error and leaves the policy as it was, or keeps this so.
pub Reachable-Keeps :
    (p : PostPolicy) (s : Setter) → Reachable p → IsConsistent p × Keeps p (perform_setter s p)
Reachable-Keeps p s r = let h = Reachable-IsConsistent p r in (h, perform_setter-Keeps s p h)
