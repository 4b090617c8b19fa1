-- ===== src/Policy/Remove/Fewer.antt =====
-- pkg/policy/bucket-policy.go: what stripping does to one statement.
use mefs_sdk_go.Prelude.{
  Bool, true, false, not, ◌&&◌, ◌≡◌, refl, ◌∙◌, Option, none, some, [], arith, if◌then◌else◌, ◌⊎◌,
  ltb, length,
}
use mefs_sdk_go.Prelude.Text.{Text, text_eq}
use mefs_sdk_go.StringSet.{StringSet, contains, difference, remove}
use mefs_sdk_go.StringSet.Members.{contains-difference, contains-remove}
use mefs_sdk_go.Policy.Condition.{ConditionMap}
use mefs_sdk_go.Policy.Statement.{
  has_all, bucket_resource_of, object_resource_of, Statement, read_only_bucket_actions,
  write_only_bucket_actions, read_only_object_actions, write_only_object_actions,
  is_valid_statement,
}
use mefs_sdk_go.Policy.Remove.{
  remove_object_actions, remove_read_only, remove_write_only, remove_bucket_actions, strip,
  has_no_conditions,
}

-- `s'` is `s` with fewer actions or resources.
pub record Narrower (s' s : Statement) : Type 0 where
  pub effect : s'.effect ≡ s.effect
  pub principal : s'.principal ≡ s.principal
  pub actions : (a : Text) → contains s'.actions a ≡ true → contains s.actions a ≡ true
  pub resources : (r : Text) → contains s'.resources r ≡ true → contains s.resources r ≡ true

Narrower-refl : (s : Statement) → Narrower s s
Narrower-refl s = record {
  effect = refl;
  principal = refl;
  actions = λ a h. h;
  resources = λ r h. h;
}

Narrower-trans : (s t u : Statement) → Narrower s t → Narrower t u → Narrower s u
Narrower-trans s t u p q = record {
  effect = p.effect ∙ q.effect;
  principal = p.principal ∙ q.principal;
  actions = λ a h. q.actions a (p.actions a h);
  resources = λ r h. q.resources r (p.resources r h);
}

difference-within :
    (s t : StringSet) (x : Text) → contains (difference s t) x ≡ true → contains s x ≡ true
difference-within s t x h = ground (arith, contains-difference s t x)

remove-within : (s : StringSet) (k x : Text) → contains (remove s k) x ≡ true → contains s x ≡ true
remove-within s k x h = ground (arith, contains-remove s k x)

without_actions :
    (s : Statement) (t : StringSet) → Narrower (record s { actions = difference s.actions t }) s
without_actions s t = record {
  effect = refl;
  principal = refl;
  actions = difference-within s.actions t;
  resources = λ r h. h;
}

without_resource :
    (s : Statement) (k : Text) → Narrower (record s { resources = remove s.resources k }) s
without_resource s k = record {
  effect = refl;
  principal = refl;
  actions = λ a h. h;
  resources = remove-within s.resources k;
}

remove_read_only-Narrower : (s : Statement) (prefix : Text) → Narrower (remove_read_only s prefix) s
unfolding remove_read_only
remove_read_only-Narrower s prefix = record {
  effect = ground arith;
  principal = ground arith;
  actions = λ a h. ground (arith, difference-within s.actions read_only_bucket_actions a);
  resources = λ r h. ground arith;
}

remove_write_only-Narrower : (s : Statement) → Narrower (remove_write_only s) s
unfolding remove_write_only
remove_write_only-Narrower s = record {
  effect = ground arith;
  principal = ground arith;
  actions = λ a h. ground (arith, difference-within s.actions write_only_bucket_actions a);
  resources = λ r h. ground arith;
}

remove_object_actions-Narrower :
    (s : Statement) (object_resource : Text) → Narrower (remove_object_actions s object_resource) s
unfolding remove_object_actions
remove_object_actions-Narrower s k = record {
  effect = ground arith;
  principal = ground arith;
  actions = λ a h. ground (
    arith,
    difference-within (difference s.actions read_only_object_actions) write_only_object_actions a,
    difference-within s.actions read_only_object_actions a,
  );
  resources = λ r h. ground (arith, remove-within s.resources k r);
}

Narrower-if :
    (b : Bool) (s t u : Statement) → Narrower s u → Narrower t u → Narrower (if b then s else t) u
Narrower-if true s t u p q = p
Narrower-if false s t u p q = q

remove_bucket_actions-Narrower :
    (s : Statement) (prefix bucket_resource : Text) (read_only write_only : Bool)
    → Narrower (remove_bucket_actions s prefix bucket_resource read_only write_only) s
unfolding remove_bucket_actions
remove_bucket_actions-Narrower s prefix k read_only write_only =
    let first : Narrower (if not read_only then remove_read_only s prefix else s) s =
      Narrower-if _ _ _ _ (remove_read_only-Narrower s prefix) (Narrower-refl s) in
    Narrower-if _ _ _ _ (without_resource s k)
      (Narrower-if _ _ _ _ (Narrower-trans _ _ _ (remove_write_only-Narrower _) first) first)

pub strip-Narrower :
    (bucket_name prefix : Text) (in_use : Bool × Bool) (s : Statement)
    → Narrower (strip bucket_name prefix in_use s) s
unfolding strip
strip-Narrower bucket_name prefix in_use s =
    Narrower-if _ _ _ _ (by_conditions s.conditions)
      (Narrower-if _ _ _ _ (remove_object_actions-Narrower s _) (Narrower-refl s))
  where
    by_conditions :
        (c : Option ConditionMap)
        → Narrower
            (elim c [
              | some _ ↦ remove_bucket_actions s prefix (bucket_resource_of bucket_name) false false
              | none ↦
                  remove_bucket_actions s prefix (bucket_resource_of bucket_name) in_use.0 in_use.1
            ])
            s
    by_conditions none = remove_bucket_actions-Narrower s prefix _ in_use.0 in_use.1
    by_conditions (some _) = remove_bucket_actions-Narrower s prefix _ false false

-- The statements whose conditions removeReadOnly changes: a valid statement about the bucket alone, with
-- conditions, that allows the listing, when the prefix is not empty.
unfoldable pub is_relaxed : Text → Text → Statement → Bool
is_relaxed bucket_name prefix s =
    is_valid_statement s bucket_name
    && contains s.resources (bucket_resource_of bucket_name)
    && not (ltb 1 (length s.resources))
    && has_all s.actions read_only_bucket_actions
    && not (has_no_conditions s)
    && not (text_eq prefix [])

-- The conditions that each part of the removal leaves.
remove_write_only-conditions : (s : Statement) → (remove_write_only s).conditions ≡ s.conditions
unfolding remove_write_only
remove_write_only-conditions s = ground arith

remove_object_actions-conditions :
    (s : Statement) (k : Text) → (remove_object_actions s k).conditions ≡ s.conditions
unfolding remove_object_actions
remove_object_actions-conditions s k = ground arith

remove_read_only-conditions :
    (s : Statement) (prefix : Text)
    → ((remove_read_only s prefix).conditions ≡ s.conditions)
      ⊎ ((has_all s.actions read_only_bucket_actions ≡ true)
          × (has_no_conditions s ≡ false)
          × (text_eq prefix [] ≡ false))
unfolding remove_read_only has_no_conditions
remove_read_only-conditions s prefix = ground arith

remove_bucket_actions-conditions :
    (s : Statement) (prefix k : Text) (read_only write_only : Bool)
    → ((remove_bucket_actions s prefix k read_only write_only).conditions ≡ s.conditions)
      ⊎ ((ltb 1 (length s.resources) ≡ false)
          × (has_all s.actions read_only_bucket_actions ≡ true)
          × (has_no_conditions s ≡ false)
          × (text_eq prefix [] ≡ false))
unfolding remove_bucket_actions
remove_bucket_actions-conditions s prefix k read_only write_only = ground (
  arith,
  remove_read_only-conditions s prefix,
  remove_write_only-conditions s,
  remove_write_only-conditions (remove_read_only s prefix),
)

-- Stripping leaves the conditions, or the statement is one of those whose conditions are changed.
pub strip-conditions :
    (bucket_name prefix : Text) (in_use : Bool × Bool) (s : Statement)
    → is_valid_statement s bucket_name ≡ true
    → ((strip bucket_name prefix in_use s).conditions ≡ s.conditions)
      ⊎ (is_relaxed bucket_name prefix s ≡ true)
unfolding strip is_relaxed
strip-conditions bucket_name prefix in_use s valid = ground (
  arith,
  remove_bucket_actions-conditions s prefix (bucket_resource_of bucket_name) false false,
  remove_bucket_actions-conditions s prefix (bucket_resource_of bucket_name) in_use.0 in_use.1,
  remove_object_actions-conditions s (object_resource_of bucket_name prefix),
)
