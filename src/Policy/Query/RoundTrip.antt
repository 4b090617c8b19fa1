-- ===== src/Policy/Query/RoundTrip.antt =====
-- pkg/policy/bucket-policy.go: `GetPolicy` after `SetPolicy`.
pub mod Listing
use mathlib.Core.List.{append_assoc}
use mefs_sdk_go.Prelude.{
  ℕ, Bool, true, false, ◌≡◌, ◌≢◌, refl, sym, ap, subst, ◌∙◌, List, [], ◌∷◌, ◌++◌, arith, Bool-cases,
  ◌⊎◌, inl, inr, ||-true,
}
use mefs_sdk_go.Prelude.Text.{Text, codes, text_eq, text_eq_refl, text_eq→eq, has_prefix}
use mefs_sdk_go.Prelude.Search.{has_prefix-append}
use mefs_sdk_go.Map.{delete, lookup, insert, range_insert}
use mefs_sdk_go.StringSet.{
  contains, add, add_all, is_empty, subset, equals, union, intersection, add_where,
  create_string_set, copy_string_set, difference, remove, apply_func, apply_func_loop, func_match,
}
use mefs_sdk_go.Policy.Condition.{
  deep_equal, deep_equal_map, deep_equal_loop, add_value, add_condition, copy_condition_key_map,
}
use mefs_sdk_go.Policy.Statement.{
  BucketPolicy, is_valid_bucket_policy, bucket_policy_none, bucket_policy_read_only,
  bucket_policy_read_write, bucket_policy_write_only, common_bucket_actions,
  read_only_bucket_actions, write_only_bucket_actions, read_only_object_actions,
  write_only_object_actions, read_write_object_actions, Statement, star, bucket_resource_of,
  object_resource_of, has_all, is_valid_statement, valid_actions, starts_with_func,
  aws_resource_prefix,
}
use mefs_sdk_go.Policy.Match.{resource_match}
use mefs_sdk_go.Policy.Match.Complete.{HasNoAsterisk, resource_match_plain}
use mefs_sdk_go.Policy.Build.{
  prefix_condition, new_bucket_statement, object_actions, new_object_statement, new_statements,
}
use mefs_sdk_go.Policy.Remove.{
  remove_statements, get_in_use_policy, in_use_loop, remove_loop, skip_bucket_statement,
  restore_loop, drop_lone_common, is_public, has_no_conditions, uses_other_objects,
  remove_object_actions, drop_prefix, drop_prefix_condition, remove_read_only, remove_write_only,
  remove_bucket_actions, prefix_values, strip, place, remove_step,
}
use mefs_sdk_go.Policy.Append.{
  merge_conditions, merge_statement, append_new, append_statement, append_statements,
}
use mefs_sdk_go.Policy.Query.{
  values_at_prefix, prefix_read_only, get_bucket_policy, get_object_policy, match_step, match_loop,
  matched_resources, object_step, bucket_step, policy_loop, policy_of, get_policy, set_policy,
}

-- The resource of a bucket is none of its object resources.
text_eq-longer : (s : Text) (c : ℕ) (t : Text) → text_eq s (s ++ c ∷ t) ≡ false
unfolding text_eq
text_eq-longer [] c t = refl
text_eq-longer (a ∷ s) c t = ground (arith, text_eq-longer s c t)

text_eq-shorter : (s : Text) (c : ℕ) (t : Text) → text_eq (s ++ c ∷ t) s ≡ false
unfolding text_eq
text_eq-shorter [] c t = refl
text_eq-shorter (a ∷ s) c t = ground (arith, text_eq-shorter s c t)

-- The first matched resource decides.
match_first :
    (read_only write_only common reads writes obj_reads obj_writes : Bool) (c : ℕ) (r : Text)
    → match_step read_only write_only
        (record {
          bucket_common_found = common;
          bucket_read_only = reads;
          bucket_write_only = writes;
          matched_resource = [];
          obj_read_only = obj_reads;
          obj_write_only = obj_writes;
        })
        (c ∷ r)
      ≡ record {
        bucket_common_found = common;
        bucket_read_only = reads;
        bucket_write_only = writes;
        matched_resource = c ∷ r;
        obj_read_only = read_only;
        obj_write_only = write_only;
      }
unfolding match_step
match_first read_only write_only common reads writes obj_reads obj_writes c r = ground arith

-- Unfolds what `SetPolicy` and `GetPolicy` run through, but for the pattern matcher.
unfoldable pub set_then_get : List Statement → BucketPolicy → Text → Text → BucketPolicy
unfolding text_eq lookup insert range_insert contains add add_all is_empty subset equals union
    intersection add_where create_string_set copy_string_set deep_equal deep_equal_map
    deep_equal_loop add_value add_condition copy_condition_key_map common_bucket_actions
    read_only_bucket_actions write_only_bucket_actions read_only_object_actions
    write_only_object_actions read_write_object_actions has_all prefix_condition
    new_bucket_statement object_actions new_object_statement new_statements remove_statements
    get_in_use_policy in_use_loop remove_loop skip_bucket_statement restore_loop drop_lone_common
    is_public has_no_conditions merge_conditions merge_statement append_new append_statement
    append_statements values_at_prefix prefix_read_only get_bucket_policy get_object_policy
    match_loop matched_resources object_step bucket_step policy_loop policy_of get_policy set_policy
    func_match
set_then_get statements policy bucket_name prefix =
    get_policy (set_policy statements policy bucket_name prefix) bucket_name prefix

-- Unfolds what `removeStatements` runs through after `SetPolicy`.
unfoldable pub removed : BucketPolicy → Text → Text → List Statement
unfolding set_then_get is_valid_statement valid_actions starts_with_func uses_other_objects
    remove_object_actions drop_prefix drop_prefix_condition remove_read_only remove_write_only
    remove_bucket_actions prefix_values strip place remove_step difference remove delete apply_func
    apply_func_loop
removed policy bucket_name prefix =
    remove_statements (set_policy [] policy bucket_name prefix) bucket_name prefix

has_prefix-longer : (s : Text) (c : ℕ) (t : Text) → has_prefix s (s ++ c ∷ t) ≡ false
unfolding has_prefix
has_prefix-longer [] c t = refl
has_prefix-longer (a ∷ s) c t = ground (arith, has_prefix-longer s c t)

plain-append : (p q : Text) → HasNoAsterisk p → HasNoAsterisk q → HasNoAsterisk (p ++ q)
plain-append [] q h k = k
plain-append (c ∷ p) q h k = (h.0, plain-append p q h.1 k)

bucket_resource-plain :
    (bucket_name : Text)
    → HasNoAsterisk bucket_name
    → HasNoAsterisk (bucket_resource_of bucket_name)
bucket_resource-plain bucket_name h =
    plain-append aws_resource_prefix bucket_name
      (
        refl,
        (
          refl,
          (
            refl,
            (refl, (refl, (refl, (refl, (refl, (refl, (refl, (refl, (refl, (refl, tt)))))))))),
          ),
        ),
      )
      h

module _ (bucket_name prefix : Text) where
  bucket-ne-object : text_eq bucket_name ((bucket_name ++ codes "/") ++ (prefix ++ star)) ≡ false
  bucket-ne-object = rw append_assoc (text_eq-longer bucket_name b'/' (prefix ++ star))

  object-ne-bucket : text_eq ((bucket_name ++ codes "/") ++ (prefix ++ star)) bucket_name ≡ false
  object-ne-bucket = rw append_assoc (text_eq-shorter bucket_name b'/' (prefix ++ star))

  begins :
      has_prefix ((bucket_name ++ codes "/") ++ (prefix ++ star)) (bucket_name ++ codes "/") ≡ true
  begins = has_prefix-append (bucket_name ++ codes "/") (prefix ++ star)

  not_begins : has_prefix bucket_name (bucket_name ++ codes "/") ≡ false
  not_begins = has_prefix-longer bucket_name b'/' []

ruleset tests = (text_eq_refl, bucket-ne-object, object-ne-bucket, match_first, begins, not_begins)

bucket_matches_no_object :
    (bucket_name prefix : Text)
    → HasNoAsterisk bucket_name
    → resource_match (bucket_resource_of bucket_name) (object_resource_of bucket_name prefix)
      ≡ false
unfolding text_eq
bucket_matches_no_object bucket_name prefix plain =
    resource_match_plain (bucket_resource_of bucket_name) _
      (bucket_resource-plain bucket_name plain)
    ∙ object-ne-bucket bucket_name prefix

module _ (bucket_name prefix : Text) (plain : HasNoAsterisk bucket_name)
    (named : text_eq bucket_name [] ≡ false) where
  abbrev no_match :
      resource_match (bucket_resource_of bucket_name) (object_resource_of bucket_name prefix)
      ≡ false
  no_match = bucket_matches_no_object bucket_name prefix plain

  set_get_read_only :
      (text_eq prefix [] ≡ true) ⊎ (text_eq prefix [] ≡ false)
      → get_policy (set_policy [] bucket_policy_read_only bucket_name prefix) bucket_name prefix
        ≡ bucket_policy_read_only
  unfolding set_then_get
  set_get_read_only (inl h) = simp (tests, no_match, named, h)
  set_get_read_only (inr h) = simp (tests, no_match, named, h)

  set_get_write_only :
      (text_eq prefix [] ≡ true) ⊎ (text_eq prefix [] ≡ false)
      → get_policy (set_policy [] bucket_policy_write_only bucket_name prefix) bucket_name prefix
        ≡ bucket_policy_write_only
  unfolding set_then_get
  set_get_write_only (inl h) = simp (tests, no_match, named)
  set_get_write_only (inr h) = simp (tests, no_match, named)

  set_get_read_write :
      (text_eq prefix [] ≡ true) ⊎ (text_eq prefix [] ≡ false)
      → get_policy (set_policy [] bucket_policy_read_write bucket_name prefix) bucket_name prefix
        ≡ bucket_policy_read_write
  unfolding set_then_get
  set_get_read_write (inl h) = simp (tests, no_match, named, h)
  set_get_read_write (inr h) = simp (tests, no_match, named, h)

  removed_nothing : remove_statements [] bucket_name prefix ≡ []
  unfolding removed
  removed_nothing = refl

  removed_read_only :
      (text_eq prefix [] ≡ true) ⊎ (text_eq prefix [] ≡ false)
      → remove_statements
          (set_policy [] bucket_policy_read_only bucket_name prefix)
          bucket_name
          prefix
        ≡ []
  unfolding removed
  removed_read_only (inl h) = simp (tests, named, h)
  removed_read_only (inr h) = simp (tests, named, h)

  removed_write_only :
      (text_eq prefix [] ≡ true) ⊎ (text_eq prefix [] ≡ false)
      → remove_statements
          (set_policy [] bucket_policy_write_only bucket_name prefix)
          bucket_name
          prefix
        ≡ []
  unfolding removed
  removed_write_only (inl h) = simp (tests, named)
  removed_write_only (inr h) = simp (tests, named)

  removed_read_write :
      (text_eq prefix [] ≡ true) ⊎ (text_eq prefix [] ≡ false)
      → remove_statements
          (set_policy [] bucket_policy_read_write bucket_name prefix)
          bucket_name
          prefix
        ≡ []
  unfolding removed
  removed_read_write (inl h) = simp (tests, named, h)
  removed_read_write (inr h) = simp (tests, named, h)

-- A property of the four policies is a property of each valid one.
by_policy :
    (P : BucketPolicy → Type 0) (policy : BucketPolicy)
    → is_valid_bucket_policy policy ≡ true
    → P bucket_policy_none
    → P bucket_policy_read_only
    → P bucket_policy_read_write
    → P bucket_policy_write_only
    → P policy
unfolding is_valid_bucket_policy
by_policy P policy valid none' read_only read_write write_only = elim (||-true _ _ valid) [
  | inl h ↦ elim (||-true _ _ h) [
    | inl k ↦ elim (||-true _ _ k) [
      | inl l ↦ subst P (sym (text_eq→eq policy bucket_policy_none l)) none'
      | inr l ↦ subst P (sym (text_eq→eq policy bucket_policy_read_only l)) read_only
    ]
    | inr k ↦ subst P (sym (text_eq→eq policy bucket_policy_read_write k)) read_write
  ]
  | inr h ↦ subst P (sym (text_eq→eq policy bucket_policy_write_only h)) write_only
]

named_of : (bucket_name : Text) → bucket_name ≢ [] → text_eq bucket_name [] ≡ false
unfolding text_eq
named_of [] h = absurd (h refl)
named_of (c ∷ b) h = refl

module _ (policy bucket_name prefix : Text) (valid : is_valid_bucket_policy policy ≡ true)
    (plain : HasNoAsterisk bucket_name) (named : bucket_name ≢ []) where
  -- On a bucket without statements, `GetPolicy` finds the policy that `SetPolicy` has set, for
  -- each of the four policies and every prefix, where the bucket has a name without an asterisk.
  pub get_policy-set_policy :
      get_policy (set_policy [] policy bucket_name prefix) bucket_name prefix ≡ policy
  get_policy-set_policy =
      let n = named_of bucket_name named in
      let by_prefix = Bool-cases (text_eq prefix []) in
      by_policy (λ q. get_policy (set_policy [] q bucket_name prefix) bucket_name prefix ≡ q) policy
        valid (unfold set_then_get in refl) (set_get_read_only bucket_name prefix plain n by_prefix)
        (set_get_read_write bucket_name prefix plain n by_prefix)
        (set_get_write_only bucket_name prefix plain n by_prefix)

  -- `removeStatements` undoes `SetPolicy` on a bucket without statements, for each of the four
  -- policies and every prefix, where the bucket has a name without an asterisk.
  pub remove_statements-set_policy :
      remove_statements (set_policy [] policy bucket_name prefix) bucket_name prefix ≡ []
  remove_statements-set_policy =
      let n = named_of bucket_name named in
      let by_prefix = Bool-cases (text_eq prefix []) in
      by_policy
        (λ q. remove_statements (set_policy [] q bucket_name prefix) bucket_name prefix ≡ []) policy
        valid (unfold removed in refl) (removed_read_only bucket_name prefix plain n by_prefix)
        (removed_read_write bucket_name prefix plain n by_prefix)
        (removed_write_only bucket_name prefix plain n by_prefix)

  -- On a bucket without statements a second `SetPolicy` replaces the first, which is one of the four
  -- policies, whatever policy it sets itself, where the bucket has a name without an asterisk.
  pub set_policy-set_policy :
      (policy' : BucketPolicy)
      → set_policy (set_policy [] policy bucket_name prefix) policy' bucket_name prefix
        ≡ set_policy [] policy' bucket_name prefix
  unfolding set_policy
  set_policy-set_policy policy' =
      ap (λ out. append_statements out (new_statements policy' bucket_name prefix))
        (remove_statements-set_policy
          ∙ sym (removed_nothing bucket_name prefix plain (named_of bucket_name named)))
