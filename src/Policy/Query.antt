-- ===== src/Policy/Query.antt =====
-- pkg/policy/bucket-policy.go: which policy a list of statements amounts to, and `SetPolicy`.
pub mod Order
pub mod RoundTrip
pub mod Rules
use mefs_sdk_go.Prelude.{
  ℕ, suc, ◌+◌, ◌-◌, Bool, true, false, not, ◌&&◌, ◌||◌, Option, none, some, List, [], ◌∷◌, ◌++◌,
  ◌==◌, ltb, leb, length, drop, take, if◌then◌else◌,
}
use mefs_sdk_go.Prelude.Text.{Text, codes, text_eq, has_prefix, has_suffix}
use mefs_sdk_go.Map.{Map, lookup, insert}
use mefs_sdk_go.StringSet.{StringSet, contains, is_empty, add, func_match}
use mefs_sdk_go.Policy.Condition.{ConditionMap}
use mefs_sdk_go.Policy.Statement.{
  BucketPolicy, bucket_policy_none, bucket_policy_read_only, bucket_policy_read_write,
  bucket_policy_write_only, common_bucket_actions, read_only_bucket_actions,
  write_only_bucket_actions, read_only_object_actions, write_only_object_actions, Statement, star,
  bucket_resource_of, resource_prefix_of, object_resource_of, has_all,
}
use mefs_sdk_go.Policy.Match.{resource_match}
use mefs_sdk_go.Policy.Build.{string_equals, s3_prefix, new_statements}
use mefs_sdk_go.Policy.Remove.{is_public, has_no_conditions, remove_statements}
use mefs_sdk_go.Policy.Append.{append_statements}

-- the value found under `StringEquals` or `StringNotEquals` at `s3:prefix`
unfoldable pub values_at_prefix : ConditionMap → Text → Option (Option StringSet)
values_at_prefix conditions operator = elim (lookup conditions operator) [
  | none ↦ none
  | some v ↦ some (lookup v s3_prefix)
]

-- the read-only flag of a statement with conditions, for a prefix that is not empty
unfoldable pub prefix_read_only : ConditionMap → Text → Bool
prefix_read_only conditions prefix = elim (values_at_prefix conditions string_equals) [
  | some found ↦ elim found [ some values ↦ contains values prefix | none ↦ false ]
  | none ↦ elim (values_at_prefix conditions (codes "StringNotEquals")) [
    | some found ↦ elim found [ some values ↦ not (contains values prefix) | none ↦ false ]
    | none ↦ false
  ]
]

-- The results of `getBucketPolicy`, in their order.
pub record BucketFlags : Type 0 where
  pub common_found : Bool
  pub read_only : Bool
  pub write_only : Bool

unfoldable pub get_bucket_policy : Statement → Text → BucketFlags
get_bucket_policy statement prefix =
    if not (is_public statement)
    then record { common_found = false; read_only = false; write_only = false }
    else record {
      common_found = has_all statement.actions common_bucket_actions && has_no_conditions statement;
      read_only = has_all statement.actions read_only_bucket_actions && (elim statement.conditions [
        | some cond ↦ if not (text_eq prefix []) then prefix_read_only cond prefix else false
        | none ↦ true
      ]);
      write_only =
          has_all statement.actions write_only_bucket_actions && has_no_conditions statement;
    }

-- `readOnly` and `writeOnly`
unfoldable pub get_object_policy : Statement → Bool × Bool
get_object_policy statement =
    if is_public statement && has_no_conditions statement
    then (
      has_all statement.actions read_only_object_actions,
      has_all statement.actions write_only_object_actions,
    )
    else (false, false)

-- The variables of `GetPolicy`'s loop.
pub record Found : Type 0 where
  pub bucket_common_found : Bool
  pub bucket_read_only : Bool
  pub bucket_write_only : Bool
  pub matched_resource : Text
  pub obj_read_only : Bool
  pub obj_write_only : Bool

-- one round of the loop over the matched resources: the longest resource decides
unfoldable pub match_step : Bool → Bool → Found → Text → Found
match_step read_only write_only f resource =
    if ltb (length f.matched_resource) (length resource)
    then record f {
      obj_read_only = read_only;
      obj_write_only = write_only;
      matched_resource = resource;
    }
    else if length f.matched_resource == length resource
    then record f {
      obj_read_only = f.obj_read_only || read_only;
      obj_write_only = f.obj_write_only || write_only;
      matched_resource = resource;
    }
    else f

unfoldable pub match_loop : Bool → Bool → Found → StringSet → Found
match_loop read_only write_only f [] = f
match_loop read_only write_only f (resource ∷ resources) =
    match_loop read_only write_only (match_step read_only write_only f resource) resources

unfoldable pub matched_resources : Statement → Text → StringSet
matched_resources s object_resource =
    if contains s.resources object_resource
    then add [] object_resource
    else func_match s.resources resource_match object_resource

-- the part of a round about objects
unfoldable pub object_step : Text → Found → Statement → Found
object_step object_resource f s =
    let matched = matched_resources s object_resource in
    if not (is_empty matched)
    then (let (read_only, write_only) = get_object_policy s in
        match_loop read_only write_only f matched)
    else f

-- the part of a round about the bucket
unfoldable pub bucket_step : Text → Text → Found → Statement → Found
bucket_step bucket_resource prefix f s =
    if contains s.resources bucket_resource
    then (let flags = get_bucket_policy s prefix in
        record f {
          bucket_common_found = f.bucket_common_found || flags.common_found;
          bucket_read_only = f.bucket_read_only || flags.read_only;
          bucket_write_only = f.bucket_write_only || flags.write_only;
        })
    else f

unfoldable pub policy_loop : Text → Text → Found → List Statement → Found
policy_loop bucket_name prefix f [] = f
policy_loop bucket_name prefix f (s ∷ statements) =
    policy_loop bucket_name prefix
      (bucket_step (bucket_resource_of bucket_name) prefix
        (object_step (object_resource_of bucket_name prefix) f s) s)
      statements

abbrev pub nothing_found : Found
nothing_found = record {
  bucket_common_found = false;
  bucket_read_only = false;
  bucket_write_only = false;
  matched_resource = [];
  obj_read_only = false;
  obj_write_only = false;
}

-- the end of `GetPolicy`
unfoldable pub policy_of : Found → BucketPolicy
policy_of f =
    if f.bucket_common_found
    then (if f.bucket_read_only && f.bucket_write_only && f.obj_read_only && f.obj_write_only
        then bucket_policy_read_write
        else if f.bucket_read_only && f.obj_read_only
        then bucket_policy_read_only
        else if f.bucket_write_only && f.obj_write_only
        then bucket_policy_write_only
        else bucket_policy_none)
    else bucket_policy_none

unfoldable pub get_policy : List Statement → Text → Text → BucketPolicy
get_policy statements bucket_name prefix =
    policy_of (policy_loop bucket_name prefix nothing_found statements)

-- the first loop of `GetPolicies`: the resources about objects under the prefix
unfoldable pub object_resources_in : Text → StringSet → StringSet → StringSet
object_resources_in wanted found [] = found
object_resources_in wanted found (r ∷ resources) =
    object_resources_in wanted (if has_prefix r wanted then add found r else found) resources

unfoldable pub object_resources : Text → StringSet → List Statement → StringSet
object_resources wanted found [] = found
object_resources wanted found (s ∷ statements) =
    object_resources wanted (object_resources_in wanted found s.resources) statements

-- `r` without its trailing asterisk, and the asterisk
unfoldable pub split_asterisk : Text → Text × Text
split_asterisk r = if has_suffix r star then (take (length r - 1) r, star) else (r, [])

-- one round of the second loop of `GetPolicies`
unfoldable pub policy_rule : List Statement → Text → Map BucketPolicy → Text → Map BucketPolicy
policy_rule statements bucket_name rules r =
    let (path, asterisk) = split_asterisk r in
    let skipped = length (bucket_resource_of bucket_name) + 1 in
    let object_path = if leb skipped (length path) then drop skipped path else [] in
    insert rules (bucket_name ++ (codes "/" ++ (object_path ++ asterisk)))
      (get_policy statements bucket_name object_path)

unfoldable pub policy_rules_loop :
    List Statement → Text → Map BucketPolicy → StringSet → Map BucketPolicy
policy_rules_loop statements bucket_name rules [] = rules
policy_rules_loop statements bucket_name rules (r ∷ rest) =
    policy_rules_loop statements bucket_name (policy_rule statements bucket_name rules r) rest

unfoldable pub get_policies : List Statement → Text → Text → Map BucketPolicy
get_policies statements bucket_name prefix =
    policy_rules_loop statements bucket_name []
      (object_resources (resource_prefix_of bucket_name ++ prefix) [] statements)

unfoldable pub set_policy : List Statement → BucketPolicy → Text → Text → List Statement
set_policy statements policy bucket_name prefix =
    append_statements (remove_statements statements bucket_name prefix)
      (new_statements policy bucket_name prefix)
