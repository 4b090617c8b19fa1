-- ===== src/Policy/Remove.antt =====
-- pkg/policy/bucket-policy.go: the removal of a policy's statements.
pub mod Fewer
pub mod Narrow
pub mod Foreign
use mefs_sdk_go.Prelude.{
  ℕ, Bool, true, false, not, ◌&&◌, ◌||◌, Option, none, some, List, [], ◌∷◌, ◌++◌, ◌==◌, ltb, length,
  if◌then◌else◌,
}
use mefs_sdk_go.Prelude.Text.{Text, codes, text_eq}
use mefs_sdk_go.Map.{Map, lookup, insert, delete}
use mefs_sdk_go.StringSet.{
  StringSet, contains, is_empty, intersection, difference, union, remove, func_match, apply_func,
}
use mefs_sdk_go.Policy.Condition.{ConditionKeyMap, ConditionMap}
use mefs_sdk_go.Policy.Statement.{
  common_bucket_actions, read_only_bucket_actions, write_only_bucket_actions,
  read_only_object_actions, write_only_object_actions, Statement, allow, star, bucket_resource_of,
  resource_prefix_of, object_resource_of, has_all, is_valid_statement, starts_with_func,
}
use mefs_sdk_go.Policy.Build.{string_equals, s3_prefix}

-- the test of the loop of `getInUsePolicy`: the statement is about other objects of the bucket
unfoldable pub uses_other_objects : Statement → Text → Text → Bool
uses_other_objects s bucket_name prefix =
    not (contains s.resources (object_resource_of bucket_name prefix))
    && not (is_empty (func_match s.resources starts_with_func (resource_prefix_of bucket_name)))

-- the loop, with its two flags
unfoldable pub in_use_loop : List Statement → Text → Text → Bool → Bool → Bool × Bool
in_use_loop [] bucket_name prefix read_only write_only = (read_only, write_only)
in_use_loop (s ∷ statements) bucket_name prefix read_only write_only =
    let other = uses_other_objects s bucket_name prefix in
    let read_only' = read_only || (other && has_all s.actions read_only_object_actions) in
    let write_only' = write_only || (other && has_all s.actions write_only_object_actions) in
    let rest = in_use_loop statements bucket_name prefix read_only' write_only' in
    if read_only' && write_only' then (read_only', write_only') else rest

unfoldable pub get_in_use_policy : List Statement → Text → Text → Bool × Bool
get_in_use_policy statements bucket_name prefix =
    in_use_loop statements bucket_name prefix false false

unfoldable pub remove_object_actions : Statement → Text → Statement
remove_object_actions statement object_resource = elim statement.conditions [
  | some _ ↦ statement
  | none ↦
      if ltb 1 (length statement.resources)
      then record statement { resources = remove statement.resources object_resource }
      else record statement {
        actions =
            difference (difference statement.actions read_only_object_actions)
              write_only_object_actions;
      }
]

-- `values.Remove(prefix)` on the set in the map, and the key goes with its last value
unfoldable pub drop_prefix : ConditionKeyMap → Text → ConditionKeyMap
drop_prefix string_equals_value prefix = elim (lookup string_equals_value s3_prefix) [
  | none ↦ delete string_equals_value s3_prefix
  | some v ↦
      let values = remove v prefix in
      if is_empty values
      then delete string_equals_value s3_prefix
      else insert string_equals_value s3_prefix values
]

unfoldable pub drop_prefix_condition : ConditionMap → Text → ConditionMap
drop_prefix_condition conditions prefix = elim (lookup conditions string_equals) [
  | none ↦ conditions
  | some v ↦
      let string_equals_value = drop_prefix v prefix in
      if length string_equals_value == 0
      then delete conditions string_equals
      else insert conditions string_equals string_equals_value
]

-- the closure `removeReadOnly`
unfoldable pub remove_read_only : Statement → Text → Statement
remove_read_only statement prefix =
    if not (has_all statement.actions read_only_bucket_actions)
    then statement
    else elim statement.conditions [
      | none ↦ record statement { actions = difference statement.actions read_only_bucket_actions }
      | some cond ↦
          if not (text_eq prefix [])
          then (let conditions = drop_prefix_condition cond prefix in
              if length conditions == 0
              then record statement {
                conditions = none;
                actions = difference statement.actions read_only_bucket_actions;
              }
              else record statement { conditions = some conditions })
          else statement
    ]

-- the closure `removeWriteOnly`
unfoldable pub remove_write_only : Statement → Statement
remove_write_only statement = elim statement.conditions [
  | none ↦ record statement { actions = difference statement.actions write_only_bucket_actions }
  | some _ ↦ statement
]

unfoldable pub remove_bucket_actions : Statement → Text → Text → Bool → Bool → Statement
remove_bucket_actions statement prefix bucket_resource read_only_in_use write_only_in_use =
    if ltb 1 (length statement.resources)
    then record statement { resources = remove statement.resources bucket_resource }
    else let s = if not read_only_in_use then remove_read_only statement prefix else statement in
      if not write_only_in_use then remove_write_only s else s

-- the tests that `removeStatements` repeats
unfoldable pub is_public : Statement → Bool
is_public statement = text_eq statement.effect allow && contains statement.principal.aws star

unfoldable pub has_no_conditions : Statement → Bool
has_no_conditions statement = elim statement.conditions [ none ↦ true | some _ ↦ false ]

-- The variables of `removeStatements` in its first loop.
pub record Removal : Type 0 where
  pub out : List Statement
  pub read_only_bucket_statements : List Statement
  pub s3_prefix_values : StringSet

-- the values at `s3:prefix` under `StringEquals`
unfoldable pub prefix_values : ConditionMap → StringSet
prefix_values conditions = elim (lookup conditions string_equals) [
  | none ↦ []
  | some v ↦ elim (lookup v s3_prefix) [ none ↦ [] | some values ↦ values ]
]

-- what the first loop makes of a statement before it decides where to put it
unfoldable pub strip : Text → Text → Bool × Bool → Statement → Statement
strip bucket_name prefix (read_only_in_use, write_only_in_use) statement =
    if contains statement.resources (bucket_resource_of bucket_name)
    then elim statement.conditions [
      | some _ ↦ remove_bucket_actions statement prefix (bucket_resource_of bucket_name) false false
      | none ↦
          remove_bucket_actions statement prefix (bucket_resource_of bucket_name) read_only_in_use
            write_only_in_use
    ]
    else if contains statement.resources (object_resource_of bucket_name prefix)
    then remove_object_actions statement (object_resource_of bucket_name prefix)
    else statement

-- where the first loop puts a stripped statement
unfoldable pub place : Text → Removal → Statement → Removal
place bucket_name st statement =
    let kept = record st { out = st.out ++ statement ∷ [] } in
    let bucket_resource = bucket_resource_of bucket_name in
    if is_empty statement.actions
    then st
    else if contains statement.resources bucket_resource
        && has_all statement.actions read_only_bucket_actions
        && is_public statement
    then elim statement.conditions [
      | some cond ↦ record kept {
        s3_prefix_values =
            union st.s3_prefix_values (
              apply_func (prefix_values cond) (λ v. bucket_resource ++ (codes "/" ++ (v ++ star))));
      }
      | none ↦
          if not (is_empty st.s3_prefix_values)
          then record st {
            read_only_bucket_statements = st.read_only_bucket_statements ++ statement ∷ [];
          }
          else kept
    ]
    else kept

-- one round of the first loop
unfoldable pub remove_step : Text → Text → Bool × Bool → Removal → Statement → Removal
remove_step bucket_name prefix in_use st statement =
    if not (is_valid_statement statement bucket_name)
    then record st { out = st.out ++ statement ∷ [] }
    else place bucket_name st (strip bucket_name prefix in_use statement)

unfoldable pub remove_loop : Text → Text → Bool × Bool → Removal → List Statement → Removal
remove_loop bucket_name prefix in_use st [] = st
remove_loop bucket_name prefix in_use st (statement ∷ statements) =
    remove_loop bucket_name prefix in_use (remove_step bucket_name prefix in_use st statement)
      statements

-- the second loop: no statement of `out` is about objects of the bucket outside `s3PrefixValues`
unfoldable pub skip_bucket_statement : Text → StringSet → List Statement → Bool
skip_bucket_statement bucket_name s3_prefix_values [] = true
skip_bucket_statement bucket_name s3_prefix_values (statement ∷ out) =
    if not (
        is_empty (func_match statement.resources starts_with_func (resource_prefix_of bucket_name)))
      && is_empty (intersection s3_prefix_values statement.resources)
    then false
    else skip_bucket_statement bucket_name s3_prefix_values out

-- the third loop
unfoldable pub restore_loop : Text → Bool → List Statement → List Statement → List Statement
restore_loop bucket_name skip out [] = out
restore_loop bucket_name skip out (statement ∷ statements) =
    restore_loop bucket_name skip
      (if skip
          && contains statement.resources (bucket_resource_of bucket_name)
          && is_public statement
          && has_no_conditions statement
        then out
        else out ++ statement ∷ [])
      statements

-- the last test: a common statement that is left alone goes too
unfoldable pub drop_lone_common : Text → List Statement → List Statement
drop_lone_common bucket_name (statement ∷ []) =
    if contains statement.resources (bucket_resource_of bucket_name)
      && has_all statement.actions common_bucket_actions
      && is_public statement
      && has_no_conditions statement
    then []
    else statement ∷ []
drop_lone_common bucket_name out = out

unfoldable pub remove_statements : List Statement → Text → Text → List Statement
remove_statements statements bucket_name prefix =
    let st =
      remove_loop bucket_name prefix (get_in_use_policy statements bucket_name prefix)
        (record { out = []; read_only_bucket_statements = []; s3_prefix_values = [] }) statements in
    drop_lone_common bucket_name (
      restore_loop bucket_name (skip_bucket_statement bucket_name st.s3_prefix_values st.out) st.out
        st.read_only_bucket_statements)
