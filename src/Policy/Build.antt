-- ===== src/Policy/Build.antt =====
-- pkg/policy/bucket-policy.go: the statements that a policy stands for.
use mefs_sdk_go.Prelude.{not, ◌||◌, Option, none, some, List, [], ◌∷◌, ◌++◌, if◌then◌else◌}
use mefs_sdk_go.Prelude.Text.{Text, codes, text_eq}
use mefs_sdk_go.StringSet.{StringSet, create_string_set}
use mefs_sdk_go.Policy.Condition.{ConditionMap, add_value, add_condition}
use mefs_sdk_go.Policy.Statement.{
  BucketPolicy, bucket_policy_none, bucket_policy_read_only, bucket_policy_read_write,
  bucket_policy_write_only, common_bucket_actions, read_only_bucket_actions,
  write_only_bucket_actions, read_only_object_actions, write_only_object_actions,
  read_write_object_actions, User, Statement, allow, star, bucket_resource_of, object_resource_of,
}

abbrev pub any_user : User
any_user = record { aws = create_string_set (star ∷ []); canonical_user = [] }

-- the literals `Statement{…}` of the two functions below
abbrev pub allow_statement : StringSet → StringSet → Option ConditionMap → Statement
allow_statement actions resources conditions = record {
  actions = actions;
  conditions = conditions;
  effect = allow;
  principal = any_user;
  resources = resources;
  sid = [];
}

abbrev pub string_equals : Text
string_equals = codes "StringEquals"

abbrev pub s3_prefix : Text
s3_prefix = codes "s3:prefix"

-- `condMap` of a read-only bucket statement
unfoldable pub prefix_condition : Text → Option ConditionMap
prefix_condition prefix =
    if not (text_eq prefix [])
    then some
        (add_condition [] string_equals (add_value [] s3_prefix (create_string_set (prefix ∷ []))))
    else none

unfoldable pub new_bucket_statement : BucketPolicy → Text → Text → List Statement
new_bucket_statement policy bucket_name prefix =
    if text_eq policy bucket_policy_none || text_eq bucket_name []
    then []
    else let bucket_resource = create_string_set (bucket_resource_of bucket_name ∷ []) in
      let common = allow_statement common_bucket_actions bucket_resource none in
      let read_only =
        allow_statement read_only_bucket_actions bucket_resource (prefix_condition prefix) in
      let write_only = allow_statement write_only_bucket_actions bucket_resource none in
      common
      ∷ ((if text_eq policy bucket_policy_read_only || text_eq policy bucket_policy_read_write
            then read_only ∷ []
            else [])
          ++ (if text_eq policy bucket_policy_write_only || text_eq policy bucket_policy_read_write
              then write_only ∷ []
              else []))

-- the actions of an object statement; none for a policy that the program does not know
unfoldable pub object_actions : BucketPolicy → StringSet
object_actions policy =
    if text_eq policy bucket_policy_read_only
    then read_only_object_actions
    else if text_eq policy bucket_policy_write_only
    then write_only_object_actions
    else if text_eq policy bucket_policy_read_write
    then read_write_object_actions
    else []

unfoldable pub new_object_statement : BucketPolicy → Text → Text → List Statement
new_object_statement policy bucket_name prefix =
    if text_eq policy bucket_policy_none || text_eq bucket_name []
    then []
    else allow_statement (object_actions policy)
        (create_string_set (object_resource_of bucket_name prefix ∷ [])) none
      ∷ []

unfoldable pub new_statements : BucketPolicy → Text → Text → List Statement
new_statements policy bucket_name prefix =
    new_bucket_statement policy bucket_name prefix ++ new_object_statement policy bucket_name prefix
