-- ===== src/Policy/Statement.antt =====
-- pkg/policy/bucket-policy.go: the policies, the actions and the statements.
use mefs_sdk_go.Prelude.{Bool, true, false, not, ◌||◌, Option, [], ◌∷◌, ◌++◌, if◌then◌else◌}
use mefs_sdk_go.Prelude.Text.{Text, codes, text_eq, has_prefix}
use mefs_sdk_go.StringSet.{
  StringSet, contains, is_empty, intersection, equals, union, func_match, add, add_all,
  create_string_set,
}
use mefs_sdk_go.Policy.Condition.{ConditionMap}

abbrev pub BucketPolicy : Type 0
BucketPolicy = Text

abbrev pub bucket_policy_none : BucketPolicy
bucket_policy_none = codes "none"

abbrev pub bucket_policy_read_only : BucketPolicy
bucket_policy_read_only = codes "readonly"

abbrev pub bucket_policy_read_write : BucketPolicy
bucket_policy_read_write = codes "readwrite"

abbrev pub bucket_policy_write_only : BucketPolicy
bucket_policy_write_only = codes "writeonly"

unfoldable pub is_valid_bucket_policy : BucketPolicy → Bool
is_valid_bucket_policy p =
    text_eq p bucket_policy_none
    || text_eq p bucket_policy_read_only
    || text_eq p bucket_policy_read_write
    || text_eq p bucket_policy_write_only

abbrev pub aws_resource_prefix : Text
aws_resource_prefix = codes "arn:aws:s3:::"

unfoldable pub common_bucket_actions : StringSet
unfolding create_string_set add_all add contains text_eq
common_bucket_actions = create_string_set (codes "s3:GetBucketLocation" ∷ [])

unfoldable pub read_only_bucket_actions : StringSet
unfolding create_string_set add_all add contains text_eq
read_only_bucket_actions = create_string_set (codes "s3:ListBucket" ∷ [])

unfoldable pub write_only_bucket_actions : StringSet
unfolding create_string_set add_all add contains text_eq
write_only_bucket_actions = create_string_set (codes "s3:ListBucketMultipartUploads" ∷ [])

unfoldable pub read_only_object_actions : StringSet
unfolding create_string_set add_all add contains text_eq
read_only_object_actions = create_string_set (codes "s3:GetObject" ∷ [])

unfoldable pub write_only_object_actions : StringSet
unfolding create_string_set add_all add contains text_eq
write_only_object_actions = create_string_set (
    codes "s3:AbortMultipartUpload"
    ∷ codes "s3:DeleteObject"
    ∷ codes "s3:ListMultipartUploadParts"
    ∷ codes "s3:PutObject"
    ∷ [])

unfoldable pub read_write_object_actions : StringSet
unfolding union read_only_object_actions write_only_object_actions
read_write_object_actions = union read_only_object_actions write_only_object_actions

unfoldable pub valid_actions : StringSet
unfolding union common_bucket_actions read_only_bucket_actions write_only_bucket_actions
    read_only_object_actions write_only_object_actions
valid_actions =
    union
      (union
        (union (union common_bucket_actions read_only_bucket_actions) write_only_bucket_actions)
        read_only_object_actions)
      write_only_object_actions

unfoldable pub starts_with_func : Text → Text → Bool
starts_with_func resource resource_prefix = has_prefix resource resource_prefix

-- A nil set has no elements and is the empty list here.
pub record User : Type 0 where
  pub aws : StringSet
  pub canonical_user : StringSet

pub record Statement : Type 0 where
  pub actions : StringSet
  pub conditions : Option ConditionMap
  pub effect : Text
  pub principal : User
  pub resources : StringSet
  pub sid : Text

abbrev pub allow : Text
allow = codes "Allow"

abbrev pub star : Text
star = codes "*"

-- `awsResourcePrefix + bucketName`
abbrev pub bucket_resource_of : Text → Text
bucket_resource_of bucket_name = aws_resource_prefix ++ bucket_name

-- `awsResourcePrefix + bucketName + "/"`
abbrev pub resource_prefix_of : Text → Text
resource_prefix_of bucket_name = bucket_resource_of bucket_name ++ codes "/"

-- `awsResourcePrefix + bucketName + "/" + prefix + "*"`
abbrev pub object_resource_of : Text → Text → Text
object_resource_of bucket_name prefix = resource_prefix_of bucket_name ++ (prefix ++ star)

-- the test `s.Intersection(t).Equals(t)`
unfoldable pub has_all : StringSet → StringSet → Bool
has_all s t = equals (intersection s t) t

unfoldable pub is_valid_statement : Statement → Text → Bool
is_valid_statement statement bucket_name =
    if is_empty (intersection statement.actions valid_actions)
    then false
    else if not (text_eq statement.effect allow)
    then false
    else if not (contains statement.principal.aws star)
    then false
    else if contains statement.resources (bucket_resource_of bucket_name)
    then true
    else if is_empty
        (func_match statement.resources starts_with_func (resource_prefix_of bucket_name))
    then false
    else true
