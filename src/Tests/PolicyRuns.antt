-- ===== src/Tests/PolicyRuns.antt =====
-- pkg/policy: runs and instances.
use mathlib.Core.List.{Mem, mem-cons_self}
use mefs_sdk_go.Prelude.{
  Bool, false, ◌++◌, some, ◌≡◌, refl, true, false, ◌||◌, List, [], ◌∷◌, ◌++◌, none, arith,
}
use mefs_sdk_go.Prelude.Text.{text_eq→eq, Text, codes, text_eq, has_prefix}
use mefs_sdk_go.StringSet.{StringSet, contains}
use mefs_sdk_go.StringSet.Equality.{SameElements}
use mefs_sdk_go.Map.{lookup}
use mefs_sdk_go.Policy.Condition.{ConditionMap, merge_condition_map}
use mefs_sdk_go.Policy.Condition.Merge.{requires, IsConditionMap, requires-merge}
use mefs_sdk_go.Policy.Statement.{
  resource_prefix_of, Statement, is_valid_bucket_policy, bucket_policy_read_only,
  bucket_policy_read_write, star, allow,
}
use mefs_sdk_go.Policy.Match.{resource_match}
use mefs_sdk_go.Policy.Match.Glob.{Glob, finished, literal, leave, take}
use mefs_sdk_go.Policy.Match.Complete.{Glob-resource_match}
use mefs_sdk_go.Policy.Match.Overlap.{resource_match_overlap}
use mefs_sdk_go.Policy.Build.{string_equals, s3_prefix}
use mefs_sdk_go.Policy.Append.{append_statements}
use mefs_sdk_go.Policy.Append.Grants.{granted, IsStatement, granted-append_statements}
use mefs_sdk_go.Policy.Remove.{remove_statements}
use mefs_sdk_go.Policy.Remove.Narrow.{permits, permitted_when, applies}
use mefs_sdk_go.Policy.Remove.Foreign.{IsForeign, other_resources, mem-remove_statements}
use mefs_sdk_go.Policy.Query.{get_policy, set_policy}
use mefs_sdk_go.Policy.Query.Order.{get_policy-Reordered}
use mefs_sdk_go.Policy.Query.{get_policies}
use mefs_sdk_go.Policy.Query.RoundTrip.Listing.{rules_of, get_policies-set_policy}
use mefs_sdk_go.Policy.Query.RoundTrip.{
  removed, get_policy-set_policy, set_policy-set_policy, remove_statements-set_policy,
}

abbrev bucket : Text
bucket = codes "b"

abbrev photos : Text
photos = codes "p/"

read_write_is_valid : is_valid_bucket_policy bucket_policy_read_write ≡ true
unfolding is_valid_bucket_policy text_eq
read_write_is_valid = refl

get_policy-set_policy_example :
    get_policy (set_policy [] bucket_policy_read_write bucket photos) bucket photos
    ≡ bucket_policy_read_write
get_policy-set_policy_example =
    get_policy-set_policy bucket_policy_read_write bucket photos read_write_is_valid (refl, tt)
      (ground arith)

set_policy-set_policy_example :
    set_policy
      (set_policy [] bucket_policy_read_write bucket photos)
      bucket_policy_read_only
      bucket
      photos
    ≡ set_policy [] bucket_policy_read_only bucket photos
set_policy-set_policy_example =
    set_policy-set_policy bucket_policy_read_write bucket photos read_write_is_valid (refl, tt)
      (ground arith) bucket_policy_read_only

abbrev get_object : StringSet
get_object = codes "s3:GetObject" ∷ []

abbrev put_object : StringSet
put_object = codes "s3:PutObject" ∷ []

abbrev of_photos : StringSet
of_photos = codes "arn:aws:s3:::b/p/*" ∷ []

abbrev of_music : StringSet
of_music = codes "arn:aws:s3:::b/m/*" ∷ []

abbrev statement : StringSet → StringSet → Statement
statement actions resources = record {
  actions = actions;
  conditions = none;
  effect = allow;
  principal = record { aws = star ∷ []; canonical_user = [] };
  resources = resources;
  sid = [];
}

reads_photos-IsStatement : IsStatement (statement get_object of_photos)
unfolding contains
reads_photos-IsStatement = record {
  actions = (refl, tt);
  principal = (refl, tt);
  resources = (refl, tt);
}

reads_music-IsStatement : IsStatement (statement get_object of_music)
unfolding contains
reads_music-IsStatement = record {
  actions = (refl, tt);
  principal = (refl, tt);
  resources = (refl, tt);
}

-- The two statements have the same actions, so that their resources are merged.
granted-append_statements_example :
    granted
      (append_statements (statement get_object of_photos ∷ []) (statement get_object of_music ∷ []))
      allow
      star
      (codes "s3:GetObject")
      (codes "arn:aws:s3:::b/m/*")
    ≡ (granted
          (statement get_object of_photos ∷ [])
          allow
          star
          (codes "s3:GetObject")
          (codes "arn:aws:s3:::b/m/*")
        || granted
            (statement get_object of_music ∷ [])
            allow
            star
            (codes "s3:GetObject")
            (codes "arn:aws:s3:::b/m/*"))
granted-append_statements_example =
    granted-append_statements allow star (codes "s3:GetObject") (codes "arn:aws:s3:::b/m/*")
      (statement get_object of_photos ∷ []) (statement get_object of_music ∷ [])
      (reads_photos-IsStatement, tt) (reads_music-IsStatement, tt)

abbrev of_other : StringSet
of_other = codes "arn:aws:s3:::c/*" ∷ []

abbrev two_buckets : List Statement
two_buckets = statement put_object of_other ∷ []

-- The statement of the other bucket with the listing under a condition.
abbrev lists_photos : List Statement
lists_photos =
    record (statement (codes "s3:ListBucket" ∷ []) (codes "arn:aws:s3:::b" ∷ [])) {
      conditions = some ((codes "StringLike", (codes "s3:prefix", photos ∷ []) ∷ []) ∷ []);
    }
    ∷ []

abbrev never_met : ConditionMap → Bool
never_met c = false

-- A removal that clears the conditions of a statement makes its other actions unconditional.
abbrev located : List Statement
located =
    two_buckets
    ++ record (statement (codes "s3:ListBucket" ∷ codes "s3:GetBucketLocation" ∷ [])
        (codes "arn:aws:s3:::b" ∷ [])) {
          conditions = some ((codes "StringEquals", (codes "s3:prefix", photos ∷ []) ∷ []) ∷ []);
        }
      ∷ []

location_widened :
    (permitted_when never_met located allow star
        (codes "s3:GetBucketLocation")
        (codes "arn:aws:s3:::b")
      ≡ false)
    × (permitted_when never_met
          (remove_statements located bucket photos)
          allow
          star
          (codes "s3:GetBucketLocation")
          (codes "arn:aws:s3:::b")
        ≡ true)
unfolding removed permitted_when permits applies has_prefix
location_widened = (refl, refl)

other_resource :
    (r : Text) → contains of_other r ≡ true → has_prefix r (resource_prefix_of bucket) ≡ false
unfolding contains has_prefix text_eq
other_resource r h = rw (← text_eq→eq (codes "arn:aws:s3:::c/*") r (ground arith)) refl

other-IsForeign : IsForeign bucket (statement put_object of_other)
unfolding removed contains
other-IsForeign = other_resources refl (λ r h. other_resource r h)

mem-remove_statements_example :
    Mem (statement put_object of_other) (remove_statements two_buckets bucket photos)
mem-remove_statements_example =
    mem-remove_statements bucket (statement put_object of_other) two_buckets photos other-IsForeign
      mem-cons_self

-- the resources of `reads_both` in the two orders
abbrev both : StringSet
both = codes "arn:aws:s3:::b/p/*" ∷ codes "arn:aws:s3:::b/m/*" ∷ []

abbrev both_reversed : StringSet
both_reversed = codes "arn:aws:s3:::b/m/*" ∷ codes "arn:aws:s3:::b/p/*" ∷ []

both_same : SameElements both both_reversed
unfolding contains
both_same x = ground arith

get_policy-Reordered_example :
    get_policy (statement get_object both ∷ []) bucket photos
    ≡ get_policy (statement get_object both_reversed ∷ []) bucket photos
get_policy-Reordered_example =
    get_policy-Reordered (statement get_object both ∷ []) (statement get_object both_reversed ∷ [])
      bucket photos (refl, both_same, tt)

-- `a*c` matches `abc`.
Glob-abc : Glob (codes "a*c") (codes "abc")
Glob-abc = literal refl (take refl (leave refl (literal refl finished)))

Glob-resource_match_example : resource_match (codes "a*c") (codes "abc") ≡ true
Glob-resource_match_example = Glob-resource_match Glob-abc

resource_match_overlap_example :
    (resource_match (codes "a" ++ (star ++ codes "a")) (codes "a") ≡ true)
    × ¬ Glob (codes "a" ++ (star ++ codes "a")) (codes "a")
resource_match_overlap_example = resource_match_overlap (codes "a") (refl, tt) (omega arith)

abbrev reads_p : ConditionMap
reads_p = (string_equals, (s3_prefix, codes "p" ∷ []) ∷ []) ∷ []

abbrev reads_m : ConditionMap
reads_m = (string_equals, (s3_prefix, codes "m" ∷ []) ∷ []) ∷ []

reads_p-IsConditionMap : IsConditionMap reads_p
unfolding lookup
reads_p-IsConditionMap = record { operators = (refl, tt); keys = λ op m h. ground arith }

reads_m-IsConditionMap : IsConditionMap reads_m
unfolding lookup
reads_m-IsConditionMap = record { operators = (refl, tt); keys = λ op m h. ground arith }

requires-merge_example :
    requires (merge_condition_map reads_p reads_m) string_equals s3_prefix (codes "m") ≡ (
      requires reads_p string_equals s3_prefix (codes "m")
      || requires reads_m string_equals s3_prefix (codes "m"))
requires-merge_example =
    requires-merge reads_p reads_m string_equals s3_prefix (codes "m") reads_p-IsConditionMap
      reads_m-IsConditionMap

remove_statements-set_policy_example :
    remove_statements (set_policy [] bucket_policy_read_write bucket photos) bucket photos ≡ []
remove_statements-set_policy_example =
    remove_statements-set_policy bucket_policy_read_write bucket photos read_write_is_valid
      (refl, tt) (ground arith)

get_policies-set_policy_example :
    get_policies (set_policy [] bucket_policy_read_write bucket photos) bucket photos
    ≡ rules_of bucket_policy_read_write bucket photos
get_policies-set_policy_example =
    get_policies-set_policy bucket_policy_read_write bucket photos read_write_is_valid (refl, tt)
      (ground arith)
