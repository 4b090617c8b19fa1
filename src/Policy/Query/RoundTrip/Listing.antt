-- ===== src/Policy/Query/RoundTrip/Listing.antt =====
-- pkg/policy/bucket-policy.go: `GetPolicies` after `SetPolicy`.
use mathlib.Core.List.{append_assoc}
use mefs_sdk_go.Prelude.{
  true, false, ◌≡◌, ◌≢◌, refl, List, [], ◌∷◌, ◌++◌, Bool-cases, ◌⊎◌, inl, inr, if◌then◌else◌,
}
use mefs_sdk_go.Prelude.Text.{Text, codes, text_eq, has_prefix}
use mefs_sdk_go.Prelude.Search.{has_prefix-append}
use mefs_sdk_go.Policy.Statement.{
  BucketPolicy, bucket_policy_none, is_valid_bucket_policy, bucket_policy_read_only,
  bucket_policy_read_write, bucket_policy_write_only, Statement, star, resource_prefix_of,
  object_resource_of,
}
use mefs_sdk_go.Policy.Query.{
  object_resources, object_resources_in, set_policy, get_policy, get_policies, policy_rules_loop,
}
use mefs_sdk_go.Policy.Query.RoundTrip.{
  tests, set_then_get, has_prefix-longer, by_policy, named_of, get_policy-set_policy,
}
use mefs_sdk_go.Policy.Query.Rules.{policy_rule-object_resource}
use mefs_sdk_go.Policy.Match.Complete.{HasNoAsterisk}
use mefs_sdk_go.Map.{Map, insert}

outside :
    (bucket_name prefix : Text)
    → has_prefix bucket_name ((bucket_name ++ codes "/") ++ prefix) ≡ false
outside bucket_name prefix = rw append_assoc (has_prefix-longer bucket_name b'/' prefix)

within :
    (bucket_name prefix : Text)
    → has_prefix
        ((bucket_name ++ codes "/") ++ (prefix ++ star))
        ((bucket_name ++ codes "/") ++ prefix)
      ≡ true
within bucket_name prefix =
    rw (← append_assoc (bucket_name ++ codes "/") prefix star)
      (has_prefix-append ((bucket_name ++ codes "/") ++ prefix) star)

module _ (bucket_name prefix : Text) (named : text_eq bucket_name [] ≡ false) where
  listed_write_only :
      (text_eq prefix [] ≡ true) ⊎ (text_eq prefix [] ≡ false)
      → object_resources
          (resource_prefix_of bucket_name ++ prefix)
          []
          (set_policy [] bucket_policy_write_only bucket_name prefix)
        ≡ object_resource_of bucket_name prefix ∷ []
  unfolding set_then_get object_resources object_resources_in has_prefix
  listed_write_only (inl h) = simp (tests, named, outside, within)
  listed_write_only (inr h) = simp (tests, named, outside, within)

  listed_read_only :
      (text_eq prefix [] ≡ true) ⊎ (text_eq prefix [] ≡ false)
      → object_resources
          (resource_prefix_of bucket_name ++ prefix)
          []
          (set_policy [] bucket_policy_read_only bucket_name prefix)
        ≡ object_resource_of bucket_name prefix ∷ []
  unfolding set_then_get object_resources object_resources_in has_prefix
  listed_read_only (inl h) = simp (tests, named, outside, within, h)
  listed_read_only (inr h) = simp (tests, named, outside, within, h)

  listed_read_write :
      (text_eq prefix [] ≡ true) ⊎ (text_eq prefix [] ≡ false)
      → object_resources
          (resource_prefix_of bucket_name ++ prefix)
          []
          (set_policy [] bucket_policy_read_write bucket_name prefix)
        ≡ object_resource_of bucket_name prefix ∷ []
  unfolding set_then_get object_resources object_resources_in has_prefix
  listed_read_write (inl h) = simp (tests, named, outside, within, h)
  listed_read_write (inr h) = simp (tests, named, outside, within, h)

-- the one resource found is the one rule
one_rule :
    (statements : List Statement) (policy : BucketPolicy) (bucket_name prefix : Text)
    → object_resources (resource_prefix_of bucket_name ++ prefix) [] statements
      ≡ object_resource_of bucket_name prefix ∷ []
    → get_policy statements bucket_name prefix ≡ policy
    → get_policies statements bucket_name prefix
      ≡ (bucket_name ++ (codes "/" ++ (prefix ++ star)), policy) ∷ []
unfolding get_policies policy_rules_loop insert
one_rule statements policy bucket_name prefix listed found =
    rw (listed, policy_rule-object_resource statements bucket_name prefix [], found) refl

-- The rules that are expected of a bucket with one policy under one prefix.
abbrev pub rules_of : BucketPolicy → Text → Text → Map BucketPolicy
rules_of policy bucket_name prefix =
    if text_eq policy bucket_policy_none
    then []
    else (bucket_name ++ (codes "/" ++ (prefix ++ star)), policy) ∷ []

-- On a bucket without statements, `GetPolicies` lists after `SetPolicy` the policy that was set under
-- the bucket's name and the prefix, alone, and nothing if it is the policy "none", for each of the
-- four policies and every prefix, where the bucket has a name without an asterisk.
pub get_policies-set_policy :
    (policy bucket_name prefix : Text)
    → is_valid_bucket_policy policy ≡ true
    → HasNoAsterisk bucket_name
    → bucket_name ≢ []
    → get_policies (set_policy [] policy bucket_name prefix) bucket_name prefix
      ≡ rules_of policy bucket_name prefix
unfolding text_eq is_valid_bucket_policy
get_policies-set_policy policy bucket_name prefix valid plain named =
    let n = named_of bucket_name named in
    let by_prefix = Bool-cases (text_eq prefix []) in
    by_policy
      (λ q.
        get_policies (set_policy [] q bucket_name prefix) bucket_name prefix
        ≡ rules_of q bucket_name prefix)
      policy valid (unfold set_then_get get_policies object_resources policy_rules_loop in refl)
      (one_rule _ bucket_policy_read_only bucket_name prefix
        (listed_read_only bucket_name prefix n by_prefix)
        (get_policy-set_policy bucket_policy_read_only bucket_name prefix refl plain named))
      (one_rule _ bucket_policy_read_write bucket_name prefix
        (listed_read_write bucket_name prefix n by_prefix)
        (get_policy-set_policy bucket_policy_read_write bucket_name prefix refl plain named))
      (one_rule _ bucket_policy_write_only bucket_name prefix
        (listed_write_only bucket_name prefix n by_prefix)
        (get_policy-set_policy bucket_policy_write_only bucket_name prefix refl plain named))
