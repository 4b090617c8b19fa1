-- ===== src/Policy/Query/Rules.antt =====
-- pkg/policy/bucket-policy.go: what a round of `GetPolicies` records.
use mathlib.Core.List.{append_assoc}
use mefs_sdk_go.Prelude.{
  ◌+◌, ◌-◌, ◌≡◌, refl, sym, ap, ◌∙◌, true, List, [], ◌∷◌, ◌++◌, arith, length, leb, take, drop,
  drop-append, length-append,
}
use mefs_sdk_go.Prelude.Text.{Text, codes, text_eq, has_suffix}
use mefs_sdk_go.Map.{Map, insert}
use mefs_sdk_go.Policy.Statement.{
  BucketPolicy, Statement, star, bucket_resource_of, resource_prefix_of, object_resource_of,
}
use mefs_sdk_go.Policy.Query.{split_asterisk, policy_rule, get_policy}

take-append : (xs ys : Text) → take (length xs) (xs ++ ys) ≡ xs
take-append [] ys = refl
take-append (x ∷ xs) ys = ap (◌∷◌ x) (take-append xs ys)

length-starred : (s : Text) → length (s ++ star) - 1 ≡ length s
length-starred s = let e = length-append s star in omega (arith, e)

split_asterisk-starred : (s : Text) → split_asterisk (s ++ star) ≡ (s, star)
unfolding split_asterisk has_suffix text_eq
split_asterisk-starred s =
    let long : leb 1 (length (s ++ star)) ≡ true =
      let e = length-append s star in ground (arith, e) in
    rw (long, length-starred s, drop-append s star, take-append s star) refl

policy_rule_lem :
    (statements : List Statement) (bucket_name prefix r path : Text) (rules : Map BucketPolicy)
    → split_asterisk r ≡ (path, star)
    → leb (length (bucket_resource_of bucket_name) + 1) (length path) ≡ true
    → drop (length (bucket_resource_of bucket_name) + 1) path ≡ prefix
    → policy_rule statements bucket_name rules r
      ≡ insert rules
          (bucket_name ++ (codes "/" ++ (prefix ++ star)))
          (get_policy statements bucket_name prefix)
unfolding policy_rule
policy_rule_lem statements bucket_name prefix r path rules e f g = rw (e, f, g) refl

-- `GetPolicies` records the objects under a prefix, which are the resource of the bucket's name, the
-- prefix and an asterisk, under that name and prefix, with the policy that `GetPolicy` finds for the
-- prefix.
pub policy_rule-object_resource :
    (statements : List Statement) (bucket_name prefix : Text) (rules : Map BucketPolicy)
    → policy_rule statements bucket_name rules (object_resource_of bucket_name prefix)
      ≡ insert rules
          (bucket_name ++ (codes "/" ++ (prefix ++ star)))
          (get_policy statements bucket_name prefix)
policy_rule-object_resource statements bucket_name prefix rules =
    let front = resource_prefix_of bucket_name in
    let path = front ++ prefix in
    let skipped : length front ≡ length (bucket_resource_of bucket_name) + 1 =
      length-append (bucket_resource_of bucket_name) (codes "/") in
    let whole = length-append front prefix in
    policy_rule_lem statements bucket_name prefix (object_resource_of bucket_name prefix) path rules
      (ap split_asterisk (sym (append_assoc front prefix star)) ∙ split_asterisk-starred path)
      (ground (arith, skipped, whole))
      (ap (λ n. drop n path) (sym skipped) ∙ drop-append front prefix)
