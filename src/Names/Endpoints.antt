-- ===== src/Names/Endpoints.antt =====
-- pkg/s3utils/utils.go: the tests of endpoint URLs; s3-endpoints.go: the endpoint of a location.
-- A URL is its scheme and its host, and whether its other fields have their zero values.
use mefs_sdk_go.Prelude.{
  ℕ, ◌+◌, ◌-◌, Bool, true, false, not, ◌&&◌, ◌||◌, List, [], ◌∷◌, ◌==◌, if◌then◌else◌, leb, length,
  any, all, drop, take, Option, none, some,
}
use mefs_sdk_go.Prelude.Text.{Text, codes, text_eq, has_prefix, has_suffix}
use mefs_sdk_go.Map.{Map, lookup}
use mefs_sdk_go.Names.Check.{contains_text}

pub record Url : Type 0 where
  pub scheme : Text
  pub host : Text
  pub rest_is_zero : Bool

-- `endpointURL == sentinelURL`
unfoldable pub is_sentinel : Url → Bool
is_sentinel u = length u.scheme == 0 && length u.host == 0 && u.rest_is_zero

abbrev is_no_newline : ℕ → Bool
is_no_newline b = not (b == 10)

-- what `(.*?)` matches between a prefix and a suffix that the expression anchors
unfoldable pub submatch : Text → Text → Text → Option Text
unfolding has_prefix has_suffix
submatch before after host =
    let middle = take (length host - length before - length after) (drop (length before) host) in
    if has_prefix host before
      && has_suffix host after
      && leb (length before + length after) (length host)
      && all is_no_newline middle
    then some middle
    else none

abbrev amazon : Text
amazon = codes ".amazonaws.com"

-- `amazonS3HostHyphen`
unfoldable pub amazon_s3_host_hyphen : Text → Option Text
unfolding submatch
amazon_s3_host_hyphen host = submatch (codes "s3-") amazon host

-- `amazonS3HostDualStack`
unfoldable pub amazon_s3_host_dual_stack : Text → Option Text
unfolding submatch
amazon_s3_host_dual_stack host = submatch (codes "s3.dualstack.") amazon host

-- `amazonS3HostDot`
unfoldable pub amazon_s3_host_dot : Text → Option Text
unfolding submatch
amazon_s3_host_dot host = submatch (codes "s3.") amazon host

-- `amazonS3ChinaHost`, whose group starts with `cn`
unfoldable pub amazon_s3_china_host : Text → Option Text
unfolding submatch has_prefix
amazon_s3_china_host host = elim (submatch (codes "s3.") (codes ".amazonaws.com.cn") host) [
  | none ↦ none
  | some middle ↦ if has_prefix middle (codes "cn") then some middle else none
]

unfoldable pub is_amazon_fips_gov_cloud_endpoint : Url → Bool
unfolding is_sentinel text_eq
is_amazon_fips_gov_cloud_endpoint u =
    if is_sentinel u
    then false
    else text_eq u.host (codes "s3-fips-us-gov-west-1.amazonaws.com")
      || text_eq u.host (codes "s3-fips.dualstack.us-gov-west-1.amazonaws.com")

unfoldable pub is_amazon_gov_cloud_endpoint : Url → Bool
unfolding is_amazon_fips_gov_cloud_endpoint
is_amazon_gov_cloud_endpoint u =
    if is_sentinel u
    then false
    else text_eq u.host (codes "s3-us-gov-west-1.amazonaws.com")
      || is_amazon_fips_gov_cloud_endpoint u

-- the expressions in the order of the code, up to the first that matches
unfoldable pub first_match : List (Option Text) → Text
first_match [] = []
first_match (none ∷ l) = first_match l
first_match (some region ∷ l) = region

unfoldable pub get_region_from_url : Url → Text
unfolding is_amazon_gov_cloud_endpoint first_match amazon_s3_host_dual_stack amazon_s3_host_hyphen
    amazon_s3_china_host amazon_s3_host_dot
get_region_from_url u =
    if is_sentinel u
    then []
    else if text_eq u.host (codes "s3-external-1.amazonaws.com")
    then []
    else if is_amazon_gov_cloud_endpoint u
    then codes "us-gov-west-1"
    else first_match (
        amazon_s3_host_dual_stack u.host
        ∷ amazon_s3_host_hyphen u.host
        ∷ amazon_s3_china_host u.host
        ∷ amazon_s3_host_dot u.host
        ∷ [])

unfoldable pub is_amazon_endpoint : Url → Bool
unfolding get_region_from_url
is_amazon_endpoint u =
    if text_eq u.host (codes "s3-external-1.amazonaws.com")
      || text_eq u.host (codes "s3.amazonaws.com")
    then true
    else not (length (get_region_from_url u) == 0)

abbrev fips_us_hosts : List Text
fips_us_hosts =
    codes "s3-fips.us-east-2.amazonaws.com"
    ∷ codes "s3-fips.dualstack.us-west-1.amazonaws.com"
    ∷ codes "s3-fips.dualstack.us-west-2.amazonaws.com"
    ∷ codes "s3-fips.dualstack.us-east-2.amazonaws.com"
    ∷ codes "s3-fips.dualstack.us-east-1.amazonaws.com"
    ∷ codes "s3-fips.us-west-1.amazonaws.com"
    ∷ codes "s3-fips.us-west-2.amazonaws.com"
    ∷ codes "s3-fips.us-east-1.amazonaws.com"
    ∷ []

unfoldable pub is_amazon_fips_us_east_west_endpoint : Url → Bool
unfolding is_sentinel text_eq
is_amazon_fips_us_east_west_endpoint u =
    if is_sentinel u then false else any (text_eq u.host) fips_us_hosts

unfoldable pub is_amazon_fips_endpoint : Url → Bool
unfolding is_amazon_fips_us_east_west_endpoint is_amazon_fips_gov_cloud_endpoint
is_amazon_fips_endpoint u =
    is_amazon_fips_us_east_west_endpoint u || is_amazon_fips_gov_cloud_endpoint u

unfoldable pub is_google_endpoint : Url → Bool
unfolding is_sentinel text_eq
is_google_endpoint u =
    if is_sentinel u then false else text_eq u.host (codes "storage.googleapis.com")

unfoldable pub is_virtual_host_supported : Url → Text → Bool
unfolding is_sentinel text_eq contains_text is_amazon_endpoint is_google_endpoint
is_virtual_host_supported u bucket_name =
    if is_sentinel u
    then false
    else if text_eq u.scheme (codes "https") && contains_text bucket_name (codes ".")
    then false
    else is_amazon_endpoint u || is_google_endpoint u

-- `awsS3EndpointMap`
abbrev pub aws_s3_endpoint_map : Map Text
aws_s3_endpoint_map =
    (codes "us-east-1", codes "s3.dualstack.us-east-1.amazonaws.com")
    ∷ (codes "us-east-2", codes "s3.dualstack.us-east-2.amazonaws.com")
    ∷ (codes "us-west-2", codes "s3.dualstack.us-west-2.amazonaws.com")
    ∷ (codes "us-west-1", codes "s3.dualstack.us-west-1.amazonaws.com")
    ∷ (codes "ca-central-1", codes "s3.dualstack.ca-central-1.amazonaws.com")
    ∷ (codes "eu-west-1", codes "s3.dualstack.eu-west-1.amazonaws.com")
    ∷ (codes "eu-west-2", codes "s3.dualstack.eu-west-2.amazonaws.com")
    ∷ (codes "eu-west-3", codes "s3.dualstack.eu-west-3.amazonaws.com")
    ∷ (codes "eu-central-1", codes "s3.dualstack.eu-central-1.amazonaws.com")
    ∷ (codes "eu-north-1", codes "s3.dualstack.eu-north-1.amazonaws.com")
    ∷ (codes "ap-east-1", codes "s3.dualstack.ap-east-1.amazonaws.com")
    ∷ (codes "ap-south-1", codes "s3.dualstack.ap-south-1.amazonaws.com")
    ∷ (codes "ap-southeast-1", codes "s3.dualstack.ap-southeast-1.amazonaws.com")
    ∷ (codes "ap-southeast-2", codes "s3.dualstack.ap-southeast-2.amazonaws.com")
    ∷ (codes "ap-northeast-1", codes "s3.dualstack.ap-northeast-1.amazonaws.com")
    ∷ (codes "ap-northeast-2", codes "s3.dualstack.ap-northeast-2.amazonaws.com")
    ∷ (codes "sa-east-1", codes "s3.dualstack.sa-east-1.amazonaws.com")
    ∷ (codes "us-gov-west-1", codes "s3.dualstack.us-gov-west-1.amazonaws.com")
    ∷ (codes "us-gov-east-1", codes "s3.dualstack.us-gov-east-1.amazonaws.com")
    ∷ (codes "cn-north-1", codes "s3.cn-north-1.amazonaws.com.cn")
    ∷ (codes "cn-northwest-1", codes "s3.cn-northwest-1.amazonaws.com.cn")
    ∷ []

unfoldable pub get_s3_endpoint : Text → Text
unfolding lookup
get_s3_endpoint bucket_location = elim (lookup aws_s3_endpoint_map bucket_location) [
  | none ↦ codes "s3.dualstack.us-east-1.amazonaws.com"
  | some s3_endpoint ↦ s3_endpoint
]
