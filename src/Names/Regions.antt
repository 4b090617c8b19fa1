-- ===== src/Names/Regions.antt =====
-- s3-endpoints.go and pkg/s3utils/utils.go: the region of the endpoint of a location.
use mefs_sdk_go.Prelude.{
  Bool, true, [], ◌∷◌, none, some, ◌≡◌, refl, Bool-cases, Option-cases, inl, inr, arith, ◌&&◌,
  &&-true, ◌&&◌, &&-true,
}
use mefs_sdk_go.Prelude.Text.{Text, codes, text_eq, text_eq→eq, has_prefix, has_suffix}
use mefs_sdk_go.Map.{Map, lookup}
use mefs_sdk_go.Names.Endpoints.{
  Url, is_sentinel, submatch, amazon_s3_host_hyphen, amazon_s3_host_dual_stack, amazon_s3_host_dot,
  amazon_s3_china_host, is_amazon_fips_gov_cloud_endpoint, is_amazon_gov_cloud_endpoint,
  first_match, get_region_from_url, is_amazon_endpoint, aws_s3_endpoint_map, get_s3_endpoint,
}

-- An https URL of a host, with nothing else in it.
abbrev pub https_url : Text → Url
https_url host = record { scheme = codes "https"; host = host; rest_is_zero = true }

-- The host is an endpoint whose region is the key.
abbrev is_endpoint_of : Text → Text → Bool
is_endpoint_of key host =
    text_eq (get_region_from_url (https_url host)) key && is_amazon_endpoint (https_url host)

abbrev all_entries : (Text → Text → Bool) → Map Text → Bool
all_entries p [] = true
all_entries p ((key, host) ∷ m) = p key host && all_entries p m

table_entries : all_entries is_endpoint_of aws_s3_endpoint_map ≡ true
unfolding get_region_from_url is_amazon_endpoint is_sentinel submatch amazon_s3_host_hyphen
    amazon_s3_host_dual_stack amazon_s3_host_dot amazon_s3_china_host
    is_amazon_fips_gov_cloud_endpoint is_amazon_gov_cloud_endpoint first_match text_eq has_prefix
    has_suffix
table_entries = refl

found_entry :
    (p : Text → Text → Bool) (m : Map Text) (k host : Text)
    → all_entries p m ≡ true
    → lookup m k ≡ some host
    → p k host ≡ true
unfolding lookup
found_entry p [] k host h e = cc
found_entry p ((j, v) ∷ m) k host h e = elim (Bool-cases (text_eq j k)) [
  | inl same ↦
      let key : j ≡ k = text_eq→eq j k same in
      let value : v ≡ host = ground arith in rw (← key, ← value) (&&-true (p j v) _ h).0
  | inr other ↦ found_entry p m k host (&&-true (p j v) _ h).1 (ground arith)
]

entry :
    (key host : Text)
    → is_endpoint_of key host ≡ true
    → (get_region_from_url (https_url host) ≡ key) × (is_amazon_endpoint (https_url host) ≡ true)
entry key host h =
    let (region, endpoint) = &&-true (text_eq (get_region_from_url (https_url host)) key) _ h in
    (text_eq→eq _ key region, endpoint)

first_entry :
    is_endpoint_of (codes "us-east-1") (codes "s3.dualstack.us-east-1.amazonaws.com") ≡ true
first_entry = (&&-true _ _ table_entries).0

-- The location that answers for another: itself where the map has an endpoint of it, `us-east-1` else.
abbrev pub served_location : Text → Text
served_location location = elim (lookup aws_s3_endpoint_map location) [
  | none ↦ codes "us-east-1"
  | some host ↦ location
]

-- The endpoint that is chosen for a location is an Amazon endpoint, and the region that the client reads
-- from its URL is the location where the map has it, and `us-east-1` for any other text.
pub get_region_from_url-get_s3_endpoint :
    (location : Text)
    → (get_region_from_url (https_url (get_s3_endpoint location)) ≡ served_location location)
      × (is_amazon_endpoint (https_url (get_s3_endpoint location)) ≡ true)
unfolding get_s3_endpoint text_eq
get_region_from_url-get_s3_endpoint location =
    elim (Option-cases (lookup aws_s3_endpoint_map location)) [
      | inl absent ↦
          rw absent
            (entry (codes "us-east-1") (codes "s3.dualstack.us-east-1.amazonaws.com") (first_entry))
      | inr (host, e) ↦ rw e (
          entry location host
            (found_entry is_endpoint_of aws_s3_endpoint_map location host table_entries e))
    ]
