-- ===== src/Tests/NameRuns.antt =====
-- pkg/s3utils/utils.go and s3-endpoints.go: runs and instances.
use mefs_sdk_go.Prelude.{◌≤◌, true, ◌≡◌, refl, List, [], ◌∷◌, none, some, All, arith, length}
use mefs_sdk_go.Prelude.Text.{Text, codes, text_eq, index, split, has_prefix}
use mefs_sdk_go.Map.{Map, lookup}
use mefs_sdk_go.Names.Runes.{
  continues, second, rune_width, rune_at, runes_after, runes, encoded_rune, raw_rune, valid_string,
  is_space, trim_left, trim_right, joined, trim_space,
}
use mefs_sdk_go.Names.Encode.{
  is_alphanumeric, is_mark, is_unreserved, is_reserved_name, hex_digit, percent, percent_all,
  is_unreserved_rune, encode_runes, encode_path, text_leb, insert_sorted, sort_strings, keys_of,
  values_of, query_encode,
}
use mefs_sdk_go.Names.Check.{
  name_empty, name_is_ip, check_valid_bucket_name, check_valid_bucket_name_strict,
  check_bucket_name_common, contains_text, is_digit, are_digits, are_four_numbers, is_ip_address,
  ends_with, matches_name, is_lower_alphanumeric, is_strict_inner, valid_bucket_name_strict,
  has_bad_neighbours, is_valid_domain, is_edge, check_valid_object_name,
}
use mefs_sdk_go.Names.Decode.{IsByte, plain, decode, decode-encode_path}
use mefs_sdk_go.Names.Query.{parse_query, pairs_of, HasValidTexts, parse_query-query_encode}
use mefs_sdk_go.Names.Strict.{check_valid_bucket_name_strict_accepts}
use mefs_sdk_go.Names.Endpoints.{get_region_from_url, is_amazon_endpoint, get_s3_endpoint}
use mefs_sdk_go.Names.Regions.{https_url, served_location, get_region_from_url-get_s3_endpoint}

-- `é ` in UTF-8
abbrev accented : Text
accented = 0xC3 ∷ 0xA9 ∷ 0x20 ∷ []

encoded : encode_path accented ≡ codes "%C3%A9%20"
unfolding encode_path is_reserved_name is_unreserved is_alphanumeric is_mark encode_runes
    encoded_rune is_unreserved_rune percent_all percent hex_digit runes runes_after rune_width
    rune_at second continues
encoded = refl

-- a byte that starts no rune
broken_encoded : encode_path (0xFF ∷ []) ≡ codes "%EF%BF%BD"
unfolding encode_path is_reserved_name is_unreserved is_alphanumeric is_mark encode_runes
    encoded_rune is_unreserved_rune percent_all percent hex_digit runes runes_after rune_width
    rune_at second continues
broken_encoded = refl

accented-bytes : All IsByte accented
accented-bytes = (omega arith, (omega arith, (omega arith, tt)))

accented-valid : valid_string accented ≡ true
unfolding valid_string runes runes_after rune_width rune_at second continues
accented-valid = refl

decode-encode_path_example : decode plain (encode_path accented) ≡ accented
decode-encode_path_example = decode-encode_path accented accented-bytes accented-valid

abbrev query : Map (List Text)
query = (codes "uploads", [] ∷ []) ∷ (codes "prefix", accented ∷ codes "a" ∷ []) ∷ []

sorted_keys : sort_strings (keys_of query) ≡ codes "prefix" ∷ codes "uploads" ∷ []
unfolding sort_strings insert_sorted text_leb keys_of
sorted_keys = refl

query-HasValidTexts : All (HasValidTexts query) (sort_strings (keys_of query))
unfolding sort_strings insert_sorted text_leb keys_of values_of lookup text_eq valid_string runes
    runes_after rune_width rune_at second continues
query-HasValidTexts = ground arith

parse_query-query_encode_example :
    parse_query (query_encode query) ≡ pairs_of query (sort_strings (keys_of query))
parse_query-query_encode_example = parse_query-query_encode query query-HasValidTexts

ip_refused : check_valid_bucket_name (codes "10.0.0.1") ≡ some name_is_ip
unfolding check_valid_bucket_name check_bucket_name_common is_ip_address are_four_numbers are_digits
    is_digit split trim_space joined trim_left trim_right raw_rune is_space text_eq runes
    runes_after rune_width rune_at
ip_refused = refl

my_bucket_accepted : check_valid_bucket_name_strict (codes "my-bucket.1") ≡ none
unfolding check_valid_bucket_name_strict check_bucket_name_common is_ip_address are_four_numbers
    are_digits is_digit split trim_space joined trim_left trim_right raw_rune is_space text_eq runes
    runes_after rune_width rune_at has_bad_neighbours contains_text index has_prefix
    valid_bucket_name_strict matches_name ends_with is_lower_alphanumeric is_strict_inner
my_bucket_accepted = refl

check_valid_bucket_name_strict_accepts_example :
    (check_valid_bucket_name (codes "my-bucket.1") ≡ none)
    × (3 ≤ length (codes "my-bucket.1"))
    × (length (codes "my-bucket.1") ≤ 63)
    × (encode_path (codes "my-bucket.1") ≡ codes "my-bucket.1")
check_valid_bucket_name_strict_accepts_example =
    check_valid_bucket_name_strict_accepts (codes "my-bucket.1") my_bucket_accepted

get_region_from_url-get_s3_endpoint_example :
    (get_region_from_url (https_url (get_s3_endpoint (codes "cn-north-1")))
      ≡ served_location (codes "cn-north-1"))
    × (is_amazon_endpoint (https_url (get_s3_endpoint (codes "cn-north-1"))) ≡ true)
get_region_from_url-get_s3_endpoint_example =
    get_region_from_url-get_s3_endpoint (codes "cn-north-1")

domain_accepted : is_valid_domain (codes " example.com ") ≡ true
unfolding is_valid_domain is_edge trim_space joined trim_left trim_right raw_rune is_space text_eq
    runes runes_after rune_width rune_at
domain_accepted = refl

blank_refused : check_valid_object_name (codes "  ") ≡ some name_empty
unfolding check_valid_object_name trim_space joined trim_left trim_right is_space text_eq runes
    runes_after rune_width rune_at
blank_refused = refl
