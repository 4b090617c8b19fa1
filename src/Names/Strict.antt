-- ===== src/Names/Strict.antt =====
-- pkg/s3utils/utils.go: the two checks of bucket names compared, and accepted names in URLs.
use mefs_sdk_go.Prelude.{ℕ, ◌≤◌, true, [], ◌∷◌, length, all, none, ◌≡◌, refl, arith, &&-true}
use mefs_sdk_go.Prelude.Text.{Text}
use mefs_sdk_go.Names.Encode.{
  is_alphanumeric, is_mark, is_unreserved, is_reserved_name, encode_path,
}
use mefs_sdk_go.Names.Check.{
  ends_with, matches_name, is_lower_alphanumeric, is_strict_inner, is_inner_byte, valid_bucket_name,
  valid_bucket_name_strict, check_bucket_name_common, check_valid_bucket_name,
  check_valid_bucket_name_strict,
}

lower_alphanumeric : (b : ℕ) → is_lower_alphanumeric b ≡ true → is_alphanumeric b ≡ true
unfolding is_lower_alphanumeric is_alphanumeric
lower_alphanumeric b h = ground arith

strict_inner : (b : ℕ) → is_strict_inner b ≡ true → is_inner_byte b ≡ true
unfolding is_strict_inner is_inner_byte is_lower_alphanumeric is_alphanumeric
strict_inner b h = ground arith

strict_unreserved : (b : ℕ) → is_strict_inner b ≡ true → is_unreserved b ≡ true
unfolding is_strict_inner is_unreserved is_lower_alphanumeric is_alphanumeric is_mark
strict_unreserved b h = ground arith

lower_unreserved : (b : ℕ) → is_lower_alphanumeric b ≡ true → is_unreserved b ≡ true
unfolding is_unreserved is_lower_alphanumeric is_alphanumeric
lower_unreserved b h = ground arith

ends_basic :
    (s : Text)
    → ends_with is_lower_alphanumeric is_strict_inner s ≡ true
    → ends_with is_alphanumeric is_inner_byte s ≡ true
unfolding ends_with
ends_basic [] h = h
ends_basic (b ∷ []) h = lower_alphanumeric b h
ends_basic (b ∷ c ∷ s) h =
    let (here, rest) = &&-true (is_strict_inner b) _ h in
    rw (strict_inner b here) (ends_basic (c ∷ s) rest)

ends_unreserved :
    (s : Text)
    → ends_with is_lower_alphanumeric is_strict_inner s ≡ true
    → all is_unreserved s ≡ true
unfolding ends_with
ends_unreserved [] h = refl
ends_unreserved (b ∷ []) h = rw (lower_unreserved b h) refl
ends_unreserved (b ∷ c ∷ s) h =
    let (here, rest) = &&-true (is_strict_inner b) _ h in
    rw (strict_unreserved b here) (ends_unreserved (c ∷ s) rest)

strict_basic : (s : Text) → valid_bucket_name_strict s ≡ true → valid_bucket_name s ≡ true
unfolding valid_bucket_name_strict valid_bucket_name matches_name
strict_basic [] h = h
strict_basic (b ∷ s) h = ground (arith, lower_alphanumeric b, ends_basic s)

strict_reserved : (s : Text) → valid_bucket_name_strict s ≡ true → is_reserved_name s ≡ true
unfolding valid_bucket_name_strict matches_name is_reserved_name
strict_reserved [] h = h
strict_reserved (b ∷ s) h = ground (arith, lower_unreserved b, ends_unreserved s)

strict_valid :
    (s : Text) → check_valid_bucket_name_strict s ≡ none → valid_bucket_name_strict s ≡ true
unfolding check_valid_bucket_name_strict check_bucket_name_common
strict_valid s h = ground arith

-- A bucket name that the strict check accepts is accepted by the other check too, has 3 to 63 bytes,
-- and is its own encoding in a URL.
pub check_valid_bucket_name_strict_accepts :
    (s : Text)
    → check_valid_bucket_name_strict s ≡ none
    → (check_valid_bucket_name s ≡ none) × (3 ≤ length s) × (length s ≤ 63) × (encode_path s ≡ s)
unfolding check_valid_bucket_name check_valid_bucket_name_strict check_bucket_name_common
    encode_path
check_valid_bucket_name_strict_accepts s h =
    let valid : valid_bucket_name_strict s ≡ true = strict_valid s h in
    let basic : valid_bucket_name s ≡ true = strict_basic s valid in
    let same : is_reserved_name s ≡ true = strict_reserved s valid in
    (ground arith, ground arith, ground arith, rw same refl)
