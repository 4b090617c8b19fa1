-- ===== src/Names/Check.antt =====
-- pkg/s3utils/utils.go: the checks of domains, bucket names and object names.
-- A regular expression is a function that accepts the texts of its language; the expressions have
-- ASCII classes only, so that they are tests of bytes.
use mefs_sdk_go.Prelude.{
  ℕ, ◌-◌, Bool, true, false, not, ◌&&◌, ◌||◌, List, [], ◌∷◌, ◌==◌, if◌then◌else◌, ltb, length, any,
  all, drop, take, Option, none, some,
}
use mefs_sdk_go.Prelude.Text.{Text, codes, text_eq, index, split}
use mefs_sdk_go.Names.Runes.{between, trim_space, valid_string}
use mefs_sdk_go.Names.Encode.{is_alphanumeric}

pub data NameError : Type 0 where
  name_empty name_too_short name_too_long name_is_ip name_invalid name_not_utf8 : NameError

-- strings.Contains
unfoldable pub contains_text : Text → Text → Bool
unfolding index
contains_text s p = elim (index s p) [ none ↦ false | some i ↦ true ]

unfoldable pub is_digit : ℕ → Bool
is_digit b = between 48 b 57

-- `\d+`
unfoldable pub are_digits : Text → Bool
unfolding is_digit
are_digits [] = false
are_digits (b ∷ s) = all is_digit (b ∷ s)

-- `ipAddress`: four numbers between dots
unfoldable pub are_four_numbers : Text → List Text → Bool
unfolding are_digits
are_four_numbers a (b ∷ c ∷ d ∷ []) = are_digits a && are_digits b && are_digits c && are_digits d
are_four_numbers a _ = false

unfoldable pub is_ip_address : Text → Bool
unfolding are_four_numbers split
is_ip_address s = let (first, others) = split s 46 in are_four_numbers first others

-- one or more bytes, the last of one class and those before it of another
unfoldable pub ends_with : (ℕ → Bool) → (ℕ → Bool) → Text → Bool
ends_with edge inner [] = false
ends_with edge inner (b ∷ []) = edge b
ends_with edge inner (b ∷ c ∷ s) = inner b && ends_with edge inner (c ∷ s)

-- `^[edge][inner]{1,61}[edge]$`
unfoldable pub matches_name : (ℕ → Bool) → (ℕ → Bool) → Text → Bool
unfolding ends_with
matches_name edge inner [] = false
matches_name edge inner (b ∷ s) = edge b && between 2 (length s) 62 && ends_with edge inner s

-- `[a-z0-9]` and `[a-z0-9\.\-]`
unfoldable pub is_lower_alphanumeric : ℕ → Bool
is_lower_alphanumeric b = between 97 b 122 || between 48 b 57

unfoldable pub is_strict_inner : ℕ → Bool
unfolding is_lower_alphanumeric
is_strict_inner b = is_lower_alphanumeric b || b == 46 || b == 45

-- `[A-Za-z0-9\.\-\_\:]`
unfoldable pub is_inner_byte : ℕ → Bool
unfolding is_alphanumeric
is_inner_byte b = is_alphanumeric b || b == 46 || b == 45 || b == 95 || b == 58

unfoldable pub valid_bucket_name : Text → Bool
unfolding matches_name is_inner_byte
valid_bucket_name s = matches_name is_alphanumeric is_inner_byte s

unfoldable pub valid_bucket_name_strict : Text → Bool
unfolding matches_name is_strict_inner
valid_bucket_name_strict s = matches_name is_lower_alphanumeric is_strict_inner s

unfoldable pub has_bad_neighbours : Text → Bool
unfolding contains_text
has_bad_neighbours s =
    contains_text s (codes "..") || contains_text s (codes ".-") || contains_text s (codes "-.")

unfoldable pub check_bucket_name_common : Text → Bool → Option NameError
unfolding trim_space is_ip_address has_bad_neighbours valid_bucket_name valid_bucket_name_strict
check_bucket_name_common bucket_name strict =
    if length (trim_space bucket_name) == 0
    then some name_empty
    else if ltb (length bucket_name) 3
    then some name_too_short
    else if ltb 63 (length bucket_name)
    then some name_too_long
    else if is_ip_address bucket_name
    then some name_is_ip
    else if has_bad_neighbours bucket_name
    then some name_invalid
    else if strict
    then (if not (valid_bucket_name_strict bucket_name) then some name_invalid else none)
    else if not (valid_bucket_name bucket_name)
    then some name_invalid
    else none

unfoldable pub check_valid_bucket_name : Text → Option NameError
unfolding check_bucket_name_common
check_valid_bucket_name bucket_name = check_bucket_name_common bucket_name false

unfoldable pub check_valid_bucket_name_strict : Text → Option NameError
unfolding check_bucket_name_common
check_valid_bucket_name_strict bucket_name = check_bucket_name_common bucket_name true

unfoldable pub check_valid_object_name_prefix : Text → Option NameError
unfolding valid_string
check_valid_object_name_prefix object_name =
    if ltb 1024 (length object_name)
    then some name_too_long
    else if not (valid_string object_name)
    then some name_not_utf8
    else none

unfoldable pub check_valid_object_name : Text → Option NameError
unfolding trim_space check_valid_object_name_prefix
check_valid_object_name object_name =
    if length (trim_space object_name) == 0
    then some name_empty
    else check_valid_object_name_prefix object_name

-- the bytes that `ContainsAny` looks for
abbrev forbidden_in_domain : Text
forbidden_in_domain = codes "`~!@#$%^&*()+={}[]|\\\"';:><?/"

unfoldable pub is_edge : ℕ → Text → Bool
unfolding text_eq
is_edge b host = text_eq (drop (length host - 1) host) (b ∷ []) || text_eq (take 1 host) (b ∷ [])

unfoldable pub is_valid_domain : Text → Bool
unfolding trim_space is_edge text_eq
is_valid_domain s =
    let host = trim_space s in
    if length host == 0 || ltb 255 (length host)
    then false
    else if is_edge 45 host
    then false
    else if is_edge 95 host
    then false
    else if text_eq (take 1 host) (codes ".")
    then false
    else if any (λ b. any (λ c. b == c) forbidden_in_domain) host
    then false
    else true
