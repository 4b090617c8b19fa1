-- ===== src/Names/Encode.antt =====
-- pkg/s3utils/utils.go: EncodePath, percentEncodeSlash and QueryEncode.
use mefs_sdk_go.Prelude.{
  ℕ, ◌+◌, ◌/◌, ◌%◌, Bool, true, false, ◌||◌, List, [], ◌∷◌, ◌++◌, ◌==◌, if◌then◌else◌, ltb, length,
  all, none, some,
}
use mefs_sdk_go.Prelude.Text.{Text, codes}
use mefs_sdk_go.Map.{Map, lookup}
use mefs_sdk_go.Names.Runes.{between, Rune, runes, encoded_rune}

-- the letters, the digits and the marks `-`, `_`, `.`, `~` and `/`
unfoldable pub is_alphanumeric : ℕ → Bool
is_alphanumeric b = between 65 b 90 || between 97 b 122 || between 48 b 57

unfoldable pub is_mark : ℕ → Bool
is_mark b = b == 45 || b == 95 || b == 46 || b == 126 || b == 47

unfoldable pub is_unreserved : ℕ → Bool
unfolding is_alphanumeric is_mark
is_unreserved b = is_alphanumeric b || is_mark b

-- `reservedObjectNames`: one or more of those bytes
unfoldable pub is_reserved_name : Text → Bool
unfolding is_unreserved
is_reserved_name [] = false
is_reserved_name (b ∷ s) = all is_unreserved (b ∷ s)

-- the upper-case digit of hex.EncodeToString and strings.ToUpper
unfoldable pub hex_digit : ℕ → ℕ
hex_digit d = if ltb d 10 then 48 + d else 55 + d

unfoldable pub percent : ℕ → Text
unfolding hex_digit
percent b = 37 ∷ hex_digit (b / 16) ∷ hex_digit (b % 16) ∷ []

-- the loop over the bytes of a rune
unfoldable pub percent_all : Text → Text
unfolding percent
percent_all [] = []
percent_all (b ∷ u) = percent b ++ percent_all u

-- the test of the rune and the `switch`
unfoldable pub is_unreserved_rune : Text → Bool
unfolding is_unreserved
is_unreserved_rune (b ∷ []) = is_unreserved b
is_unreserved_rune _ = false

-- the loop over the runes; `RuneLen` is negative for none of them
unfoldable pub encode_runes : List Rune → Text
unfolding is_unreserved_rune percent_all encoded_rune
encode_runes [] = []
encode_runes (r ∷ rs) =
    let u = encoded_rune r in (if is_unreserved_rune u then u else percent_all u) ++ encode_runes rs

unfoldable pub encode_path : Text → Text
unfolding is_reserved_name encode_runes runes
encode_path path_name =
    if is_reserved_name path_name then path_name else encode_runes (runes path_name)

-- strings.Replace of each slash
unfoldable pub percent_encode_slash : Text → Text
percent_encode_slash [] = []
percent_encode_slash (b ∷ s) = (if b == 47 then codes "%2F" else b ∷ []) ++ percent_encode_slash s

-- `<=` on strings
unfoldable pub text_leb : Text → Text → Bool
text_leb [] t = true
text_leb (a ∷ s) [] = false
text_leb (a ∷ s) (b ∷ t) = if a == b then text_leb s t else ltb a b

unfoldable pub insert_sorted : Text → List Text → List Text
unfolding text_leb
insert_sorted k [] = k ∷ []
insert_sorted k (j ∷ l) = if text_leb k j then k ∷ j ∷ l else j ∷ insert_sorted k l

-- sort.Strings
unfoldable pub sort_strings : List Text → List Text
unfolding insert_sorted
sort_strings [] = []
sort_strings (k ∷ l) = insert_sorted k (sort_strings l)

-- `for k := range v { keys = append(keys, k) }`
unfoldable pub keys_of : Map (List Text) → List Text
keys_of [] = []
keys_of ((k, vs) ∷ v) = k ∷ keys_of v

-- `v[k]`
unfoldable pub values_of : Map (List Text) → Text → List Text
unfolding lookup
values_of v k = elim (lookup v k) [ none ↦ [] | some vs ↦ vs ]

-- a key or a value in the query
unfoldable pub encode_component : Text → Text
unfolding percent_encode_slash encode_path
encode_component s = percent_encode_slash (encode_path s)

-- the body of the inner loop
unfoldable pub write_pair : Text → Text → Text → Text
unfolding encode_component
write_pair buf prefix value =
    (if ltb 0 (length buf) then buf ++ codes "&" else buf) ++ (prefix ++ encode_component value)

unfoldable pub write_values : Text → Text → List Text → Text
unfolding write_pair
write_values buf prefix [] = buf
write_values buf prefix (value ∷ vs) = write_values (write_pair buf prefix value) prefix vs

unfoldable pub write_keys : Map (List Text) → Text → List Text → Text
unfolding encode_component write_values values_of
write_keys v buf [] = buf
write_keys v buf (k ∷ keys) =
    write_keys v (write_values buf (encode_component k ++ codes "=") (values_of v k)) keys

-- A nil map is the empty one: both give the empty text.
unfoldable pub query_encode : Map (List Text) → Text
unfolding write_keys sort_strings keys_of
query_encode v = write_keys v [] (sort_strings (keys_of v))
