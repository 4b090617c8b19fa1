-- ===== src/Names/Query.antt =====
-- pkg/s3utils/utils.go: what a reader of query strings makes of QueryEncode's result.
use mathlib.Core.List.{append_assoc}
use mefs_sdk_go.Prelude.{
  ℕ, Bool, true, false, not, List, [], ◌∷◌, ◌++◌, ◌==◌, ltb, ◌≡◌, refl, sym, ap, ◌∙◌, arith, all,
  All, length, Bool-cases, inl, inr, ==_refl, &&-true, map,
}
use mefs_sdk_go.Prelude.Text.{Text, codes, split}
use mefs_sdk_go.Map.{Map}
use mefs_sdk_go.Names.Encode.{
  encode_component, write_pair, write_values, write_keys, keys_of, values_of, sort_strings,
  query_encode,
}
use mefs_sdk_go.Names.Decode.{plain, decode}
use mefs_sdk_go.Names.Component.{
  IsValidText, decode-encode_component, encode_component_inner, is_inner, all-append,
}

-- All parts of a text between the separators.
abbrev parts : ℕ → Text → List Text
parts sep s = let (first, others) = split s sep in first ∷ others

split_whole : (sep : ℕ) (t : Text) → all (λ b. not (b == sep)) t ≡ true → split t sep ≡ (t, [])
unfolding split
split_whole sep [] h = refl
split_whole sep (b ∷ t) h =
    let (here, rest) = &&-true (not (b == sep)) _ h in
    let apart : (b == sep) ≡ false = ground arith in rw (split_whole sep t rest, apart) refl

split_sep :
    (sep : ℕ) (s t : Text)
    → split (s ++ sep ∷ t) sep ≡ ((split s sep).0, (split s sep).1 ++ parts sep t)
unfolding split
split_sep sep [] t = rw (==_refl sep) refl
split_sep sep (b ∷ s) t = elim (Bool-cases (b == sep)) [
  | inl e ↦ rw (e, split_sep sep s t) refl
  | inr f ↦ rw (f, split_sep sep s t) refl
]

-- The second part of a pair, up to another `=`.
abbrev first_of : List Text → Text
first_of [] = []
first_of (v ∷ vs) = v

-- A reader of one pair `key=value`.
unfoldable pub parse_pair : Text → Text × Text
parse_pair t = let (key, values) = split t 61 in (decode plain key, decode plain (first_of values))

-- A reader of query strings: the pairs between the `&`, of which an empty text has none.
unfoldable pub parse_query : Text → List (Text × Text)
unfolding parse_pair
parse_query [] = []
parse_query (b ∷ s) = map parse_pair (parts 38 (b ∷ s))

-- The pairs that a map has for a list of keys.
abbrev pub pairs : Text → List Text → List (Text × Text)
pairs k [] = []
pairs k (v ∷ vs) = (k, v) ∷ pairs k vs

abbrev pub pairs_of : Map (List Text) → List Text → List (Text × Text)
pairs_of m [] = []
pairs_of m (k ∷ keys) = pairs k (values_of m k) ++ pairs_of m keys

all_weaken :
    (p q : ℕ → Bool) (s : Text)
    → ((b : ℕ) → p b ≡ true → q b ≡ true)
    → all p s ≡ true
    → all q s ≡ true
all_weaken p q [] f h = refl
all_weaken p q (b ∷ s) f h =
    let (here, rest) = &&-true (p b) _ h in rw (f b here) (all_weaken p q s f rest)

without :
    (sep : ℕ) (s : Text)
    → ((b : ℕ) → is_inner b ≡ true → not (b == sep) ≡ true)
    → all (λ b. not (b == sep)) (encode_component s) ≡ true
without sep s f = all_weaken is_inner _ (encode_component s) f (encode_component_inner s)

without_and : (s : Text) → all (λ b. not (b == 38)) (encode_component s) ≡ true
without_and s = without 38 s (λ b h. ground arith)

without_equals : (s : Text) → all (λ b. not (b == 61)) (encode_component s) ≡ true
without_equals s = without 61 s (λ b h. ground arith)

abbrev written : Text → Text → Text
written k v = (encode_component k ++ codes "=") ++ encode_component v

written_clean : (k v : Text) → all (λ b. not (b == 38)) (written k v) ≡ true
written_clean k v =
    rw
      (
        all-append (λ b. not (b == 38)) (encode_component k ++ codes "=") (encode_component v),
        all-append (λ b. not (b == 38)) (encode_component k) (codes "="),
        without_and k,
        without_and v,
      )
      refl

written_parts : (k v : Text) → split (written k v) 38 ≡ (written k v, [])
written_parts k v = split_whole 38 (written k v) (written_clean k v)

parse_pair-written :
    (k v : Text) → IsValidText k → IsValidText v → parse_pair (written k v) ≡ (k, v)
unfolding parse_pair
parse_pair-written k v hk hv =
    let e : written k v ≡ encode_component k ++ 61 ∷ encode_component v =
      append_assoc (encode_component k) (codes "=") (encode_component v) in
    rw
      (
        e,
        split_sep 61 (encode_component k) (encode_component v),
        split_whole 61 (encode_component k) (without_equals k),
        split_whole 61 (encode_component v) (without_equals v),
        decode-encode_component k hk,
        decode-encode_component v hv,
      )
      refl

parse_nothing : parse_query [] ≡ []
unfolding parse_query
parse_nothing = refl

append_nil : {A : Type 0} (l : List A) → l ++ [] ≡ l
append_nil [] = refl
append_nil (x ∷ l) = ap (λ r. x ∷ r) (append_nil l)

parse_query-parts :
    (x : Text) (b : ℕ) (y : Text)
    → parse_query (x ++ b ∷ y) ≡ map parse_pair (parts 38 (x ++ b ∷ y))
unfolding parse_query
parse_query-parts [] b y = refl
parse_query-parts (a ∷ x) b y = refl

map-append : (l m : List Text) → map parse_pair (l ++ m) ≡ map parse_pair l ++ map parse_pair m
map-append [] m = refl
map-append (t ∷ l) m = ap (λ r. parse_pair t ∷ r) (map-append l m)

parse_query-append :
    (b : ℕ) (s t : Text)
    → all (λ c. not (c == 38)) t ≡ true
    → parse_query ((b ∷ s) ++ 38 ∷ t) ≡ parse_query (b ∷ s) ++ parse_pair t ∷ []
unfolding parse_query
parse_query-append b s t h =
    let e : parts 38 ((b ∷ s) ++ 38 ∷ t) ≡ parts 38 (b ∷ s) ++ t ∷ [] =
      rw (split_sep 38 (b ∷ s) t, split_whole 38 t h) refl in
    ap (map parse_pair) e ∙ map-append (parts 38 (b ∷ s)) (t ∷ [])

write_pair_later :
    (b : ℕ) (s prefix v : Text)
    → write_pair (b ∷ s) prefix v ≡ (b ∷ s) ++ 38 ∷ (prefix ++ encode_component v)
unfolding write_pair
write_pair_later b s prefix v =
    let longer : ltb 0 (length (b ∷ s)) ≡ true = ground arith in
    rw longer (append_assoc (b ∷ s) (codes "&") (prefix ++ encode_component v))

parse_query-write_pair :
    (buf k v : Text)
    → IsValidText k
    → IsValidText v
    → parse_query (write_pair buf (encode_component k ++ codes "=") v)
      ≡ parse_query buf ++ (k, v) ∷ []
unfolding write_pair
parse_query-write_pair [] k v hk hv =
    let e : written k v ≡ encode_component k ++ 61 ∷ encode_component v =
      append_assoc (encode_component k) (codes "=") (encode_component v) in
    ap parse_query e
    ∙ parse_query-parts (encode_component k) 61 (encode_component v)
    ∙ ap (λ t. map parse_pair (parts 38 t)) (sym e)
    ∙ ap (λ r. map parse_pair (r.0 ∷ r.1)) (written_parts k v)
    ∙ ap (λ r. r ∷ []) (parse_pair-written k v hk hv)
    ∙ ap (λ l. l ++ (k, v) ∷ []) (sym parse_nothing)
parse_query-write_pair (b ∷ s) k v hk hv =
    ap parse_query (write_pair_later b s (encode_component k ++ codes "=") v)
    ∙ parse_query-append b s (written k v) (written_clean k v)
    ∙ ap (λ r. parse_query (b ∷ s) ++ r ∷ []) (parse_pair-written k v hk hv)

parse_query-write_values :
    (buf k : Text) (vs : List Text)
    → IsValidText k
    → All IsValidText vs
    → parse_query (write_values buf (encode_component k ++ codes "=") vs)
      ≡ parse_query buf ++ pairs k vs
unfolding write_values
parse_query-write_values buf k [] hk hv = sym (append_nil (parse_query buf))
parse_query-write_values buf k (v ∷ vs) hk (here, rest) =
    parse_query-write_values (write_pair buf (encode_component k ++ codes "=") v) k vs hk rest
    ∙ ap (λ l. l ++ pairs k vs) (parse_query-write_pair buf k v hk here)
    ∙ append_assoc (parse_query buf) ((k, v) ∷ []) (pairs k vs)

-- The key and its values are valid UTF-8.
abbrev pub HasValidTexts : Map (List Text) → Text → Type 0
HasValidTexts m k = IsValidText k × All IsValidText (values_of m k)

parse_query-write_keys :
    (m : Map (List Text)) (buf : Text) (keys : List Text)
    → All (HasValidTexts m) keys
    → parse_query (write_keys m buf keys) ≡ parse_query buf ++ pairs_of m keys
unfolding write_keys
parse_query-write_keys m buf [] h = sym (append_nil (parse_query buf))
parse_query-write_keys m buf (k ∷ keys) ((hk, hv), rest) =
    let buf' = write_values buf (encode_component k ++ codes "=") (values_of m k) in
    parse_query-write_keys m buf' keys rest
    ∙ ap (λ l. l ++ pairs_of m keys) (parse_query-write_values buf k (values_of m k) hk hv)
    ∙ append_assoc (parse_query buf) (pairs k (values_of m k)) (pairs_of m keys)

-- A reader of query strings gets from QueryEncode's result every key with each of its values, in the
-- order of the sorted keys, when the keys and the values are valid UTF-8.
pub parse_query-query_encode :
    (m : Map (List Text))
    → All (HasValidTexts m) (sort_strings (keys_of m))
    → parse_query (query_encode m) ≡ pairs_of m (sort_strings (keys_of m))
unfolding query_encode
parse_query-query_encode m h =
    parse_query-write_keys m [] (sort_strings (keys_of m)) h
    ∙ ap (λ l. l ++ pairs_of m (sort_strings (keys_of m))) parse_nothing
