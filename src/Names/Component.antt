-- ===== src/Names/Component.antt =====
-- pkg/s3utils/utils.go: the keys and values that QueryEncode writes, as a reader of them sees them.
use mathlib.Core.List.{append_assoc}
use mefs_sdk_go.Prelude.{
  ℕ, Bool, true, false, not, ◌&&◌, List, [], ◌∷◌, ◌++◌, ◌==◌, if◌then◌else◌, ◌≡◌, refl, sym, ap,
  ◌∙◌, arith, all, All, Bool-cases, inl, inr, &&-true,
}
use mefs_sdk_go.Prelude.Text.{Text, codes}
use mefs_sdk_go.Names.Runes.{Rune, runes, encoded_rune, valid_string}
use mefs_sdk_go.Names.Encode.{
  is_unreserved, is_alphanumeric, is_mark, hex_digit, percent, percent_all, is_unreserved_rune,
  encode_runes, encode_path, percent_encode_slash, encode_component,
}
use mefs_sdk_go.Names.Decode.{
  IsByte, plain, decode, decode-percent, decode_unreserved, decode-percent_all, encoded_all,
  RuneBytes, RuneBytes-runes, valid_runes, encode_path-encode_runes,
}

-- the encoding of one rune in EncodePath, and in a key or a value
abbrev rune_code : Rune → Text
rune_code r =
    if is_unreserved_rune (encoded_rune r) then encoded_rune r else percent_all (encoded_rune r)

percent_encode_slash-append :
    (s t : Text) → percent_encode_slash (s ++ t) ≡ percent_encode_slash s ++ percent_encode_slash t
unfolding percent_encode_slash
percent_encode_slash-append [] t = refl
percent_encode_slash-append (b ∷ s) t =
    ap (λ r. (if b == 47 then codes "%2F" else b ∷ []) ++ r) (percent_encode_slash-append s t)
    ∙ sym (append_assoc (if b == 47 then codes "%2F" else b ∷ []) _ _)

no_slash : (s : Text) → all (λ b. not (b == 47)) s ≡ true → percent_encode_slash s ≡ s
unfolding percent_encode_slash
no_slash [] h = refl
no_slash (b ∷ s) h =
    let (here, rest) = &&-true (not (b == 47)) _ h in
    let apart : (b == 47) ≡ false = ground arith in rw apart (ap (λ t. b ∷ t) (no_slash s rest))

percent_all_no_slash : (u : Text) → all (λ b. not (b == 47)) (percent_all u) ≡ true
unfolding percent_all percent hex_digit
percent_all_no_slash [] = refl
percent_all_no_slash (b ∷ u) = ground (arith, percent_all_no_slash u)

slash_code : (t : Text) → decode plain (codes "%2F" ++ t) ≡ 47 ∷ decode plain t
unfolding percent hex_digit
slash_code t = decode-percent 47 t (omega arith)

decode-single :
    (u t : Text)
    → is_unreserved_rune u ≡ true
    → decode plain (percent_encode_slash u ++ t) ≡ u ++ decode plain t
unfolding is_unreserved_rune percent_encode_slash
decode-single [] t h = cc
decode-single (b ∷ c ∷ u) t h = cc
decode-single (b ∷ []) t h = elim (Bool-cases (b == 47)) [
  | inl e ↦
      let slash : b ≡ 47 = ground arith in
      rw e (slash_code t ∙ ap (λ n. n ∷ decode plain t) (sym slash))
  | inr f ↦ rw f (decode_unreserved b t h)
]

decode-rune :
    (u t : Text)
    → All IsByte u
    → decode plain (percent_encode_slash (if is_unreserved_rune u then u else percent_all u) ++ t)
      ≡ u ++ decode plain t
decode-rune u t h = elim (Bool-cases (is_unreserved_rune u)) [
  | inl e ↦ rw e (decode-single u t e)
  | inr f ↦ rw (f, no_slash (percent_all u) (percent_all_no_slash u)) (decode-percent_all u t h)
]

decode_component_runes :
    (rs : List Rune)
    → All RuneBytes rs
    → decode plain (percent_encode_slash (encode_runes rs)) ≡ encoded_all rs
unfolding encode_runes encoded_all percent_encode_slash decode
decode_component_runes [] h = refl
decode_component_runes (r ∷ rs) (here, rest) =
    ap (decode plain) (percent_encode_slash-append (rune_code r) (encode_runes rs))
    ∙ decode-rune (encoded_rune r) (percent_encode_slash (encode_runes rs)) here
    ∙ ap (λ t. encoded_rune r ++ t) (decode_component_runes rs rest)

-- A text of bytes that is valid UTF-8.
abbrev pub IsValidText : Text → Type 0
IsValidText s = All IsByte s × (valid_string s ≡ true)

pub decode-encode_component : (s : Text) → IsValidText s → decode plain (encode_component s) ≡ s
unfolding encode_component
decode-encode_component s (h, v) =
    ap (λ t. decode plain (percent_encode_slash t)) (encode_path-encode_runes s)
    ∙ decode_component_runes (runes s) (RuneBytes-runes s h)
    ∙ valid_runes s v

-- no `&`, no `=`
abbrev pub is_inner : ℕ → Bool
is_inner b = not (b == 38) && not (b == 61)

pub all-append : (p : ℕ → Bool) (s t : Text) → all p (s ++ t) ≡ (all p s && all p t)
all-append p [] t = refl
all-append p (b ∷ s) t = ground (arith, all-append p s t)

slash_inner : (s : Text) → all is_inner s ≡ true → all is_inner (percent_encode_slash s) ≡ true
unfolding percent_encode_slash
slash_inner [] h = refl
slash_inner (b ∷ s) h =
    let (here, rest) = &&-true (is_inner b) _ h in
    let later : all is_inner (percent_encode_slash s) ≡ true = slash_inner s rest in
    elim (Bool-cases (b == 47)) [ inl e ↦ rw e later | inr f ↦ rw f (rw here later) ]

percent_all_inner : (u : Text) → all is_inner (percent_all u) ≡ true
unfolding percent_all percent hex_digit
percent_all_inner [] = refl
percent_all_inner (b ∷ u) = ground (arith, percent_all_inner u)

single_inner : (u : Text) → is_unreserved_rune u ≡ true → all is_inner u ≡ true
unfolding is_unreserved_rune is_unreserved is_alphanumeric is_mark
single_inner [] h = cc
single_inner (b ∷ c ∷ u) h = cc
single_inner (b ∷ []) h = ground arith

rune_inner : (r : Rune) → all is_inner (rune_code r) ≡ true
rune_inner r = elim (Bool-cases (is_unreserved_rune (encoded_rune r))) [
  | inl e ↦ rw e (single_inner (encoded_rune r) e)
  | inr f ↦ rw f (percent_all_inner (encoded_rune r))
]

runes_inner : (rs : List Rune) → all is_inner (encode_runes rs) ≡ true
unfolding encode_runes
runes_inner [] = refl
runes_inner (r ∷ rs) =
    rw (all-append is_inner (rune_code r) (encode_runes rs), rune_inner r, runes_inner rs) refl

pub encode_component_inner : (s : Text) → all is_inner (encode_component s) ≡ true
unfolding encode_component
encode_component_inner s =
    slash_inner (encode_path s) (rw (encode_path-encode_runes s) (runes_inner (runes s)))
