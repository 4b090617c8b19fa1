-- ===== src/Names/Decode.antt =====
-- pkg/s3utils/utils.go: what a reader of percent-encoded text makes of EncodePath's result.
use mefs_sdk_go.Prelude.{
  ℕ, zero, suc, ◌+◌, ◌*◌, ◌-◌, ◌/◌, ◌%◌, ◌<◌, true, false, List, [], ◌∷◌, ◌++◌, ◌==◌, if◌then◌else◌,
  ltb, ◌≡◌, refl, sym, ap, ◌∙◌, arith, all, All, take, drop, Bool-cases, inl, inr, &&-true,
}
use mefs_sdk_go.Prelude.Text.{Text}
use mefs_sdk_go.Names.Runes.{
  rune_width, rune_at, Rune, runes_after, runes, encoded_rune, is_valid_rune, valid_string,
}
use mefs_sdk_go.Names.Encode.{
  is_unreserved, is_alphanumeric, is_mark, is_reserved_name, hex_digit, percent, percent_all,
  is_unreserved_rune, encode_runes, encode_path,
}

abbrev pub IsByte : ℕ → Type 0
IsByte b = b < 256

-- What a reader waits for: a byte, the first digit after a `%`, or the second one.
pub data Pending : Type 0 where
  plain high : Pending
  low : ℕ → Pending

unfoldable pub hex_value : ℕ → ℕ
hex_value c = if ltb c 65 then c - 48 else c - 55

-- A reader of percent-encoded text.
unfoldable pub decode : Pending → Text → Text
unfolding hex_value
decode p [] = []
decode plain (b ∷ s) =
    let rest = decode (if b == 37 then high else plain) s in if b == 37 then rest else b ∷ rest
decode high (b ∷ s) = decode (low (hex_value b)) s
decode (low h) (b ∷ s) = (h * 16 + hex_value b) ∷ decode plain s

hex_value-hex_digit : (d : ℕ) → d < 16 → hex_value (hex_digit d) ≡ d
unfolding hex_value hex_digit
hex_value-hex_digit d h = ground arith

pub decode-percent :
    (b : ℕ) (t : Text) → IsByte b → decode plain (percent b ++ t) ≡ b ∷ decode plain t
unfolding decode percent
decode-percent b t h =
    let high_digit : hex_value (hex_digit (b / 16)) ≡ b / 16 =
      hex_value-hex_digit _ (omega arith) in
    let low_digit : hex_value (hex_digit (b % 16)) ≡ b % 16 = hex_value-hex_digit _ (omega arith) in
    let whole : b / 16 * 16 + b % 16 ≡ b = omega arith in rw (high_digit, low_digit, whole) refl

pub decode-percent_all :
    (u t : Text) → All IsByte u → decode plain (percent_all u ++ t) ≡ u ++ decode plain t
unfolding percent_all
decode-percent_all [] t h = refl
decode-percent_all (b ∷ u) t (here, rest) =
    decode-percent b (percent_all u ++ t) here ∙ ap (λ r. b ∷ r) (decode-percent_all u t rest)

pub decode_unreserved :
    (b : ℕ) (t : Text) → is_unreserved b ≡ true → decode plain (b ∷ t) ≡ b ∷ decode plain t
unfolding decode is_unreserved is_alphanumeric is_mark
decode_unreserved b t h = let apart : (b == 37) ≡ false = ground arith in rw apart refl

-- The bytes of the runes one after the other, those that Go reads as U+FFFD in its encoding.
unfoldable pub encoded_all : List Rune → Text
unfolding encoded_rune
encoded_all [] = []
encoded_all (r ∷ rs) = encoded_rune r ++ encoded_all rs

abbrev pub RuneBytes : Rune → Type 0
RuneBytes r = All IsByte (encoded_rune r)

decode-unreserved_rune :
    (u t : Text) → is_unreserved_rune u ≡ true → decode plain (u ++ t) ≡ u ++ decode plain t
unfolding is_unreserved_rune
decode-unreserved_rune [] t h = cc
decode-unreserved_rune (b ∷ []) t h = decode_unreserved b t h
decode-unreserved_rune (b ∷ c ∷ u) t h = cc

decode-encode_runes :
    (rs : List Rune) → All RuneBytes rs → decode plain (encode_runes rs) ≡ encoded_all rs
unfolding encode_runes encoded_all decode
decode-encode_runes [] h = refl
decode-encode_runes (r ∷ rs) (here, rest) =
    elim (Bool-cases (is_unreserved_rune (encoded_rune r))) [
      | inl e ↦ rw e (
          decode-unreserved_rune (encoded_rune r) (encode_runes rs) e
          ∙ ap (λ t. encoded_rune r ++ t) (decode-encode_runes rs rest))
      | inr f ↦ rw f (
          decode-percent_all (encoded_rune r) (encode_runes rs) here
          ∙ ap (λ t. encoded_rune r ++ t) (decode-encode_runes rs rest))
    ]

take-All : (n : ℕ) (s : Text) → All IsByte s → All IsByte (take n s)
take-All zero s h = tt
take-All (suc n) [] h = tt
take-All (suc n) (a ∷ s) (here, rest) = (here, take-All n s rest)

rune_at-bytes : (w a : ℕ) (s : Text) → IsByte a → All IsByte s → RuneBytes (rune_at w a s)
unfolding rune_at encoded_rune
rune_at-bytes zero a s h k = (omega arith, (omega arith, (omega arith, tt)))
rune_at-bytes (suc n) a s h k = (h, take-All n s k)

runes-bytes : (k : ℕ) (s : Text) → All IsByte s → All RuneBytes (runes_after k s)
unfolding runes_after
runes-bytes zero [] h = tt
runes-bytes (suc k) [] h = tt
runes-bytes (suc k) (a ∷ s) (here, rest) = runes-bytes k s rest
runes-bytes zero (a ∷ s) (here, rest) =
    (rune_at-bytes (rune_width a s) a s here rest, runes-bytes (rune_width a s - 1) s rest)

-- A byte that stays as it is makes a rune of its own.
unreserved_width : (a : ℕ) (s : Text) → is_unreserved a ≡ true → rune_width a s ≡ 1
unfolding is_unreserved is_alphanumeric is_mark rune_width
unreserved_width a s h = let small : ltb a 0x80 ≡ true = ground arith in rw small refl

encode_runes_same : (s : Text) → all is_unreserved s ≡ true → encode_runes (runes s) ≡ s
unfolding runes runes_after encode_runes encoded_rune is_unreserved_rune rune_at
encode_runes_same [] h = refl
encode_runes_same (a ∷ s) h =
    let (here, rest) = &&-true _ _ h in
    rw (unreserved_width a s here, here) (ap (λ t. a ∷ t) (encode_runes_same s rest))

-- The shortcut of EncodePath for names that need no encoding gives what its loop gives.
pub encode_path-encode_runes : (s : Text) → encode_path s ≡ encode_runes (runes s)
unfolding encode_path is_reserved_name
encode_path-encode_runes [] = refl
encode_path-encode_runes (a ∷ s) = elim (Bool-cases (all is_unreserved (a ∷ s))) [
  | inl e ↦ rw e (sym (encode_runes_same (a ∷ s) e))
  | inr f ↦ rw f refl
]

take-drop : (n : ℕ) (s : Text) → take n s ++ drop n s ≡ s
take-drop zero s = refl
take-drop (suc n) [] = refl
take-drop (suc n) (a ∷ s) = ap (λ t. a ∷ t) (take-drop n s)

rune_at_whole :
    (w a : ℕ) (s t : Text)
    → is_valid_rune (rune_at w a s) ≡ true
    → t ≡ drop (w - 1) s
    → encoded_rune (rune_at w a s) ++ t ≡ a ∷ s
unfolding rune_at encoded_rune
rune_at_whole zero a s t h e = cc
rune_at_whole (suc n) a s t h e =
    let less : suc n - 1 ≡ n = omega arith in
    ap (λ u. a ∷ u) (ap (λ u. take n s ++ u) (e ∙ ap (λ m. drop m s) less) ∙ take-drop n s)

encoded_all_valid :
    (k : ℕ) (s : Text)
    → all is_valid_rune (runes_after k s) ≡ true
    → encoded_all (runes_after k s) ≡ drop k s
unfolding runes_after encoded_all
encoded_all_valid zero [] h = refl
encoded_all_valid (suc k) [] h = refl
encoded_all_valid (suc k) (a ∷ s) h = encoded_all_valid k s h
encoded_all_valid zero (a ∷ s) h =
    let (here, rest) = &&-true _ _ h in
    rune_at_whole (rune_width a s) a s _ here (encoded_all_valid (rune_width a s - 1) s rest)

-- Reading an encoded path gives the runes of the name, where each byte that starts none has become
-- U+FFFD.
decode-encode_path-runes :
    (s : Text) → All IsByte s → decode plain (encode_path s) ≡ encoded_all (runes s)
unfolding runes
decode-encode_path-runes s h =
    ap (decode plain) (encode_path-encode_runes s)
    ∙ decode-encode_runes (runes s) (runes-bytes 0 s h)

pub valid_runes : (s : Text) → valid_string s ≡ true → encoded_all (runes s) ≡ s
unfolding runes valid_string
valid_runes s v = encoded_all_valid 0 s v

pub RuneBytes-runes : (s : Text) → All IsByte s → All RuneBytes (runes s)
unfolding runes
RuneBytes-runes s h = runes-bytes 0 s h

-- A reader of percent-encoded text gets every byte of a name that is valid UTF-8 back from EncodePath's
-- result.
pub decode-encode_path :
    (s : Text) → All IsByte s → valid_string s ≡ true → decode plain (encode_path s) ≡ s
decode-encode_path s h v = decode-encode_path-runes s h ∙ valid_runes s v
