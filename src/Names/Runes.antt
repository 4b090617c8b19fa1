-- ===== src/Names/Runes.antt =====
-- Go's loop over the runes of a string, and the functions of `unicode/utf8` and `strings` that read
-- runes: a text is the list of its bytes, a rune is the list of the bytes that encode it.
use mefs_sdk_go.Prelude.{
  ℕ, zero, suc, ◌-◌, Bool, true, false, ◌&&◌, List, [], ◌∷◌, ◌++◌, ◌==◌, if◌then◌else◌, ltb, leb,
  take, length, any, all,
}
use mefs_sdk_go.Prelude.Text.{Text, text_eq}

abbrev pub between : ℕ → ℕ → ℕ → Bool
between lo b hi = leb lo b && leb b hi

-- the continuation bytes of a rune
unfoldable pub continues : ℕ → Text → Bool
continues zero s = true
continues (suc n) [] = false
continues (suc n) (b ∷ s) = between 0x80 b 0xBF && continues n s

-- the second byte is in the range, and `n` continuation bytes follow
unfoldable pub second : ℕ → ℕ → ℕ → Text → Bool
unfolding continues
second lo hi n [] = false
second lo hi n (b ∷ s) = between lo b hi && continues n s

-- the number of bytes of the rune that a text starts with; 0 where no rune is encoded
unfoldable pub rune_width : ℕ → Text → ℕ
unfolding second
rune_width a s =
    if ltb a 0x80
    then 1
    else if between 0xC2 a 0xDF
    then (if second 0x80 0xBF 0 s then 2 else 0)
    else if a == 0xE0
    then (if second 0xA0 0xBF 1 s then 3 else 0)
    else if a == 0xED
    then (if second 0x80 0x9F 1 s then 3 else 0)
    else if between 0xE1 a 0xEF
    then (if second 0x80 0xBF 1 s then 3 else 0)
    else if a == 0xF0
    then (if second 0x90 0xBF 2 s then 4 else 0)
    else if a == 0xF4
    then (if second 0x80 0x8F 2 s then 4 else 0)
    else if between 0xF1 a 0xF3
    then (if second 0x80 0xBF 2 s then 4 else 0)
    else 0

-- A rune with its bytes, or a byte that starts none, which Go reads as U+FFFD.
pub data Rune : Type 0 where
  valid : Text → Rune
  broken : ℕ → Rune

unfoldable pub rune_at : ℕ → ℕ → Text → Rune
rune_at zero a s = broken a
rune_at (suc n) a s = valid (a ∷ take n s)

-- `for _, r := range s`, after `k` more bytes of the rune before
unfoldable pub runes_after : ℕ → Text → List Rune
unfolding rune_width rune_at
runes_after k [] = []
runes_after (suc k) (a ∷ s) = runes_after k s
runes_after zero (a ∷ s) = let w = rune_width a s in rune_at w a s ∷ runes_after (w - 1) s

unfoldable pub runes : Text → List Rune
unfolding runes_after
runes s = runes_after 0 s

-- utf8.EncodeRune
unfoldable pub encoded_rune : Rune → Text
encoded_rune (valid t) = t
encoded_rune (broken b) = 0xEF ∷ 0xBF ∷ 0xBD ∷ []

-- the bytes of the string that the rune was read from
unfoldable pub raw_rune : Rune → Text
raw_rune (valid t) = t
raw_rune (broken b) = b ∷ []

abbrev pub is_valid_rune : Rune → Bool
is_valid_rune (valid t) = true
is_valid_rune (broken b) = false

-- utf8.ValidString
unfoldable pub valid_string : Text → Bool
unfolding runes
valid_string s = all is_valid_rune (runes s)

abbrev white_space : List Text
white_space =
    (9 ∷ [])
    ∷ (10 ∷ [])
    ∷ (11 ∷ [])
    ∷ (12 ∷ [])
    ∷ (13 ∷ [])
    ∷ (32 ∷ [])
    ∷ (0xC2 ∷ 0x85 ∷ [])
    ∷ (0xC2 ∷ 0xA0 ∷ [])
    ∷ (0xE1 ∷ 0x9A ∷ 0x80 ∷ [])
    ∷ (0xE2 ∷ 0x80 ∷ 0xA8 ∷ [])
    ∷ (0xE2 ∷ 0x80 ∷ 0xA9 ∷ [])
    ∷ (0xE2 ∷ 0x80 ∷ 0xAF ∷ [])
    ∷ (0xE2 ∷ 0x81 ∷ 0x9F ∷ [])
    ∷ (0xE3 ∷ 0x80 ∷ 0x80 ∷ [])
    ∷ []

-- U+2000 to U+200A
abbrev is_typographic_space : Text → Bool
is_typographic_space (a ∷ b ∷ c ∷ []) = a == 0xE2 && b == 0x80 && between 0x80 c 0x8A
is_typographic_space _ = false

-- unicode.IsSpace
unfoldable pub is_space : Rune → Bool
unfolding text_eq
is_space (valid t) = if any (text_eq t) white_space then true else is_typographic_space t
is_space (broken b) = false

unfoldable pub trim_left : List Rune → List Rune
unfolding is_space
trim_left [] = []
trim_left (r ∷ rs) = if is_space r then trim_left rs else r ∷ rs

-- a rune stays when it is no space or a rune that stays follows
unfoldable pub trim_right : List Rune → List Rune
unfolding is_space
trim_right [] = []
trim_right (r ∷ rs) =
    let rest = trim_right rs in if is_space r && length rest == 0 then [] else r ∷ rest

unfoldable pub joined : List Rune → Text
unfolding raw_rune
joined [] = []
joined (r ∷ rs) = raw_rune r ++ joined rs

-- strings.TrimSpace
unfoldable pub trim_space : Text → Text
unfolding joined trim_left trim_right runes
trim_space s = joined (trim_right (trim_left (runes s)))
