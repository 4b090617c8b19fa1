-- ===== src/GetOptions.antt =====
-- api-get-options.go: the header options of a GET request.
-- The keys of the program's own calls are in canonical form, which `http.CanonicalHeaderKey` keeps.
pub mod Ranges
use mefs_sdk_go.Prelude.{
  ℕ, zero, suc, ◌+◌, ◌-◌, ◌*◌, ◌/◌, ◌%◌, ◌<◌, Bool, true, false, not, ◌&&◌, ◌||◌, Option, none,
  some, List, [], ◌∷◌, ◌++◌, ltb, leb, ◌==◌, if◌then◌else◌,
}
use mefs_sdk_go.Prelude.Int.{ℤ, pos, negsuc, ltb_ℤ}
use mefs_sdk_go.Prelude.Text.{Text, codes, text_eq}
use mefs_sdk_go.Map.{Map, insert, delete}

-- The field `headers`; a nil map is empty here.
abbrev pub Headers : Type 0
Headers = Map Text

unfoldable pub set_option : Headers → Text → Text → Headers
set_option headers key value = insert headers key value

-- The decimal digits of a number below 10 ^ fuel.
unfoldable pub decimal_digits : ℕ → ℕ → Text
decimal_digits zero n = []
decimal_digits (suc fuel) n =
    let higher = decimal_digits fuel (n / 10) in
    (if n / 10 == 0 then [] else higher) ++ (b'0' + n % 10) ∷ []

-- `%d` of an int64, which has 19 digits at most
unfoldable pub decimal : ℤ → Text
decimal (pos n) = decimal_digits 19 n
decimal (negsuc n) = b'-' ∷ decimal_digits 19 (suc n)

pub data SetRange : Type 0 where
  set_to : Headers → SetRange
  invalid : SetRange

unfoldable pub set_range : Headers → ℤ → ℤ → SetRange
set_range headers start end' =
    if not (ltb_ℤ start (pos 0)) && not (ltb_ℤ (pos 0) start) && ltb_ℤ end' (pos 0)
    then set_to (set_option headers (codes "Range") (codes "bytes=" ++ decimal end'))
    else if ltb_ℤ (pos 0) start && not (ltb_ℤ end' (pos 0)) && not (ltb_ℤ (pos 0) end')
    then set_to
        (set_option headers (codes "Range") (codes "bytes=" ++ (decimal start ++ codes "-")))
    else if not (ltb_ℤ start (pos 0)) && not (ltb_ℤ end' start)
    then set_to (
        set_option headers (codes "Range")
          (codes "bytes=" ++ (decimal start ++ (codes "-" ++ decimal end'))))
    else invalid

-- `SetMatchETag` and `SetMatchETagExcept`; `none` is the error for an empty tag
unfoldable pub set_match_etag : Headers → Text → Option Headers
set_match_etag headers etag =
    if text_eq etag []
    then none
    else some (set_option headers (codes "If-Match") (codes "\"" ++ (etag ++ codes "\"")))

unfoldable pub set_match_etag_except : Headers → Text → Option Headers
set_match_etag_except headers etag =
    if text_eq etag []
    then none
    else some (set_option headers (codes "If-None-Match") (codes "\"" ++ (etag ++ codes "\"")))
