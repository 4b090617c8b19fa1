-- ===== src/GetOptions/Ranges.antt =====
-- api-get-options.go: which ranges `SetRange` takes.
use mefs_sdk_go.Prelude.{true, ◌≡◌, ◌≢◌, ◌↔◌, ◌⊎◌, arith}
use mefs_sdk_go.Prelude.Int.{ℤ, pos, negsuc, ltb_ℤ}
use mefs_sdk_go.GetOptions.{Headers, invalid, set_range}

-- `SetRange` is an error exactly for a negative start, and for an end that is before the start,
-- unless it is a negative end at the start 0 or the end 0 at a positive start.
pub set_range_invalid_iff :
    (headers : Headers) (start end' : ℤ)
    → (set_range headers start end' ≡ invalid)
      ↔ (ltb_ℤ start (pos 0) ≡ true)
        ⊎ ((ltb_ℤ end' start ≡ true) × (ltb_ℤ (pos 0) start ≡ true) × (end' ≢ pos 0))
unfolding set_range
set_range_invalid_iff headers (pos s) (pos e) = ground arith
set_range_invalid_iff headers (pos s) (negsuc e) = ground arith
set_range_invalid_iff headers (negsuc s) (pos e) = ground arith
set_range_invalid_iff headers (negsuc s) (negsuc e) = ground arith
