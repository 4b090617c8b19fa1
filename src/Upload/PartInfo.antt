-- ===== src/Upload/PartInfo.antt =====
-- api-put-object-common.go: `optimalPartInfo`.
-- The object size is an int64 that is -1, which is `none` here, or not negative; the callers give
-- no other. The part size is a uint64. The quotients that the code takes in float64 are rounded up
-- exactly: both operands are integers below 2^53, the object is at most 5 TiB < 2^43, and a quotient
-- that is no integer is further from the next one than float64 rounds at that size.
pub mod Bounds
pub mod Whole
use mefs_sdk_go.Prelude.{
  ℕ, suc, ◌+◌, ◌-◌, ◌*◌, ◌/◌, ◌%◌, ◌^◌, Bool, true, false, ◌&&◌, ◌||◌, Option, none, some, ltb, leb,
  ◌==◌, if◌then◌else◌,
}
use mefs_sdk_go.Upload.Constants.{
  abs_min_part_size, min_part_size, max_parts_count, max_part_size, max_multipart_put_object_size,
}

pub data PartInfoError : Type 0 where
  entity_too_large : ℕ → ℕ → PartInfoError
  too_many_parts : PartInfoError
  part_too_small : PartInfoError
  part_too_big : PartInfoError

-- `unspecified` is a division of floats by 0, whose conversion to an integer Go leaves open.
pub data PartInfo : Type 0 where
  info : ℕ → ℕ → ℕ → PartInfo
  refused : PartInfoError → PartInfo
  unspecified : PartInfo

-- ceil(a / b), for a b that is not 0
abbrev pub ceil_div : ℕ → ℕ → ℕ
ceil_div a b = (a + (b - 1)) / b

-- `int64(w) > n` for a word w and an n that is not negative
unfoldable pub int64_exceeds : ℕ → ℕ → Bool
int64_exceeds w n = ltb w (2 ^ 63) && ltb n w

-- `n > int64(w)` likewise
unfoldable pub exceeds_int64 : ℕ → ℕ → Bool
exceeds_int64 n w = leb (2 ^ 63) w || ltb w n

-- the end of the function, from the part size on
unfoldable pub part_counts : ℕ → ℕ → PartInfo
part_counts object_size part_size =
    if part_size == 0
    then unspecified
    else let total_parts_count = ceil_div object_size part_size in
      info total_parts_count part_size (object_size - (total_parts_count - 1) * part_size)

-- the branch `configuredPartSize > 0`
unfoldable pub configured_part_info : ℕ → ℕ → PartInfo
configured_part_info object_size configured_part_size =
    if int64_exceeds configured_part_size object_size
    then refused (entity_too_large configured_part_size object_size)
    else if exceeds_int64 object_size ((configured_part_size * max_parts_count) % 2 ^ 64)
    then refused too_many_parts
    else if ltb configured_part_size abs_min_part_size
    then refused part_too_small
    else if ltb max_part_size configured_part_size
    then refused part_too_big
    else part_counts object_size configured_part_size

-- the branch in which the program chooses the part size
unfoldable pub default_part_info : ℕ → PartInfo
default_part_info object_size =
    part_counts object_size (ceil_div (object_size / max_parts_count) min_part_size * min_part_size)

unfoldable pub known_part_info : ℕ → ℕ → PartInfo
known_part_info object_size configured_part_size =
    if ltb max_multipart_put_object_size object_size
    then refused (entity_too_large object_size max_multipart_put_object_size)
    else if ltb 0 configured_part_size
    then configured_part_info object_size configured_part_size
    else default_part_info object_size

unfoldable pub optimal_part_info : Option ℕ → ℕ → PartInfo
optimal_part_info none configured_part_size =
    known_part_info max_multipart_put_object_size configured_part_size
optimal_part_info (some object_size) configured_part_size =
    known_part_info object_size configured_part_size
