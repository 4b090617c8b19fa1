-- ===== src/Upload/Splits.antt =====
-- api-compose-object.go: `partsRequired` and `calculateEvenSplits`.
-- Sizes and offsets are int64 that the callers have checked: not negative, and at most 5 TiB. The
-- start of a source without a range, which is -1 in the code, is `none`. Of an empty slice nothing
-- is read. The end of a part is the index of its last byte.
pub mod Cover
use mefs_sdk_go.Prelude.{
  ℕ, zero, suc, ◌+◌, ◌-◌, ◌*◌, ◌/◌, ◌%◌, Bool, Option, none, some, List, [], ◌∷◌, ltb, ◌==◌,
  if◌then◌else◌,
}
use mefs_sdk_go.Upload.Constants.{max_parts_count, max_multipart_put_object_size}

-- the local `maxPartSize` of `partsRequired`
abbrev pub max_copy_part_size : ℕ
max_copy_part_size = max_multipart_put_object_size / (max_parts_count - 1)

unfoldable pub parts_required : ℕ → ℕ
parts_required size =
    let r = size / max_copy_part_size in if ltb 0 (size % max_copy_part_size) then r + 1 else r

-- The size of part `j`: the first `rem` parts have one byte more.
unfoldable pub current_part_size : ℕ → ℕ → ℕ → ℕ
current_part_size quot rem j = if ltb j rem then quot + 1 else quot

-- the loop, with the parts left to make, `j` and `nextStart`; each part is its start and its end
unfoldable pub split_loop : ℕ → ℕ → ℕ → ℕ → ℕ → List (ℕ × ℕ)
split_loop quot rem zero j next_start = []
split_loop quot rem (suc left) j next_start =
    let c_end = next_start + current_part_size quot rem j - 1 in
    (next_start, c_end) ∷ split_loop quot rem left (j + 1) (c_end + 1)

unfoldable pub calculate_even_splits : ℕ → Option ℕ → List (ℕ × ℕ)
calculate_even_splits size src_start =
    if size == 0
    then []
    else (let req_parts = parts_required size in
        let start : ℕ = elim src_start [ none ↦ 0 | some s ↦ s ] in
        split_loop (size / req_parts) (size % req_parts) req_parts 0 start)
