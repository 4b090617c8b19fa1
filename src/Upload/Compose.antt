-- ===== src/Upload/Compose.antt =====
-- api-compose-object.go: what `ComposeObjectWithProgress` decides: its checks of the sources, and
-- the copies that it asks for when no request fails. The sizes that the server reports are those of
-- 32-bit integers, which are not negative.
pub mod Copies
use mefs_sdk_go.Prelude.{
  ℕ, ◌+◌, ◌-◌, Bool, true, false, not, ◌&&◌, ◌||◌, ◌⊎◌, inl, inr, Option, none, some, List, [], ◌∷◌,
  ◌++◌, length, ltb, leb, ◌==◌, if◌then◌else◌,
}
use mefs_sdk_go.Upload.Constants.{
  abs_min_part_size, max_part_size, max_parts_count, max_multipart_put_object_size,
}
use mefs_sdk_go.Upload.Splits.{parts_required, calculate_even_splits}

-- A `SourceInfo` with what `getProps` returns for it: its size, or `none` for an error. A range has
-- 0 <= start <= end, as `SetRange` sees to.
pub record Source : Type 0 where
  pub size : Option ℕ
  pub is_encrypted : Bool
  pub range : Option (ℕ × ℕ)

pub data ComposeError : Type 0 where
  source_count : ComposeError
  no_props : ComposeError
  client_side_encryption : ComposeError
  invalid_segment : ComposeError
  too_small : ComposeError
  too_large : ComposeError
  too_many_parts : ComposeError

-- The result of the checks: an error, or `srcSizes`, `totalSize` and `totalParts`.
pub data Checked : Type 0 where
  refused : ComposeError → Checked
  checked : List ℕ → ℕ → ℕ → Checked

-- the size of the segment to copy; `none` when it does not lie within the object
unfoldable pub segment_size : Option (ℕ × ℕ) → ℕ → Option ℕ
segment_size none size = some size
segment_size (some (start, end')) size = if leb size end' then none else some (end' + 1 - start)

abbrev pub record_size : ℕ → Checked → Checked
record_size size (refused e) = refused e
record_size size (checked sizes total_size total_parts) =
    checked (size ∷ sizes) total_size total_parts

-- the checks of a segment: whether it is the last one, its size and the totals with it
unfoldable pub segment_error : Bool → ℕ → ℕ → ℕ → Option ComposeError
segment_error is_last size total_size total_parts =
    if ltb size abs_min_part_size && not is_last
    then some too_small
    else if ltb max_multipart_put_object_size total_size
    then some too_large
    else if ltb max_parts_count total_parts
    then some too_many_parts
    else none

abbrev pub is_nil : List Source → Bool
is_nil [] = true
is_nil (s ∷ ss) = false

-- what the loop makes of a source before the totals
unfoldable pub source_size : Bool → Source → ComposeError ⊎ ℕ
source_size many src = elim src.size [
  | none ↦ inl no_props
  | some whole ↦
      if many && src.is_encrypted
      then inl client_side_encryption
      else elim (segment_size src.range whole) [ none ↦ inl invalid_segment | some size ↦ inr size ]
]

-- the loop of checks, from the totals so far
unfoldable pub check_sources : List Source → Bool → ℕ → ℕ → Checked
check_sources [] many total_size total_parts = checked [] total_size total_parts
check_sources (src ∷ srcs) many total_size total_parts = elim (source_size many src) [
  | inl e ↦ refused e
  | inr size ↦
      let total_size' = total_size + size in
      let total_parts' = total_parts + parts_required size in
      let later = check_sources srcs many total_size' total_parts' in
      elim (segment_error (is_nil srcs) size total_size' total_parts') [
        | some e ↦ refused e
        | none ↦ record_size size later
      ]
]

-- A request to `uploadPartCopy`: the part number, the source and the range.
pub record PartCopy : Type 0 where
  pub part_index : ℕ
  pub source : ℕ
  pub start : ℕ
  pub end' : ℕ

-- the inner loop of copies
unfoldable pub copy_splits : List (ℕ × ℕ) → ℕ → ℕ → List PartCopy
copy_splits [] part_index i = []
copy_splits ((s, e) ∷ splits) part_index i =
    record { part_index = part_index; source = i; start = s; end' = e }
    ∷ copy_splits splits (part_index + 1) i

abbrev pub start_of : Option (ℕ × ℕ) → Option ℕ
start_of none = none
start_of (some (s, e)) = some s

-- the outer loop of copies
unfoldable pub copy_sources : List Source → List ℕ → ℕ → ℕ → List PartCopy
copy_sources [] sizes part_index i = []
copy_sources (src ∷ srcs) [] part_index i = []
copy_sources (src ∷ srcs) (size ∷ sizes) part_index i =
    let splits = calculate_even_splits size (start_of src.range) in
    copy_splits splits part_index i ++ copy_sources srcs sizes (part_index + length splits) (i + 1)

pub data Plan : Type 0 where
  refused_with : ComposeError → Plan
  copied_whole : Plan
  copied_parts : List PartCopy → Plan

abbrev pub first_is_whole : List Source → Bool
first_is_whole [] = false
first_is_whole (src ∷ srcs) = elim src.range [ none ↦ true | some r ↦ false ]

-- what follows the checks
unfoldable pub plan_of : List Source → Checked → Plan
plan_of srcs (refused e) = refused_with e
plan_of srcs (checked sizes total_size total_parts) =
    if (total_parts == 1 && first_is_whole srcs && leb total_size max_part_size) || total_size == 0
    then copied_whole
    else copied_parts (copy_sources srcs sizes 1 0)

unfoldable pub compose_object : List Source → Plan
compose_object srcs =
    if ltb (length srcs) 1 || ltb max_parts_count (length srcs)
    then refused_with source_count
    else plan_of srcs (check_sources srcs (ltb 1 (length srcs)) 0 0)
