-- ===== src/Tests/UploadRuns.antt =====
-- The arithmetic of uploads: runs and instances.
use mefs_sdk_go.Prelude.{ℕ, ◌+◌, ◌/◌, ◌≤◌, ◌≡◌, refl, none, some, [], ◌∷◌, arith, length}
use mefs_sdk_go.Upload.Constants.{abs_min_part_size, max_parts_count, max_part_size}
use mefs_sdk_go.Upload.PartInfo.{
  info, int64_exceeds, exceeds_int64, part_counts, configured_part_info, default_part_info,
  known_part_info, optimal_part_info,
}
use mefs_sdk_go.Upload.PartInfo.Bounds.{
  Covers, configured_part_info-Covers, default_part_info-Covers,
}
use mefs_sdk_go.Upload.Splits.{parts_required, current_part_size, split_loop, calculate_even_splits}
use mefs_sdk_go.Upload.Splits.Cover.{Tiles, calculate_even_splits-Tiles}

-- the repository's test: 5 TiB
five_tib : optimal_part_info none 0 ≡ info 8192 671088640 671088640
unfolding optimal_part_info known_part_info default_part_info part_counts
five_tib = refl

twelve_mib : optimal_part_info (some 12582912) 5242880 ≡ info 3 5242880 2097152
unfolding optimal_part_info known_part_info configured_part_info part_counts int64_exceeds
    exceeds_int64
twelve_mib = refl

configured_part_info-Covers_example :
    Covers 12582912 3 5242880 2097152
    × (◌≡◌ {A = ℕ} 5242880 5242880)
    × (3 ≤ max_parts_count)
    × (abs_min_part_size ≤ 5242880)
    × (5242880 ≤ max_part_size)
configured_part_info-Covers_example =
    configured_part_info-Covers 12582912 5242880 3 5242880 2097152 (omega arith) (omega arith)
      twelve_mib

default_part_info-Covers_example :
    (count : ℕ) × (part : ℕ) × (last : ℕ) × (optimal_part_info (some 500000000) 0
      ≡ info count part last)
    × Covers 500000000 count part last
    × (abs_min_part_size ≤ part)
    × (part ≤ max_part_size)
    × (count ≤ max_parts_count + 1)
default_part_info-Covers_example = default_part_info-Covers 500000000 (omega arith) (omega arith)

calculate_even_splits-Tiles_example :
    (length (calculate_even_splits 1000000000 (some 7)) ≡ parts_required 1000000000)
    × Tiles
        (1000000000 / parts_required 1000000000)
        7
        (7 + 1000000000)
        (calculate_even_splits 1000000000 (some 7))
calculate_even_splits-Tiles_example = calculate_even_splits-Tiles 1000000000 7 (omega arith)

two_parts :
    calculate_even_splits 1000000001 (some 7) ≡ (7, 500000007) ∷ (500000008, 1000000007) ∷ []
unfolding calculate_even_splits parts_required split_loop current_part_size
two_parts = refl
