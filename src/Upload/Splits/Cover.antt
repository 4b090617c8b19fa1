-- ===== src/Upload/Splits/Cover.antt =====
-- api-compose-object.go: the splits of a source, their places and their sizes.
use native.Mathlib.Nat.{div-add-mod', mod-lt, le-div_iff_mul-le, div-le_of_le-mul}
use mefs_sdk_go.Prelude.{
  ℕ, zero, suc, ◌+◌, ◌-◌, ◌*◌, ◌/◌, ◌%◌, ◌≤◌, ◌<◌, ◌≡◌, refl, ap, false, some, List, [], ◌∷◌, arith,
  ltb, ◌==◌, length, if◌then◌else◌,
}
use mefs_sdk_go.Upload.Constants.{
  abs_min_part_size, max_part_size, max_parts_count, max_multipart_put_object_size,
}
use mefs_sdk_go.Upload.Splits.{
  max_copy_part_size, parts_required, current_part_size, split_loop, calculate_even_splits,
}

-- The parts lie end to end from `from` up to `to`, and each has `lo` or `lo + 1` bytes.
abbrev pub Tiles : ℕ → ℕ → ℕ → List (ℕ × ℕ) → Type 0
Tiles lo from to [] = from ≡ to
Tiles lo from to ((s, e) ∷ parts) =
    (s ≡ from) × (s + lo ≤ e + 1) × (e ≤ s + lo) × Tiles lo (e + 1) to parts

-- how many of the `left` parts from `j` on have one byte more
abbrev extra : ℕ → ℕ → ℕ → ℕ
extra rem zero j = 0
extra rem (suc left) j = (if ltb j rem then 1 else 0) + extra rem left (j + 1)

extra_lem : (rem left j : ℕ) → rem ≤ j + left → extra rem left j ≡ rem - j
extra_lem rem zero j h = omega arith
extra_lem rem (suc left) j h = ground (arith, extra_lem rem left (j + 1))

split_loop-Tiles :
    (quot rem left j next to : ℕ)
    → 0 < quot
    → next + left * quot + extra rem left j ≡ to
    → Tiles quot next to (split_loop quot rem left j next)
unfolding split_loop
split_loop-Tiles quot rem zero j next to h e = omega arith
split_loop-Tiles quot rem (suc left) j next to h e =
    let size = current_part_size quot rem j in
    let size_lem : size ≡ quot + (if ltb j rem then 1 else 0) =
      unfold current_part_size in ground arith in
    (
      refl,
      omega (arith, size_lem),
      ground (arith, size_lem),
      split_loop-Tiles quot rem left (j + 1) _ to h (omega (arith, size_lem)),
    )

length-split_loop : (quot rem left j next : ℕ) → length (split_loop quot rem left j next) ≡ left
unfolding split_loop
length-split_loop quot rem zero j next = refl
length-split_loop quot rem (suc left) j next = ap suc (length-split_loop quot rem left (j + 1) _)

-- `partsRequired` is the quotient rounded up.
pub parts_required_bounds :
    (size : ℕ)
    → 0 < size
    → (0 < parts_required size)
      × (size ≤ parts_required size * max_copy_part_size)
      × ((parts_required size - 1) * max_copy_part_size < size)
unfolding parts_required
parts_required_bounds size h = ground arith

not_empty : (n : ℕ) → (suc n == 0) ≡ false
not_empty n = ground arith

enough :
    (r size : ℕ)
    → 0 < r
    → (r - 1) * max_copy_part_size < size
    → abs_min_part_size ≤ size
    → abs_min_part_size * r ≤ size
enough zero size pos under large = absurd (omega arith)
enough (suc zero) size pos under large = omega arith
enough (suc (suc r)) size pos under large = omega arith

-- The splits of a source that is not empty and has a start are as many parts as `partsRequired` says; they lie end to end over the
-- `size` bytes from the start of the source on, and their sizes differ by one byte at most.
pub calculate_even_splits-Tiles :
    (size start : ℕ)
    → 0 < size
    → (length (calculate_even_splits size (some start)) ≡ parts_required size)
      × Tiles
          (size / parts_required size)
          start
          (start + size)
          (calculate_even_splits size (some start))
unfolding calculate_even_splits
calculate_even_splits-Tiles zero start h = absurd (omega arith)
calculate_even_splits-Tiles (suc n) start h =
    let r = parts_required (suc n) in
    let (pos, over, under) = parts_required_bounds (suc n) h in
    let some_bytes : 0 < suc n / r = (le-div_iff_mul-le pos).1 (omega arith) in
    let whole = div-add-mod' (suc n) r in
    let more = extra_lem (suc n % r) r 0 (omega (arith, mod-lt (suc n) pos)) in
    rw (not_empty n) (
      length-split_loop (suc n / r) (suc n % r) r 0 start,
      split_loop-Tiles (suc n / r) (suc n % r) r 0 start (start + suc n) some_bytes
          (omega (arith, whole, more)),
    )

-- For a source that is not empty and has at most 5 TiB there are at most 10000 parts, none larger
-- than 5 GiB, and none smaller than 5 MiB unless the source is.
pub calculate_even_splits_sizes :
    (size : ℕ)
    → 0 < size
    → size ≤ max_multipart_put_object_size
    → (parts_required size ≤ max_parts_count)
      × (size / parts_required size + 1 ≤ max_part_size)
      × (abs_min_part_size ≤ size → abs_min_part_size ≤ size / parts_required size)
calculate_even_splits_sizes size h hi =
    let (pos, over, under) = parts_required_bounds size h in
    let above : size / parts_required size ≤ max_copy_part_size =
      div-le_of_le-mul (parts_required size) over in
    (
      omega arith,
      omega arith,
      λ large. (le-div_iff_mul-le pos).1 (enough (parts_required size) size pos under large),
    )
