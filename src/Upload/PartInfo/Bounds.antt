-- ===== src/Upload/PartInfo/Bounds.antt =====
-- api-put-object-common.go: the parts of `optimalPartInfo` and the bounds of S3.
use mefs_sdk_go.Prelude.{
  ℕ, suc, zero, ◌+◌, ◌-◌, ◌*◌, ◌/◌, ◌≤◌, ◌<◌, ◌≡◌, refl, ap, ◌∙◌, some, arith,
}
use native.Mathlib.Nat.{div-mul-le_self, lt-div-mul-add, lt_of_mul-lt-mul_right, div-eq_of_lt-le}
use native.Mathlib.Numerals.{sub-one}
use mefs_sdk_go.Upload.Constants.{
  abs_min_part_size, min_part_size, max_parts_count, max_part_size, max_multipart_put_object_size,
}
use mefs_sdk_go.Upload.PartInfo.{
  info, ceil_div, int64_exceeds, exceeds_int64, part_counts, configured_part_info,
  default_part_info, known_part_info, optimal_part_info,
}

-- The parts cover the object: all but the last have the part size, and the last is not empty and
-- no larger.
pub record Covers (object_size count part last : ℕ) : Type 0 where
  pub some_part : 0 < count
  pub total : (count - 1) * part + last ≡ object_size
  pub last_pos : 0 < last
  pub last_fits : last ≤ part

quotient_lem :
    (q a b : ℕ)
    → 0 < a
    → 0 < b
    → q * b ≤ a + (b - 1)
    → a + (b - 1) < q * b + b
    → (0 < q) × ((q - 1) * b < a) × (a ≤ q * b)
quotient_lem zero a b ha hb lo hi = absurd (omega arith)
quotient_lem (suc q) a b ha hb lo hi =
    let below : (suc q - 1) * b ≡ q * b = rw sub-one refl in
    (omega arith, omega (arith, below), omega arith)

-- ceil(a / b) counts the parts of size b that a needs.
pub ceil_div_lem :
    (a b : ℕ)
    → 0 < a
    → 0 < b
    → (0 < ceil_div a b) × ((ceil_div a b - 1) * b < a) × (a ≤ ceil_div a b * b)
ceil_div_lem a b ha hb =
    quotient_lem (ceil_div a b) a b ha hb (div-mul-le_self (a + (b - 1)) b)
      (lt-div-mul-add {a = a + (b - 1)} hb)

Covers-of_ceil :
    (a b q : ℕ) → (0 < q) × ((q - 1) * b < a) × (a ≤ q * b) → Covers a q b (a - (q - 1) * b)
Covers-of_ceil a b zero h = absurd (omega arith)
Covers-of_ceil a b (suc q) h = record {
  some_part = omega arith;
  total = omega arith;
  last_pos = omega arith;
  last_fits = let below : (suc q - 1) * b ≡ q * b = rw sub-one refl in omega (arith, below);
}

part_counts-Covers :
    (object_size part_size count part last : ℕ)
    → 0 < object_size
    → part_counts object_size part_size ≡ info count part last
    → Covers object_size count part last × (part ≡ part_size) × (0 < part_size)
unfolding part_counts
part_counts-Covers object_size zero count part last h e = cc
part_counts-Covers object_size (suc p) count part last h e = ground (
  arith,
  Covers-of_ceil object_size (suc p) (ceil_div object_size (suc p))
      (ceil_div_lem object_size (suc p) h (omega arith)),
)

-- A part size that the caller gives is taken exactly if S3 allows it and no more than 10000 parts
-- of it are needed.
configured_taken :
    (n c count part last : ℕ)
    → n ≤ max_multipart_put_object_size
    → configured_part_info n c ≡ info count part last
    → (abs_min_part_size ≤ c)
      × (c ≤ max_part_size)
      × (c ≤ n)
      × (n ≤ c * max_parts_count)
      × (part_counts n c ≡ info count part last)
unfolding configured_part_info int64_exceeds exceeds_int64
configured_taken n c count part last h e = ground arith

parts_bounded : (q b m : ℕ) → (q - 1) * b < b * m → q ≤ m
parts_bounded zero b m h = omega arith
parts_bounded (suc q) b m h =
    let below : (suc q - 1) * b ≡ q * b = rw sub-one refl in
    let less : q * b < m * b = omega (arith, below) in lt_of_mul-lt-mul_right b less

-- When `optimalPartInfo` answers for a part size that the caller gives and an object that is not
-- empty, the parts cover the object, there are at most 10000 of them, and each but the last has the
-- size given, which lies between 5 MiB and 5 GiB.
pub configured_part_info-Covers :
    (n c count part last : ℕ)
    → 0 < n
    → 0 < c
    → optimal_part_info (some n) c ≡ info count part last
    → Covers n count part last
      × (part ≡ c)
      × (count ≤ max_parts_count)
      × (abs_min_part_size ≤ c)
      × (c ≤ max_part_size)
unfolding optimal_part_info known_part_info
configured_part_info-Covers n c count part last hn hc e =
    let small : n ≤ max_multipart_put_object_size = ground arith in
    let taken : configured_part_info n c ≡ info count part last = ground arith in
    let (lo, hi, _, fits, counts) = configured_taken n c count part last small taken in
    let (covers, same, _) = part_counts-Covers n c count part last hn counts in
    (
      covers,
      same,
      parts_bounded count c max_parts_count (
          let total = covers.total in
          let last_pos = covers.last_pos in
          let total' : (count - 1) * c + last ≡ n = rw (← same) total in omega arith),
      lo,
      hi,
    )

-- The part size that the program chooses.
abbrev pub chosen : ℕ → ℕ
chosen n = ceil_div (n / max_parts_count) min_part_size * min_part_size

chosen_lem :
    (n : ℕ)
    → max_parts_count ≤ n
    → n ≤ max_multipart_put_object_size
    → (min_part_size ≤ chosen n)
      × (chosen n ≤ max_part_size)
      × (n < chosen n * max_parts_count + max_parts_count)
chosen_lem n lo hi = omega arith

part_counts_pos :
    (n p : ℕ) → 0 < p → part_counts n p ≡ info (ceil_div n p) p (n - (ceil_div n p - 1) * p)
unfolding part_counts
part_counts_pos n zero h = absurd (omega arith)
part_counts_pos n (suc p) h = ground arith

-- With the part size left open and an object of 10000 bytes to 5 TiB, `optimalPartInfo` answers:
-- the parts cover the object, the part size lies between 5 MiB and 5 GiB, and there are at most
-- 10001 parts.
pub default_part_info-Covers :
    (n : ℕ)
    → max_parts_count ≤ n
    → n ≤ max_multipart_put_object_size
    → (count : ℕ) × (part : ℕ) × (last : ℕ) × (optimal_part_info (some n) 0 ≡ info count part last)
      × Covers n count part last
      × (abs_min_part_size ≤ part)
      × (part ≤ max_part_size)
      × (count ≤ max_parts_count + 1)
unfolding optimal_part_info
default_part_info-Covers n lo hi =
    let p = chosen n in
    let q = ceil_div n p in
    let (above, below, near) = chosen_lem n lo hi in
    let counts = ceil_div_lem n p (omega arith) (omega arith) in
    let taken : known_part_info n 0 ≡ part_counts n p =
      unfold known_part_info default_part_info in ground arith in
    (
      q,
      p,
      n - (q - 1) * p,
      unfold known_part_info default_part_info in taken ∙ part_counts_pos n p (omega arith),
      Covers-of_ceil n p q counts,
      omega arith,
      below,
      parts_bounded q p (max_parts_count + 1) (omega arith),
    )

excess_parts : (b n r : ℕ) → n ≡ b * 10000 + r → 0 < r → r < b → ceil_div n b ≡ 10001
excess_parts b n r e pos small = div-eq_of_lt-le b (omega arith) (omega arith)

-- There are 10001 parts, one more than S3 allows, where the part size is left open and the object,
-- of at most 5 TiB, is larger than 10000 parts of k times 128 MiB by 1 to 9999 bytes, for a k of 1
-- or more.
pub default_part_info_excess :
    (k r : ℕ)
    → 0 < k
    → 0 < r
    → r < max_parts_count
    → k * (min_part_size * max_parts_count) + r ≤ max_multipart_put_object_size
    → optimal_part_info (some (k * (min_part_size * max_parts_count) + r)) 0
      ≡ info (max_parts_count + 1) (k * min_part_size) r
unfolding optimal_part_info
default_part_info_excess k r hk hr small hi =
    let n = k * (min_part_size * max_parts_count) + r in
    let part : chosen n ≡ k * min_part_size = omega arith in
    let taken : known_part_info n 0 ≡ part_counts n (chosen n) =
      unfold known_part_info default_part_info in ground arith in
    taken
    ∙ (ap (part_counts n) part
        ∙ (part_counts_pos n (k * min_part_size) (omega arith)
            ∙ rw (excess_parts (k * min_part_size) n r (omega arith) hr (omega arith))
                (ap (info 10001 (k * min_part_size)) (omega arith))))
