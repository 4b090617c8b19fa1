-- ===== src/Upload/PartInfo/Whole.antt =====
-- api-put-object-common.go: optimalPartInfo with either part size.
use mefs_sdk_go.Prelude.{ℕ, zero, suc, ◌≤◌, ◌<◌, some, ◌≡◌, sym, ap, ◌∙◌, arith}
use mefs_sdk_go.Upload.Constants.{max_parts_count, max_multipart_put_object_size}
use mefs_sdk_go.Upload.PartInfo.{
  info, refused, unspecified, optimal_part_info, known_part_info, default_part_info, part_counts,
}
use mefs_sdk_go.Upload.PartInfo.Bounds.{
  Covers, configured_part_info-Covers, default_part_info-Covers,
}

info-count : {c c' p p' l l' : ℕ} → info c p l ≡ info c' p' l' → c ≡ c'
info-count {c} e = ap (λ i. elim i [ info a b d ↦ a | refused r ↦ c | unspecified ↦ c ]) e

info-part : {c c' p p' l l' : ℕ} → info c p l ≡ info c' p' l' → p ≡ p'
info-part {p = p} e = ap (λ i. elim i [ info a b d ↦ b | refused r ↦ p | unspecified ↦ p ]) e

info-last : {c c' p p' l l' : ℕ} → info c p l ≡ info c' p' l' → l ≡ l'
info-last {l = l} e = ap (λ i. elim i [ info a b d ↦ d | refused r ↦ l | unspecified ↦ l ]) e

default_bounds :
    (n count part last : ℕ)
    → optimal_part_info (some n) 0 ≡ info count part last
    → (max_parts_count ≤ n) × (n ≤ max_multipart_put_object_size)
unfolding optimal_part_info known_part_info default_part_info part_counts
default_bounds n count part last e = ground arith

-- Whatever the part size is, the parts cover an object that is not empty.
pub optimal_part_info-Covers :
    (n c count part last : ℕ)
    → 0 < n
    → optimal_part_info (some n) c ≡ info count part last
    → Covers n count part last
optimal_part_info-Covers n zero count part last pos e =
    let (lo, hi) = default_bounds n count part last e in
    let (count', part', last', e', covers, few, lo', hi') = default_part_info-Covers n lo hi in
    let same = sym e ∙ e' in rw (info-count same, info-part same, info-last same) covers
optimal_part_info-Covers n (suc c) count part last pos e =
    (configured_part_info-Covers n (suc c) count part last pos (omega arith) e).0
