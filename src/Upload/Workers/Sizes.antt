-- ===== src/Upload/Workers/Sizes.antt =====
-- api-put-object-streaming.go: the sizes of the parts that have all the numbers.
use mefs_sdk_go.Prelude.{
  ◌<◌, ℕ, zero, suc, ◌+◌, ◌-◌, ◌*◌, List, [], ◌∷◌, ◌++◌, leb, inl, inr, ◌≡◌, refl, ap, ◌∙◌, arith,
  Bool-cases,
}
use native.Mathlib.Nat.{suc-mul}
use mefs_sdk_go.Upload.PartInfo.Bounds.{Covers}
use mefs_sdk_go.Upload.Multipart.Session.{CompletePart}
use mefs_sdk_go.Upload.Multipart.Upload.{insert_part, sort_parts}
use mefs_sdk_go.Upload.Workers.{Job, size_of_part}
use mefs_sdk_go.Upload.Workers.Order.{
  occurrences, part_numbers, occurrences-sort_parts, sort_parts-IsAscending, numbers_from, once,
  IsAscending-once,
}

-- The sizes that parts with the numbers have.
abbrev pub sizes : Job → List ℕ → ℕ
sizes j [] = 0
sizes j (p ∷ l) = size_of_part j p + sizes j l

sizes-append : (j : Job) (l m : List ℕ) → sizes j (l ++ m) ≡ sizes j l + sizes j m
sizes-append j [] m = omega arith
sizes-append j (x ∷ l) m = omega (arith, sizes-append j l m)

sizes-insert_part :
    (j : Job) (q : CompletePart) (l : List CompletePart)
    → sizes j (part_numbers (insert_part q l)) ≡ sizes j (q.part_number ∷ part_numbers l)
unfolding insert_part
sizes-insert_part j q [] = refl
sizes-insert_part j q (r ∷ l) = elim (Bool-cases (leb q.part_number r.part_number)) [
  | inl e ↦ rw e refl
  | inr f ↦ rw f (omega (arith, sizes-insert_part j q l))
]

sizes-sort_parts :
    (j : Job) (l : List CompletePart)
    → sizes j (part_numbers (sort_parts l)) ≡ sizes j (part_numbers l)
unfolding sort_parts
sizes-sort_parts j [] = refl
sizes-sort_parts j (q ∷ l) =
    omega (arith, sizes-insert_part j q (sort_parts l), sizes-sort_parts j l)

-- The sizes of all the parts are the size of the object.
sizes-numbers_from :
    (j : Job) (n k : ℕ)
    → k + suc n ≡ j.total_parts_count
    → sizes j (numbers_from k (suc n)) ≡ n * j.part_size + j.last_part_size
unfolding size_of_part
sizes-numbers_from j zero k e = ground arith
sizes-numbers_from j (suc n) k e =
    let more = sizes-numbers_from j n (k + 1) (omega arith) in
    ground (arith, suc-mul n j.part_size, more)

sizes-all :
    (j : Job) (l : List ℕ)
    → Covers j.size j.total_parts_count j.part_size j.last_part_size
    → l ≡ numbers_from 0 j.total_parts_count
    → sizes j l ≡ j.size
sizes-all j l covers e =
    let some : suc (j.total_parts_count - 1) ≡ j.total_parts_count =
      omega (arith, covers.some_part) in
    let each = sizes-numbers_from j (j.total_parts_count - 1) 0 (omega (arith, some)) in
    omega (arith, each, ap (λ n. sizes j (numbers_from 0 n)) some, ap (sizes j) e, covers.total)

-- Parts that have the numbers.
abbrev pub numbered : List ℕ → List CompletePart
numbered [] = []
numbered (p ∷ l) = record { part_number = p; etag = [] } ∷ numbered l

pub part_numbers-numbered : (l : List ℕ) → part_numbers (numbered l) ≡ l
part_numbers-numbered [] = refl
part_numbers-numbered (p ∷ l) = ap (λ k. p ∷ k) (part_numbers-numbered l)

-- Parts that have each of the numbers once.
module _ (j : Job) (parts : List CompletePart) (l : List ℕ) (same : part_numbers parts ≡ l)
    (each : (p : ℕ) → occurrences p l ≡ once 0 j.total_parts_count p) where
  pub numbers_in_order : part_numbers (sort_parts parts) ≡ numbers_from 0 j.total_parts_count
  numbers_in_order =
      IsAscending-once j.total_parts_count 0 (part_numbers (sort_parts parts))
        (sort_parts-IsAscending parts)
        (λ p. occurrences-sort_parts p parts ∙ ap (occurrences p) same ∙ each p)

  pub sizes-once :
      Covers j.size j.total_parts_count j.part_size j.last_part_size → sizes j l ≡ j.size
  sizes-once covers = omega (
    arith,
    ap (sizes j) same,
    sizes-sort_parts j parts,
    sizes-all j (part_numbers (sort_parts parts)) covers numbers_in_order,
  )

pub size_of_part-pos :
    (j : Job) (p : ℕ)
    → Covers j.size j.total_parts_count j.part_size j.last_part_size
    → 0 < size_of_part j p
unfolding size_of_part
size_of_part-pos j p covers = ground (arith, covers.last_pos, covers.last_fits)
