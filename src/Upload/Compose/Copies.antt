-- ===== src/Upload/Compose/Copies.antt =====
-- api-compose-object.go: the copies that `ComposeObjectWithProgress` asks for.
use mefs_sdk_go.Prelude.{
  Sum-cases, ℕ, zero, suc, ◌+◌, ◌-◌, ◌≤◌, ◌≡◌, refl, ap, sym, subst, ◌∙◌, Bool, ◌&&◌, ◌||◌, inl,
  inr, Option, none, some, List, [], ◌∷◌, ◌++◌, arith, length, length-append, ltb, leb, ◌==◌,
  if_intro,
}
use mefs_sdk_go.Upload.Constants.{max_part_size, max_parts_count, max_multipart_put_object_size}
use mefs_sdk_go.Upload.Splits.{parts_required, calculate_even_splits}
use mefs_sdk_go.Upload.Splits.Cover.{Tiles, calculate_even_splits-Tiles}
use mefs_sdk_go.Upload.Compose.{
  Source, Checked, refused, checked, segment_size, record_size, segment_error, is_nil, source_size,
  check_sources, PartCopy, copy_splits, start_of, copy_sources, Plan, refused_with, copied_whole,
  copied_parts, first_is_whole, plan_of, compose_object, ComposeError,
}

abbrev sum : List ℕ → ℕ
sum [] = 0
sum (n ∷ ns) = n + sum ns

-- the parts that the segments need, and the bytes of ranges and of copies
abbrev parts_of : List ℕ → ℕ
parts_of [] = 0
parts_of (n ∷ ns) = parts_required n + parts_of ns

abbrev range_bytes : List (ℕ × ℕ) → ℕ
range_bytes [] = 0
range_bytes ((s, e) ∷ r) = (e + 1 - s) + range_bytes r

abbrev pub copied_bytes : List PartCopy → ℕ
copied_bytes [] = 0
copied_bytes (p ∷ ps) = (p.end' + 1 - p.start) + copied_bytes ps

-- The parts are numbered one after another from `n` on.
abbrev pub Numbered : ℕ → List PartCopy → Type 0
Numbered n [] = Unit
Numbered n (p ∷ ps) = (p.part_index ≡ n) × Numbered (n + 1) ps

Tiles-bytes :
    (lo from to : ℕ) (parts : List (ℕ × ℕ)) → Tiles lo from to parts → from + range_bytes parts ≡ to
Tiles-bytes lo from to [] h = omega (arith, h)
Tiles-bytes lo from to ((s, e) ∷ parts) (a, b, c, d) =
    let rest = Tiles-bytes lo (e + 1) to parts d in omega (arith, rest, a, b, c)

splits_lem :
    (size : ℕ) (start : Option ℕ)
    → (length (calculate_even_splits size start) ≡ parts_required size)
      × (range_bytes (calculate_even_splits size start) ≡ size)
splits_lem zero start = unfold calculate_even_splits parts_required in (omega arith, refl)
splits_lem (suc n) none =
    let (count, tiles) = calculate_even_splits-Tiles (suc n) 0 (omega arith) in
    let bytes = Tiles-bytes _ 0 _ _ tiles in
    unfold calculate_even_splits in (count, omega (arith, bytes))
splits_lem (suc n) (some s) =
    let (count, tiles) = calculate_even_splits-Tiles (suc n) s (omega arith) in
    let bytes = Tiles-bytes _ s _ _ tiles in (count, omega (arith, bytes))

copy_splits_lem :
    (splits : List (ℕ × ℕ)) (n i : ℕ)
    → (length (copy_splits splits n i) ≡ length splits)
      × (copied_bytes (copy_splits splits n i) ≡ range_bytes splits)
      × Numbered n (copy_splits splits n i)
unfolding copy_splits
copy_splits_lem [] n i = (refl, refl, tt)
copy_splits_lem ((s, e) ∷ splits) n i =
    let (count, bytes, order) = copy_splits_lem splits (n + 1) i in
    (ap suc count, ap (◌+◌ (e + 1 - s)) bytes, (refl, order))

copied_bytes-append :
    (ps qs : List PartCopy) → copied_bytes (ps ++ qs) ≡ copied_bytes ps + copied_bytes qs
copied_bytes-append [] qs = omega arith
copied_bytes-append (p ∷ ps) qs = omega (arith, copied_bytes-append ps qs)

Numbered-append :
    (ps qs : List PartCopy) (n : ℕ)
    → Numbered n ps
    → Numbered (n + length ps) qs
    → Numbered n (ps ++ qs)
Numbered-append [] qs n h k = let e : n + 0 ≡ n = omega arith in subst (λ m. Numbered m qs) e k
Numbered-append (p ∷ ps) qs n (h, hs) k =
    let e : n + suc (length ps) ≡ n + 1 + length ps = omega arith in
    (h, Numbered-append ps qs (n + 1) hs (subst (λ m. Numbered m qs) e k))

copy_sources_lem :
    (srcs : List Source) (sizes : List ℕ) (n i : ℕ)
    → length sizes ≡ length srcs
    → (length (copy_sources srcs sizes n i) ≡ parts_of sizes)
      × (copied_bytes (copy_sources srcs sizes n i) ≡ sum sizes)
      × Numbered n (copy_sources srcs sizes n i)
unfolding copy_sources
copy_sources_lem [] [] n i h = (refl, refl, tt)
copy_sources_lem [] (size ∷ sizes) n i h = absurd (omega (arith, h))
copy_sources_lem (src ∷ srcs) [] n i h = absurd (omega (arith, h))
copy_sources_lem (src ∷ srcs) (size ∷ sizes) n i h =
    let splits = calculate_even_splits size (start_of src.range) in
    let here = copy_splits splits n i in
    let later = copy_sources srcs sizes (n + length splits) (i + 1) in
    let (wanted, whole) = splits_lem size (start_of src.range) in
    let (count, bytes, order) = copy_splits_lem splits n i in
    let (counts, sums, orders) =
      copy_sources_lem srcs sizes (n + length splits) (i + 1) (omega (arith, h)) in
    (
      length-append here later ∙ omega (arith, wanted, count, counts),
      copied_bytes-append here later ∙ omega (arith, whole, bytes, sums),
      Numbered-append here later n order (subst (λ m. Numbered (n + m) later) (sym count) orders),
    )

-- The bytes that the sources are asked for: their ranges, or all of them.
abbrev pub wanted_of : Source → ℕ
wanted_of src = elim src.range [
  | none ↦ elim src.size [ none ↦ 0 | some n ↦ n ]
  | some r ↦ r.1 + 1 - r.0
]

abbrev pub wanted_bytes : List Source → ℕ
wanted_bytes [] = 0
wanted_bytes (src ∷ srcs) = wanted_of src + wanted_bytes srcs

-- What the checks say of the sizes that they record, from the totals so far.
abbrev Sums : List Source → ℕ → ℕ → Checked → Type 0
Sums srcs total_size total_parts (refused e) = Unit
Sums srcs total_size total_parts (checked sizes total_size' total_parts') =
    (length sizes ≡ length srcs)
    × (sum sizes ≡ wanted_bytes srcs)
    × (total_size' ≡ total_size + sum sizes)
    × (total_parts' ≡ total_parts + parts_of sizes)
    × (total_size' ≤ max_multipart_put_object_size)
    × (total_parts' ≤ max_parts_count)

sizes_lem :
    (many : Bool) (size : Option ℕ) (encrypted : Bool) (range : Option (ℕ × ℕ)) (n : ℕ)
    → source_size many (record { size = size; is_encrypted = encrypted; range = range }) ≡ inr n
    → n ≡ wanted_of (record { size = size; is_encrypted = encrypted; range = range })
unfolding source_size segment_size
sizes_lem many none encrypted range n h = cc
sizes_lem many (some whole) encrypted none n h = ground arith
sizes_lem many (some whole) encrypted (some r) n h = ground arith

segment_error_lem :
    (is_last : Bool) (size total_size total_parts : ℕ)
    → segment_error is_last size total_size total_parts ≡ none
    → (total_size ≤ max_multipart_put_object_size) × (total_parts ≤ max_parts_count)
unfolding segment_error
segment_error_lem is_last size total_size total_parts h = ground arith

step-Sums :
    (src : Source) (srcs : List Source) (total_size total_parts n : ℕ) (later : Checked)
    (e : Option ComposeError)
    → n ≡ wanted_of src
    → (e ≡ none → Sums srcs (total_size + n) (total_parts + parts_required n) later)
    → Sums
        (src ∷ srcs)
        total_size
        total_parts
        (elim e [ some e' ↦ refused e' | none ↦ record_size n later ])
step-Sums src srcs total_size total_parts n later (some e) w h = tt
step-Sums src srcs total_size total_parts n (refused e) none w h = tt
step-Sums src srcs total_size total_parts n (checked sizes ts tp) none w h =
    let (count, sums, size, parts, small, few) = h refl in
    (ap suc count, omega (arith, sums, w), omega (arith, size), omega (arith, parts), small, few)

check_sources-Sums :
    (srcs : List Source) (many : Bool) (total_size total_parts : ℕ)
    → total_size ≤ max_multipart_put_object_size
    → total_parts ≤ max_parts_count
    → Sums srcs total_size total_parts (check_sources srcs many total_size total_parts)
unfolding check_sources
check_sources-Sums [] many total_size total_parts small few =
    (refl, refl, omega arith, omega arith, small, few)
check_sources-Sums (src ∷ srcs) many total_size total_parts small few =
    elim (Sum-cases (source_size many src)) [
      | inl (e, h) ↦ rw (h, check_sources) tt
      | inr (n, h) ↦
          let later = check_sources srcs many (total_size + n) (total_parts + parts_required n) in
          let e = segment_error (is_nil srcs) n (total_size + n) (total_parts + parts_required n) in
          rw (h, check_sources)
            (step-Sums src srcs total_size total_parts n later e
              (sizes_lem many src.size src.is_encrypted src.range n h)
              (λ fine.
                let (small', few') = segment_error_lem (is_nil srcs) n _ _ fine in
                check_sources-Sums srcs many _ _ small' few'))
    ]

-- The copies of a plan, or none.
abbrev pub IsLaid : List Source → Plan → Type 0
IsLaid srcs (refused_with e) = Unit
IsLaid srcs copied_whole = wanted_bytes srcs ≤ max_part_size
IsLaid srcs (copied_parts ps) =
    Numbered 1 ps
    × (copied_bytes ps ≡ wanted_bytes srcs)
    × (length ps ≤ max_parts_count)
    × (wanted_bytes srcs ≤ max_multipart_put_object_size)

plan_of-IsLaid : (srcs : List Source) (c : Checked) → Sums srcs 0 0 c → IsLaid srcs (plan_of srcs c)
unfolding plan_of
plan_of-IsLaid srcs (refused e) h = tt
plan_of-IsLaid srcs (checked sizes total_size total_parts) h =
    let (count, sums, size, parts, small, few) = h in
    let (counts, bytes, order) = copy_sources_lem srcs sizes 1 0 count in
    if_intro (IsLaid srcs)
      ((total_parts == 1 && first_is_whole srcs && leb total_size max_part_size) || total_size == 0)
      _ _ (λ whole. ground (arith, sums, size))
      (λ split. (order, bytes ∙ sums, omega (arith, counts, parts), omega (arith, sums, size)))

-- Whatever the sources, the plan of `ComposeObjectWithProgress` is an error, a copy of at most 5 GiB
-- in one request, or copies of parts that are numbered from 1 on, of which there are at most 10000,
-- and which hold together as many bytes as the sources are asked for, at most 5 TiB.
pub compose_object-IsLaid : (srcs : List Source) → IsLaid srcs (compose_object srcs)
unfolding compose_object
compose_object-IsLaid srcs =
    if_intro (IsLaid srcs) (ltb (length srcs) 1 || ltb max_parts_count (length srcs)) _ _
      (λ wrong. tt)
      (λ right.
        plan_of-IsLaid srcs _
          (check_sources-Sums srcs (ltb 1 (length srcs)) 0 0 (omega arith) (omega arith)))
