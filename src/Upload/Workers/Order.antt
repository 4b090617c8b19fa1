-- ===== src/Upload/Workers/Order.antt =====
-- api-put-object-streaming.go: sorting the parts puts their numbers in order.
use mefs_sdk_go.Prelude.{
  ℕ, zero, suc, ◌+◌, ◌≤◌, ◌<◌, List, [], ◌∷◌, ◌++◌, ◌==◌, ltb, leb, if◌then◌else◌, inl, inr, ◌≡◌,
  refl, arith, Bool-cases, All,
}
use mefs_sdk_go.Upload.Multipart.Session.{CompletePart}
use mefs_sdk_go.Upload.Multipart.Upload.{insert_part, sort_parts}

-- How often a number is in a list.
abbrev pub occurrences : ℕ → List ℕ → ℕ
occurrences p [] = 0
occurrences p (x ∷ l) = (if x == p then 1 else 0) + occurrences p l

pub occurrences-append :
    (p : ℕ) (l m : List ℕ) → occurrences p (l ++ m) ≡ occurrences p l + occurrences p m
occurrences-append p [] m = omega arith
occurrences-append p (x ∷ l) m = omega (arith, occurrences-append p l m)

abbrev pub part_numbers : List CompletePart → List ℕ
part_numbers [] = []
part_numbers (q ∷ l) = q.part_number ∷ part_numbers l

occurrences-insert :
    (p : ℕ) (q : CompletePart) (l : List CompletePart)
    → occurrences p (part_numbers (insert_part q l))
      ≡ occurrences p (q.part_number ∷ part_numbers l)
unfolding insert_part
occurrences-insert p q [] = refl
occurrences-insert p q (r ∷ l) = elim (Bool-cases (leb q.part_number r.part_number)) [
  | inl e ↦ rw e refl
  | inr f ↦ rw f (omega (arith, occurrences-insert p q l))
]

pub occurrences-sort_parts :
    (p : ℕ) (l : List CompletePart)
    → occurrences p (part_numbers (sort_parts l)) ≡ occurrences p (part_numbers l)
unfolding sort_parts
occurrences-sort_parts p [] = refl
occurrences-sort_parts p (q ∷ l) =
    omega (arith, occurrences-insert p q (sort_parts l), occurrences-sort_parts p l)

-- Each number is at most every later one.
abbrev pub IsAscending : List ℕ → Type 0
IsAscending [] = Unit
IsAscending (x ∷ l) = All (λ y. x ≤ y) l × IsAscending l

weaken-All : (x y : ℕ) (l : List ℕ) → x ≤ y → All (λ z. y ≤ z) l → All (λ z. x ≤ z) l
weaken-All x y [] h k = tt
weaken-All x y (z ∷ l) h (here, rest) = (omega arith, weaken-All x y l h rest)

insert-All :
    (x : ℕ) (q : CompletePart) (l : List CompletePart)
    → x ≤ q.part_number
    → All (λ y. x ≤ y) (part_numbers l)
    → All (λ y. x ≤ y) (part_numbers (insert_part q l))
unfolding insert_part
insert-All x q [] h k = (h, tt)
insert-All x q (r ∷ l) h (here, rest) = elim (Bool-cases (leb q.part_number r.part_number)) [
  | inl e ↦ rw e (h, (here, rest))
  | inr f ↦ rw f (here, insert-All x q l h rest)
]

insert_part-IsAscending :
    (q : CompletePart) (l : List CompletePart)
    → IsAscending (part_numbers l)
    → IsAscending (part_numbers (insert_part q l))
unfolding insert_part
insert_part-IsAscending q [] h = (tt, tt)
insert_part-IsAscending q (r ∷ l) (here, rest) =
    elim (Bool-cases (leb q.part_number r.part_number)) [
      | inl e ↦ rw e (
        (ground arith, weaken-All q.part_number r.part_number (part_numbers l) (ground arith) here),
        (here, rest),
      )
      | inr f ↦
          rw f (insert-All r.part_number q l (ground arith) here, insert_part-IsAscending q l rest)
    ]

pub sort_parts-IsAscending : (l : List CompletePart) → IsAscending (part_numbers (sort_parts l))
unfolding sort_parts
sort_parts-IsAscending [] = tt
sort_parts-IsAscending (q ∷ l) = insert_part-IsAscending q (sort_parts l) (sort_parts-IsAscending l)

-- The numbers from `k + 1` to `k + n`.
abbrev pub numbers_from : ℕ → ℕ → List ℕ
numbers_from k zero = []
numbers_from k (suc n) = (k + 1) ∷ numbers_from (k + 1) n

-- 1 for the numbers from `k + 1` to `k + n`, else 0.
abbrev pub once : ℕ → ℕ → ℕ → ℕ
once k n p = if ltb k p then (if leb p (k + n) then 1 else 0) else 0

least-All : (x p : ℕ) (l : List ℕ) → All (λ y. x ≤ y) l → 0 < occurrences p l → x ≤ p
least-All x p [] h k = absurd (omega arith)
least-All x p (y ∷ l) (here, rest) k = elim (Bool-cases (y == p)) [
  | inl e ↦ ground arith
  | inr f ↦ least-All x p l rest (ground arith)
]

-- A list in order that has each of the numbers once is the list of the numbers.
pub IsAscending-once :
    (n k : ℕ) (l : List ℕ)
    → IsAscending l
    → ((p : ℕ) → occurrences p l ≡ once k n p)
    → l ≡ numbers_from k n
IsAscending-once zero k [] a h = refl
IsAscending-once zero k (x ∷ l) a h = absurd (let e = h x in ground arith)
IsAscending-once (suc n) k [] a h = absurd (let e = h (k + 1) in ground arith)
IsAscending-once (suc n) k (x ∷ l) (least, rest) h =
    let below : x ≤ k + 1 =
      (let e = h (k + 1) in least-All x (k + 1) (x ∷ l) (omega arith, least) (ground arith)) in
    let first : x ≡ k + 1 = (let e = h x in ground arith) in
    let others : (p : ℕ) → occurrences p l ≡ once (k + 1) n p =
      λ p. (let e = h p in ground arith) in
    let tail : l ≡ numbers_from (k + 1) n = IsAscending-once n (k + 1) l rest others in
    rw (first, tail) refl
