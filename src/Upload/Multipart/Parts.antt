-- ===== src/Upload/Multipart/Parts.antt =====
-- api-put-object-multipart.go: the parts that are saved, collected and sorted.
use mefs_sdk_go.Prelude.{
  ℕ, suc, ◌+◌, ◌<◌, true, false, List, [], ◌∷◌, ◌++◌, ◌==◌, ==_refl, leb, length, some, inl, inr,
  ◌≡◌, refl, ap, ◌∙◌, arith, Bool-cases,
}
use mefs_sdk_go.Prelude.Text.{Text}
use mefs_sdk_go.Upload.Multipart.Session.{CompletePart, put_part, Log, trim_quotes}
use mefs_sdk_go.Upload.Multipart.Upload.{
  save_part, find_part, collect_parts, insert_part, sort_parts,
}

find_part-save_part :
    (m : List (ℕ × CompletePart)) (n : ℕ) (q : CompletePart)
    → find_part (save_part m n q) n ≡ some q
unfolding find_part save_part
find_part-save_part [] n q = rw (==_refl n) refl
find_part-save_part ((j, r) ∷ m) n q = elim (Bool-cases (j == n)) [
  | inl e ↦ rw (e, e) refl
  | inr f ↦ rw (f, f) (find_part-save_part m n q)
]

find_part_other :
    (m : List (ℕ × CompletePart)) (n i : ℕ) (q : CompletePart)
    → i < n
    → find_part (save_part m n q) i ≡ find_part m i
unfolding find_part save_part
find_part_other [] n i q h = let apart : (n == i) ≡ false = ground arith in rw apart refl
find_part_other ((j, r) ∷ m) n i q h = elim (Bool-cases (j == n)) [
  | inl e ↦ let apart : (j == i) ≡ false = ground arith in rw (e, apart) refl
  | inr f ↦ elim (Bool-cases (j == i)) [
    | inl here ↦ rw (f, here) refl
    | inr there ↦ rw (f, there) (find_part_other m n i q h)
  ]
]

-- The parts saved one after the other, from a number on.
abbrev pub save_all : List (ℕ × CompletePart) → ℕ → List CompletePart → List (ℕ × CompletePart)
save_all m n [] = m
save_all m n (q ∷ qs) = save_all (save_part m n q) (n + 1) qs

find_part-save_all :
    (m : List (ℕ × CompletePart)) (n i : ℕ) (qs : List CompletePart)
    → i < n
    → find_part (save_all m n qs) i ≡ find_part m i
find_part-save_all m n i [] h = refl
find_part-save_all m n i (q ∷ qs) h =
    find_part-save_all (save_part m n q) (n + 1) i qs (omega arith) ∙ find_part_other m n i q h

-- The loop that collects the parts finds those that were saved, in their order.
pub collect_parts-save_all :
    (m : List (ℕ × CompletePart)) (n : ℕ) (qs : List CompletePart)
    → collect_parts (save_all m n qs) n (length qs) ≡ inr qs
unfolding collect_parts
collect_parts-save_all m n [] = refl
collect_parts-save_all m n (q ∷ qs) =
    let found : find_part (save_all (save_part m n q) (n + 1) qs) n ≡ some q =
      find_part-save_all (save_part m n q) (n + 1) n qs (omega arith) ∙ find_part-save_part m n q in
    rw (found, collect_parts-save_all (save_part m n q) (n + 1) qs, collect_parts) refl

-- What the parts of a completion are, when the server answers with the tags.
abbrev pub completed_parts : (Log → Text) → Text → ℕ → Log → List Text → List CompletePart
completed_parts tag upload_id n log [] = []
completed_parts tag upload_id n log (b ∷ bs) =
    let log' = log ++ put_part upload_id n b ∷ [] in
    record { part_number = n; etag = trim_quotes (tag log') }
    ∷ completed_parts tag upload_id (n + 1) log' bs

pub length-completed_parts :
    (tag : Log → Text) (upload_id : Text) (n : ℕ) (log : Log) (bs : List Text)
    → length (completed_parts tag upload_id n log bs) ≡ length bs
length-completed_parts tag upload_id n log [] = refl
length-completed_parts tag upload_id n log (b ∷ bs) =
    ap suc (length-completed_parts tag upload_id (n + 1) _ bs)

-- They are sorted already.
pub sort_parts-completed_parts :
    (tag : Log → Text) (upload_id : Text) (n : ℕ) (log : Log) (bs : List Text)
    → sort_parts (completed_parts tag upload_id n log bs) ≡ completed_parts tag upload_id n log bs
unfolding sort_parts insert_part
sort_parts-completed_parts tag upload_id n log [] = refl
sort_parts-completed_parts tag upload_id n log (b ∷ []) = refl
sort_parts-completed_parts tag upload_id n log (b ∷ c ∷ bs) =
    let rest =
      sort_parts-completed_parts tag upload_id (n + 1) (log ++ put_part upload_id n b ∷ [])
        (c ∷ bs) in
    let less : leb n (n + 1) ≡ true = ground arith in rw (rest, less) refl
