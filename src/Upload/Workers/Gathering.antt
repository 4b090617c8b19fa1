-- ===== src/Upload/Workers/Gathering.antt =====
-- api-put-object-streaming.go: what the loop that receives the results gathers from a run of the workers.
use mefs_sdk_go.Prelude.{
  ◌<◌, false, ◌==◌, ◌⊎◌, ℕ, zero, suc, ◌+◌, ◌-◌, ◌≤◌, List, [], ◌∷◌, ◌++◌, length, some, inl, inr,
  ◌≡◌, refl, sym, ap, ◌∙◌, arith, All, ==_refl,
}
use mefs_sdk_go.Upload.PartInfo.Bounds.{Covers}
use mefs_sdk_go.Upload.Multipart.Session.{
  CompletePart, Log, abort_multipart_upload, err_unexpected_eof,
}
use mefs_sdk_go.Upload.Multipart.Upload.{sort_parts, settle}
use mefs_sdk_go.Upload.Workers.{
  Job, size_of_part, UploadedPart, uploaded, failed, partless, Worker, WorkerState, gave_up,
  all_parts, waiting, gather, complete_upload, after_parts, finished,
}
use mefs_sdk_go.Upload.Workers.Order.{occurrences, part_numbers, numbers_from, once}
use mefs_sdk_go.Upload.Workers.Accounted.{WorkerRun-IsAccounted}
use mefs_sdk_go.Upload.Workers.Steps.{
  WorkerRun, result_numbers, numbers_of, IsOwn, IsAnswer, IsAccounted,
}
use mefs_sdk_go.Upload.Workers.Sizes.{
  sizes, numbered, part_numbers-numbered, numbers_in_order, sizes-once, size_of_part-pos,
}

part_numbers-append :
    (l m : List CompletePart) → part_numbers (l ++ m) ≡ part_numbers l ++ part_numbers m
part_numbers-append [] m = refl
part_numbers-append (q ∷ l) m = ap (λ k. q.part_number ∷ k) (part_numbers-append l m)

-- What is gathered from the results to what was gathered before.
record IsGathered (j : Job) (results : List UploadedPart) (total : ℕ) (parts : List CompletePart)
    (total' : ℕ) (parts' : List CompletePart) : Type 0 where
  pub all_numbers : part_numbers parts' ≡ part_numbers parts ++ result_numbers results
  pub all_sizes : total' ≡ total + sizes j (result_numbers results)

append_nil : (l : List ℕ) → l ≡ l ++ []
append_nil [] = refl
append_nil (x ∷ l) = ap (λ r. x ∷ r) (append_nil l)

append_one : (l m : List ℕ) (x : ℕ) → (l ++ x ∷ []) ++ m ≡ l ++ x ∷ m
append_one [] m x = refl
append_one (y ∷ l) m x = ap (λ r. y ∷ r) (append_one l m x)

all_parts-total : {t u : ℕ} {l m : List CompletePart} → all_parts t l ≡ all_parts u m → t ≡ u
all_parts-total {t} e = ap (λ g. elim g [ all_parts a b ↦ a | gave_up a b ↦ t | waiting ↦ t ]) e

all_parts-parts : {t u : ℕ} {l m : List CompletePart} → all_parts t l ≡ all_parts u m → l ≡ m
all_parts-parts {t} {u} {l} e =
    ap (λ g. elim g [ all_parts a b ↦ b | gave_up a b ↦ l | waiting ↦ l ]) e

-- The parts are gathered, or one is lost and the sizes are too small.
abbrev GatheredOr : Job → List UploadedPart → ℕ → List CompletePart → ℕ → List CompletePart → Type 0
GatheredOr j results total parts total' parts' =
    IsGathered j results total parts total' parts'
    ⊎ (total' < total + sizes j (result_numbers results))

-- One more part, which is gathered or lost.
GatheredOr-uploaded :
    (j : Job) (l : List UploadedPart) (p size : ℕ) (part : CompletePart) (total : ℕ)
    (parts : List CompletePart) (total' : ℕ) (parts' : List CompletePart)
    → 0 < size_of_part j p
    → IsOwn j p size part
    → GatheredOr j l (total + size) (parts ++ part ∷ []) total' parts'
    → GatheredOr j (uploaded p size part ∷ l) total parts total' parts'
GatheredOr-uploaded j l p size part total parts total' parts' pos (inl (named, sized)) (inl more) =
    inl (record {
      all_numbers =
          more.all_numbers
          ∙ ap (λ m. m ++ result_numbers l) (part_numbers-append parts (part ∷ []))
          ∙ append_one (part_numbers parts) (result_numbers l) part.part_number
          ∙ ap (λ x. part_numbers parts ++ x ∷ result_numbers l) named;
      all_sizes = omega (arith, more.all_sizes, sized);
    })
GatheredOr-uploaded j l p size part total parts total' parts' pos (inl (named, sized)) (inr less) =
    inr (omega (arith, sized))
GatheredOr-uploaded j l p size part total parts total' parts' pos (inr lost) (inl more) =
    inr (omega (arith, more.all_sizes))
GatheredOr-uploaded j l p size part total parts total' parts' pos (inr lost) (inr less) =
    inr (omega arith)

gather-GatheredOr :
    (j : Job) (n : ℕ) (results : List UploadedPart) (total : ℕ) (parts : List CompletePart)
    (total' : ℕ) (parts' : List CompletePart)
    → ((p : ℕ) → 0 < size_of_part j p)
    → All (IsAnswer j) results
    → length results ≤ n
    → gather n results total parts ≡ all_parts total' parts'
    → (length results ≡ n) × GatheredOr j results total parts total' parts'
unfolding gather
gather-GatheredOr j zero [] total parts total' parts' pos h few e = (
  refl,
  inl (record {
    all_numbers = ap part_numbers (sym (all_parts-parts e)) ∙ append_nil (part_numbers parts);
    all_sizes = omega (arith, all_parts-total e);
  }),
)
gather-GatheredOr j zero (r ∷ l) total parts total' parts' pos h few e = absurd (omega arith)
gather-GatheredOr j (suc n) [] total parts total' parts' pos h few e = absurd (cc e)
gather-GatheredOr j (suc n) (failed p er ∷ l) total parts total' parts' pos h few e = absurd (cc e)
gather-GatheredOr j (suc n) (partless p ∷ l) total parts total' parts' pos h few e = absurd (cc e)
gather-GatheredOr j (suc n) (uploaded p size part ∷ l) total parts total' parts' pos (own, rest) few
      e =
    let (same, more) =
      gather-GatheredOr j n l (total + size) (parts ++ part ∷ []) total' parts' pos rest
        (omega arith) e in
    (
      omega (arith, same),
      GatheredOr-uploaded j l p size part total parts total' parts' (pos p) own more,
    )

no_numbers : (l : List Worker) → length l ≡ 0 → l ≡ []
no_numbers [] h = refl
no_numbers (x ∷ l) h = absurd (omega arith)

-- The numbers of all the results of a run are 1 to the count, each once.
all_numbers_once :
    {j : Job} {threads : ℕ} {s : WorkerState}
    → IsAccounted j threads s
    → length s.results ≡ j.total_parts_count
    → (s.working ≡ [])
      × ((p : ℕ) → occurrences p (result_numbers s.results) ≡ once 0 j.total_parts_count p)
all_numbers_once {j} {threads} {s} h e =
    let next : s.next_part ≡ j.total_parts_count + 1 = omega (arith, h.counted, h.all_drawn) in
    let last : s.next_part - 1 ≡ j.total_parts_count = omega arith in
    let idle : s.working ≡ [] = no_numbers s.working (omega (arith, h.counted)) in
    (
      idle,
      λ p. omega (
        arith,
        h.drawn_once p,
        ap (λ l. occurrences p (numbers_of l)) idle,
        ap (λ n. once 0 n p) last,
      ),
    )

finished-whole :
    (j : Job) (log : Log) (total : ℕ) (parts : List CompletePart)
    → total ≡ j.size
    → finished j log (all_parts total parts)
      ≡ some (
          settle j.server j.bucket_name j.object_name j.upload_id j.size
            (complete_upload j log j.size (sort_parts parts)))
unfolding finished after_parts
finished-whole j log total parts e = rw (e, after_parts, ==_refl j.size) refl

finished-short :
    (j : Job) (log : Log) (total : ℕ) (parts : List CompletePart)
    → total < j.size
    → finished j log (all_parts total parts)
      ≡ some (
        abort_multipart_upload j.server j.bucket_name j.object_name j.upload_id log,
        total,
        some (err_unexpected_eof total j.size),
      )
unfolding finished after_parts settle
finished-short j log total parts h =
    let short : (total == j.size) ≡ false = ground arith in rw (short, after_parts) refl

-- The end of the function when the loop has received all the parts: the completion with the parts in
-- order, or an abort because the sizes are too small.
abbrev pub Completes : Job → ℕ → Log → ℕ → List CompletePart → Type 0
Completes j size log total parts =
    ((total ≡ size)
      × (part_numbers (sort_parts parts) ≡ numbers_from 0 j.total_parts_count)
      × (finished j log (all_parts total parts)
          ≡ some (
              settle j.server j.bucket_name j.object_name j.upload_id size
                (complete_upload j log size (sort_parts parts)))))
    ⊎ ((total < size)
        × (finished j log (all_parts total parts)
            ≡ some (
              abort_multipart_upload j.server j.bucket_name j.object_name j.upload_id log,
              total,
              some (err_unexpected_eof total size),
            )))

-- What is gathered from a run whose part sizes cover the object.
pub finished-gather :
    (j : Job) (threads : ℕ) (log : Log) (s : WorkerState) (total : ℕ) (parts : List CompletePart)
    → WorkerRun j threads log s
    → Covers j.size j.total_parts_count j.part_size j.last_part_size
    → gather j.total_parts_count s.results 0 [] ≡ all_parts total parts
    → (s.working ≡ []) × Completes j j.size s.log total parts
finished-gather j threads log s total parts run covers e =
    let h = WorkerRun-IsAccounted run in
    let (all, got) =
      gather-GatheredOr j j.total_parts_count s.results 0 [] total parts
        (λ p. size_of_part-pos j p covers) h.answered (omega (arith, h.counted, h.all_drawn)) e in
    let (idle, each) = all_numbers_once h all in
    let l = result_numbers s.results in
    let whole = sizes-once j (numbered l) l (part_numbers-numbered l) each covers in
    (
      idle,
      elim got [
        | inl it ↦
            let total_whole : total ≡ j.size = omega (arith, it.all_sizes, whole) in
            inl (
              total_whole,
              numbers_in_order j parts l it.all_numbers each,
              finished-whole j s.log total parts total_whole,
            )
        | inr less ↦
            let short : total < j.size = omega (arith, whole) in
            inr (short, finished-short j s.log total parts short)
      ],
    )
