-- ===== src/Upload/Workers/Steps.antt =====
-- api-put-object-streaming.go: runs of the workers, and what is true of every state that they reach.
use mefs_sdk_go.Prelude.{
  ℕ, suc, ◌+◌, ◌-◌, ◌≤◌, ◌<◌, List, [], ◌∷◌, ◌++◌, length, ◌⊎◌, inl, inr, ◌≡◌, refl, ap, arith, All,
}
use mefs_sdk_go.Prelude.Text.{Text}
use mefs_sdk_go.Upload.Multipart.Session.{
  UploadError, ErrorResponse, CompletePart, Log, Server, upload_part, object_part,
}
use mefs_sdk_go.Upload.Multipart.Sent.{upload_part_cases}
use mefs_sdk_go.Upload.Workers.{
  Job, size_of_part, UploadedPart, uploaded, failed, partless, Worker, sending, holding, failing,
  WorkerState, workers_start, WorkerStep,
}
use mefs_sdk_go.Upload.Workers.Order.{occurrences, occurrences-append, once}

-- The states that the workers reach, in any order of their steps.
pub data WorkerRun (j : Job) (threads : ℕ) (log : Log) : WorkerState → Type 0 where
  started : WorkerRun j threads log (workers_start threads log)
  stepped :
      {s t : WorkerState} → WorkerRun j threads log s → WorkerStep j s t → WorkerRun j threads log t

abbrev pub number_of : Worker → ℕ
number_of (sending p) = p
number_of (holding p size part) = p
number_of (failing p) = p

abbrev pub numbers_of : List Worker → List ℕ
numbers_of [] = []
numbers_of (w ∷ l) = number_of w ∷ numbers_of l

abbrev pub result_number : UploadedPart → ℕ
result_number (uploaded p size part) = p
result_number (failed p e) = p
result_number (partless p) = p

abbrev pub result_numbers : List UploadedPart → List ℕ
result_numbers [] = []
result_numbers (r ∷ l) = result_number r ∷ result_numbers l

-- The answer to a part has its own number and its own size, or it is lost and its size is 0.
abbrev pub IsOwn : Job → ℕ → ℕ → CompletePart → Type 0
IsOwn j p size part = ((part.part_number ≡ p) × (size ≡ size_of_part j p)) ⊎ (size ≡ 0)

abbrev pub IsHeld : Job → Worker → Type 0
IsHeld j (sending p) = Unit
IsHeld j (holding p size part) = IsOwn j p size part
IsHeld j (failing p) = Unit

abbrev pub IsAnswer : Job → UploadedPart → Type 0
IsAnswer j (uploaded p size part) = IsOwn j p size part
IsAnswer j (failed p e) = Unit
IsAnswer j (partless p) = Unit

-- How many workers have exited with an error.
abbrev pub failures : List UploadedPart → ℕ
failures [] = 0
failures (uploaded p size part ∷ l) = failures l
failures (failed p e ∷ l) = suc (failures l)
failures (partless p ∷ l) = suc (failures l)

-- Every number that was drawn is in one worker's hands or has one result, and every worker waits,
-- works or has failed.
pub record IsAccounted (j : Job) (threads : ℕ) (s : WorkerState) : Type 0 where
  pub some_drawn : 0 < s.next_part
  pub all_drawn : s.next_part ≤ j.total_parts_count + 1
  pub counted : length s.working + length s.results + 1 ≡ s.next_part
  pub staffed : s.idle + length s.working + failures s.results ≡ threads
  pub drawn_once :
      (p : ℕ)
      → occurrences p (numbers_of s.working) + occurrences p (result_numbers s.results)
        ≡ once 0 (s.next_part - 1) p
  pub held : All (IsHeld j) s.working
  pub answered : All (IsAnswer j) s.results

pub length-append : {A : Type 0} (l m : List A) → length (l ++ m) ≡ length l + length m
length-append [] m = omega arith
length-append (x ∷ l) m = omega (arith, length-append l m)

pub numbers_of-append : (l m : List Worker) → numbers_of (l ++ m) ≡ numbers_of l ++ numbers_of m
numbers_of-append [] m = refl
numbers_of-append (w ∷ l) m = ap (λ k. number_of w ∷ k) (numbers_of-append l m)

pub result_numbers-append :
    (l m : List UploadedPart) → result_numbers (l ++ m) ≡ result_numbers l ++ result_numbers m
result_numbers-append [] m = refl
result_numbers-append (r ∷ l) m = ap (λ k. result_number r ∷ k) (result_numbers-append l m)

pub failures-append : (l m : List UploadedPart) → failures (l ++ m) ≡ failures l + failures m
failures-append [] m = omega arith
failures-append (uploaded p size part ∷ l) m = failures-append l m
failures-append (failed p e ∷ l) m = omega (arith, failures-append l m)
failures-append (partless p ∷ l) m = omega (arith, failures-append l m)

pub append-All : {A : Type 0} (P : A → Type 0) (l m : List A) → All P l → All P m → All P (l ++ m)
append-All P [] m h k = k
append-All P (x ∷ l) m (here, rest) k = (here, append-All P l m rest k)

pub parted-All :
    {A : Type 0} (P : A → Type 0) (l : List A) (x : A) (m : List A)
    → All P (l ++ x ∷ m)
    → All P l × P x × All P m
parted-All P [] x m (here, rest) = (tt, here, rest)
parted-All P (y ∷ l) x m (here, rest) =
    let (left, mid, right) = parted-All P l x m rest in ((here, left), mid, right)

-- The numbers that are in the workers' hands, one of them apart.
pub occurrences-parted :
    (q : ℕ) (before : List Worker) (w : Worker) (after : List Worker)
    → occurrences q (numbers_of (before ++ w ∷ after))
      ≡ occurrences q (numbers_of (before ++ after)) + occurrences q (number_of w ∷ [])
occurrences-parted q before w after =
    rw (numbers_of-append before (w ∷ after), numbers_of-append before after)
      (omega (
        arith,
        occurrences-append q (numbers_of before) (numbers_of (w ∷ after)),
        occurrences-append q (numbers_of before) (numbers_of after),
      ))

pub length-parted :
    {A : Type 0} (before : List A) (w : A) (after : List A)
    → length (before ++ w ∷ after) ≡ length (before ++ after) + 1
length-parted before w after =
    omega (arith, length-append before (w ∷ after), length-append before after)

-- What the answer to a part is, when it is one.
abbrev pub Numbered : ℕ → UploadError ⊎ CompletePart → Type 0
Numbered p (inl e) = Unit
Numbered p (inr part) = part.part_number ≡ p

object_part-Numbered :
    (server : Server) (b o : Text) (p : ℕ) (answer : ErrorResponse ⊎ Text)
    → Numbered p (object_part server b o p answer)
unfolding object_part
object_part-Numbered server b o p (inl e) = tt
object_part-Numbered server b o p (inr header) = refl

pub upload_part-Numbered :
    (server : Server) (b o upload_id body : Text) (p : ℕ) (log : Log)
    → Numbered p (upload_part server b o upload_id body p log).1
upload_part-Numbered server b o upload_id body p log =
    elim (upload_part_cases server b o upload_id body p log) [
      | inl (e, refused) ↦ rw refused tt
      | inr sent ↦ rw sent (object_part-Numbered server b o p _)
    ]
