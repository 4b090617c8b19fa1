-- ===== src/Upload/Workers/Waiting.antt =====
-- api-put-object-streaming.go: the loop that receives the results does not wait for ever.
use mefs_sdk_go.Prelude.{
  none, ◌∙◌, ℕ, zero, suc, ◌+◌, ◌-◌, ◌*◌, ◌≤◌, ◌<◌, List, [], ◌∷◌, ◌++◌, length, Option, some, ◌⊎◌,
  inl, inr, ◌≡◌, refl, ap, arith,
}
use mefs_sdk_go.Upload.Multipart.Session.{UploadError, CompletePart, Log}
use mefs_sdk_go.Upload.Workers.{
  Job, size_of_part, UploadedPart, uploaded, failed, partless, Worker, sending, holding, failing,
  WorkerState, zero_part, part_answered, err_tested, err_sent, part_drawn, WorkerStep, draws,
  uploads, tests, sends, Gathered, gave_up, all_parts, waiting, gather, finished,
}
use mefs_sdk_go.Upload.Workers.Accounted.{WorkerRun-IsAccounted}
use mefs_sdk_go.Upload.Workers.Steps.{WorkerRun, stepped, failures}

-- The loop waits only when results are missing and none that it has received is an error.
gather_waiting :
    (n : ℕ) (results : List UploadedPart) (total : ℕ) (parts : List CompletePart)
    → gather n results total parts ≡ waiting
    → (length results < n) × (failures results ≡ 0)
unfolding gather
gather_waiting zero results total parts e = absurd (cc e)
gather_waiting (suc n) [] total parts e = (omega arith, refl)
gather_waiting (suc n) (failed p er ∷ l) total parts e = absurd (cc e)
gather_waiting (suc n) (partless p ∷ l) total parts e = absurd (cc e)
gather_waiting (suc n) (uploaded p size part ∷ l) total parts e =
    let (few, none_failed) = gather_waiting n l (total + size) (parts ++ part ∷ []) e in
    (omega arith, none_failed)

-- A worker can take a step: it has a part in hand, or it can draw one.
can_step :
    (j : Job) (s : WorkerState) (working : List Worker)
    → s.working ≡ working
    → (working ≡ [] → (s.next_part ≤ j.total_parts_count) × (0 < s.idle))
    → (t : WorkerState) × WorkerStep j s t
can_step j s [] e free = let (more, idle) = free refl in (part_drawn s, draws s more idle)
can_step j s (sending p ∷ rest) e free = (_, uploads s [] rest p e)
can_step j s (holding p size part ∷ rest) e free = (_, tests s [] rest p size part e)
can_step j s (failing p ∷ rest) e free = (_, sends s [] rest p e)

-- The steps that are left at most: a draw, an answer, a test and an error for each part.
abbrev steps_of : Worker → ℕ
steps_of (sending p) = 3
steps_of (holding p size part) = 2
steps_of (failing p) = 1

abbrev steps_of_all : List Worker → ℕ
steps_of_all [] = 0
steps_of_all (w ∷ l) = steps_of w + steps_of_all l

abbrev steps_left : Job → WorkerState → ℕ
steps_left j s = 4 * (j.total_parts_count + 1 - s.next_part) + steps_of_all s.working

steps_of_all-append : (l m : List Worker) → steps_of_all (l ++ m) ≡ steps_of_all l + steps_of_all m
steps_of_all-append [] m = omega arith
steps_of_all-append (w ∷ l) m = omega (arith, steps_of_all-append l m)

steps_of_all-parted :
    (before : List Worker) (w : Worker) (after : List Worker)
    → steps_of_all (before ++ w ∷ after) ≡ steps_of_all (before ++ after) + steps_of w
steps_of_all-parted before w after =
    omega (arith, steps_of_all-append before (w ∷ after), steps_of_all-append before after)

module _ (j : Job) (s : WorkerState) (before after : List Worker) (w : Worker)
    (e : s.working ≡ before ++ w ∷ after) where
  parted_steps : steps_of_all s.working ≡ steps_of_all (before ++ after) + steps_of w
  parted_steps = ap steps_of_all e ∙ steps_of_all-parted before w after

  answered_steps :
      (p : ℕ) (answer : Log × (UploadError ⊎ CompletePart))
      → steps_of w ≡ 3
      → steps_left j (part_answered j s before after p answer) < steps_left j s
  unfolding part_answered
  answered_steps p (log', inl er) three =
      omega (arith, parted_steps, steps_of_all-parted before (holding p 0 zero_part) after)
  answered_steps p (log', inr part) three =
      omega
        (arith, parted_steps, steps_of_all-parted before (holding p (size_of_part j p) part) after)

  tested_steps :
      (p size : ℕ) (part : CompletePart) (err : Option UploadError)
      → steps_of w ≡ 2
      → steps_left j (err_tested s before after p size part err) < steps_left j s
  unfolding err_tested
  tested_steps p size part none two = omega (arith, parted_steps)
  tested_steps p size part (some er) two =
      omega (arith, parted_steps, steps_of_all-parted before (failing p) after)

  sent_steps :
      (p : ℕ) (err : Option UploadError)
      → steps_of w ≡ 1
      → steps_left j (err_sent s before after p err) < steps_left j s
  unfolding err_sent
  sent_steps p none one = omega (arith, parted_steps)
  sent_steps p (some er) one = omega (arith, parted_steps)

-- A step takes one at least from the steps that are left.
step-steps_left : {j : Job} {s t : WorkerState} → WorkerStep j s t → steps_left j t < steps_left j s
unfolding part_drawn
step-steps_left {j} (draws s more free) =
    omega (arith, steps_of_all-append s.working (sending s.next_part ∷ []))
step-steps_left {j} (uploads s before after p e) =
    answered_steps j s before after (sending p) e p _ refl
step-steps_left {j} (tests s before after p size part e) =
    tested_steps j s before after (holding p size part) e p size part s.err refl
step-steps_left {j} (sends s before after p e) =
    sent_steps j s before after (failing p) e p s.err refl

-- In whatever order the workers go on, the function comes to its end.
pub data Inevitable (j : Job) : WorkerState → Type 0 where
  ended :
      (s : WorkerState) (end : Log × ℕ × Option UploadError)
      → finished j s.log (gather j.total_parts_count s.results 0 []) ≡ some end
      → Inevitable j s
  goes_on :
      (s t : WorkerState)
      → WorkerStep j s t
      → ((u : WorkerState) → WorkerStep j s u → Inevitable j u)
      → Inevitable j s

finished-cases :
    (j : Job) (log : Log) (g : Gathered)
    → (g ≡ waiting) ⊎ ((end : Log × ℕ × Option UploadError) × (finished j log g ≡ some end))
unfolding finished
finished-cases j log (gave_up n e) = inr (_, refl)
finished-cases j log (all_parts total parts) = inr (_, refl)
finished-cases j log waiting = inl refl

-- A loop that waits has a worker that can go on.
waiting-step :
    {j : Job} {threads : ℕ} {log : Log} {s : WorkerState}
    → 0 < threads
    → WorkerRun j threads log s
    → gather j.total_parts_count s.results 0 [] ≡ waiting
    → (t : WorkerState) × WorkerStep j s t
waiting-step {j} {threads} {log} {s} staff run e =
    let h = WorkerRun-IsAccounted run in
    let (few, none_failed) = gather_waiting j.total_parts_count s.results 0 [] e in
    can_step j s s.working refl (λ idle. (
      omega (arith, h.counted, ap length idle),
      omega (arith, h.staffed, none_failed, ap length idle),
    ))

inevitable_from :
    (n : ℕ) {j : Job} {threads : ℕ} {log : Log} (s : WorkerState)
    → 0 < threads
    → WorkerRun j threads log s
    → steps_left j s ≤ n
    → Inevitable j s
inevitable_from zero {j} s staff run left =
    elim (finished-cases j s.log (gather j.total_parts_count s.results 0 [])) [
      | inr (end, e) ↦ ended s end e
      | inl e ↦
          let (t, step) = waiting-step staff run e in absurd (omega (arith, step-steps_left step))
    ]
inevitable_from (suc n) {j} s staff run left =
    elim (finished-cases j s.log (gather j.total_parts_count s.results 0 [])) [
      | inr (end, e) ↦ ended s end e
      | inl e ↦
          let (t, step) = waiting-step staff run e in
          goes_on s t step (λ u next.
            inevitable_from n u staff (stepped run next) (omega (arith, step-steps_left next)))
    ]

-- With at least one worker the function comes to its end from every state of a run, in whatever order
-- the workers go on: while the loop waits for a result a worker can take a step, and a run has
-- finitely many steps.
pub WorkerRun-Inevitable :
    (j : Job) (threads : ℕ) (log : Log) (s : WorkerState)
    → 0 < threads
    → WorkerRun j threads log s
    → Inevitable j s
WorkerRun-Inevitable j threads log s staff run =
    inevitable_from (steps_left j s) s staff run (omega arith)
