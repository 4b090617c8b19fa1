-- ===== src/Upload/Workers/Accounted.antt =====
-- api-put-object-streaming.go: every state that the workers reach accounts for its parts.
use mefs_sdk_go.Prelude.{
  Option, none, some, subst, sym, ℕ, ◌+◌, ◌≤◌, ◌<◌, List, [], ◌∷◌, ◌++◌, length, ◌⊎◌, inl, inr, ◌≡◌,
  refl, ap, ◌∙◌, arith, All,
}
use mefs_sdk_go.Upload.Multipart.Session.{UploadError, CompletePart, Log}
use mefs_sdk_go.Upload.Workers.{
  Job, size_of_part, section_body, UploadedPart, uploaded, failed, partless, Worker, sending,
  holding, failing, WorkerState, workers_start, zero_part, part_answered, err_tested, err_sent,
  part_drawn, WorkerStep, draws, uploads, tests, sends,
}
use mefs_sdk_go.Upload.Workers.Order.{occurrences, occurrences-append}
use mefs_sdk_go.Upload.Workers.Steps.{
  WorkerRun, started, stepped, number_of, numbers_of, result_number, result_numbers, IsOwn, IsHeld,
  IsAnswer, failures, IsAccounted, Numbered, numbers_of-append, result_numbers-append,
  failures-append, append-All, parted-All, occurrences-parted, length-append, length-parted,
  upload_part-Numbered,
}

module _ (j : Job) (threads : ℕ) (s : WorkerState) (h : IsAccounted j threads s) where
  drawn-IsAccounted :
      s.next_part ≤ j.total_parts_count → 0 < s.idle → IsAccounted j threads (part_drawn s)
  unfolding part_drawn
  drawn-IsAccounted more free = record {
    some_drawn = omega arith;
    all_drawn = omega arith;
    counted = omega (arith, h.counted, length-append s.working (sending s.next_part ∷ []));
    staffed = omega (arith, h.staffed, length-append s.working (sending s.next_part ∷ []));
    drawn_once = λ p. rw (numbers_of-append s.working (sending s.next_part ∷ [])) (
        ground (
          arith,
          h.some_drawn,
          h.drawn_once p,
          occurrences-append p (numbers_of s.working) (s.next_part ∷ []),
        ));
    held = append-All (IsHeld j) s.working (sending s.next_part ∷ []) h.held (tt, tt);
    answered = h.answered;
  }

  module _ (before after : List Worker) (w : Worker) (e : s.working ≡ before ++ w ∷ after) where
    parted-IsHeld : All (IsHeld j) before × IsHeld j w × All (IsHeld j) after
    parted-IsHeld = parted-All (IsHeld j) before w after (subst (All (IsHeld j)) e h.held)

    -- A worker goes on with its part.
    replaced-IsAccounted :
        (w' : Worker) (err : Option UploadError) (log : Log)
        → number_of w' ≡ number_of w
        → IsHeld j w'
        → IsAccounted j threads (record s { working = before ++ w' ∷ after; err = err; log = log })
    replaced-IsAccounted w' err log same own =
        let (left, mid, right) = parted-IsHeld in
        let size : length (before ++ w' ∷ after) ≡ length s.working =
          length-parted before w' after ∙ sym (ap length e ∙ length-parted before w after) in
        record {
          some_drawn = h.some_drawn;
          all_drawn = h.all_drawn;
          counted = omega (arith, h.counted, size);
          staffed = omega (arith, h.staffed, size);
          drawn_once = λ q. omega (
            arith,
            h.drawn_once q,
            ap (λ l. occurrences q (numbers_of l)) e,
            occurrences-parted q before w after,
            occurrences-parted q before w' after,
            ap (λ n. occurrences q (n ∷ [])) same,
          );
          held = append-All (IsHeld j) before (w' ∷ after) left (own, right);
          answered = h.answered;
        }

    -- A worker sends its result.
    sent-IsAccounted :
        (r : UploadedPart) (idle : ℕ)
        → result_number r ≡ number_of w
        → IsAnswer j r
        → idle + failures (r ∷ []) ≡ s.idle + 1
        → IsAccounted j threads
            (record s { idle = idle; working = before ++ after; results = s.results ++ r ∷ [] })
    sent-IsAccounted r idle same own staff =
        let (left, mid, right) = parted-IsHeld in
        let size : length s.working ≡ length (before ++ after) + 1 =
          ap length e ∙ length-parted before w after in
        record {
          some_drawn = h.some_drawn;
          all_drawn = h.all_drawn;
          counted = omega (arith, h.counted, size, length-append s.results (r ∷ []));
          staffed = omega (arith, h.staffed, size, failures-append s.results (r ∷ []), staff);
          drawn_once = λ q. rw (result_numbers-append s.results (r ∷ [])) (
              omega (
                arith,
                h.drawn_once q,
                ap (λ l. occurrences q (numbers_of l)) e,
                occurrences-parted q before w after,
                occurrences-append q (result_numbers s.results) (result_number r ∷ []),
                ap (λ n. occurrences q (n ∷ [])) same,
              ));
          held = append-All (IsHeld j) before after left right;
          answered = append-All (IsAnswer j) s.results (r ∷ []) h.answered (own, tt);
        }

    answered-IsAccounted :
        (p : ℕ) (answer : Log × (UploadError ⊎ CompletePart))
        → number_of w ≡ p
        → Numbered p answer.1
        → IsAccounted j threads (part_answered j s before after p answer)
    unfolding part_answered
    answered-IsAccounted p (log', inl er) same n =
        replaced-IsAccounted (holding p 0 zero_part) (some er) log' (sym same) (inr refl)
    answered-IsAccounted p (log', inr part) same n =
        replaced-IsAccounted (holding p (size_of_part j p) part) none log' (sym same)
          (inl (n, refl))

    tested-IsAccounted :
        (p size : ℕ) (part : CompletePart) (err : Option UploadError)
        → number_of w ≡ p
        → IsOwn j p size part
        → IsAccounted j threads (err_tested s before after p size part err)
    unfolding err_tested
    tested-IsAccounted p size part none same own =
        sent-IsAccounted (uploaded p size part) (s.idle + 1) (sym same) own (omega arith)
    tested-IsAccounted p size part (some er) same own =
        replaced-IsAccounted (failing p) s.err s.log (sym same) tt

    sent_err-IsAccounted :
        (p : ℕ) (err : Option UploadError)
        → number_of w ≡ p
        → IsAccounted j threads (err_sent s before after p err)
    unfolding err_sent
    sent_err-IsAccounted p none same =
        sent-IsAccounted (partless p) s.idle (sym same) tt (omega arith)
    sent_err-IsAccounted p (some er) same =
        sent-IsAccounted (failed p er) s.idle (sym same) tt (omega arith)

start-IsAccounted :
    (j : Job) (threads : ℕ) (log : Log) → IsAccounted j threads (workers_start threads log)
start-IsAccounted j threads log = record {
  some_drawn = omega arith;
  all_drawn = omega arith;
  counted = omega arith;
  staffed = omega arith;
  drawn_once = λ p. ground arith;
  held = tt;
  answered = tt;
}

step-IsAccounted :
    {j : Job} {threads : ℕ} {s t : WorkerState}
    → WorkerStep j s t
    → IsAccounted j threads s
    → IsAccounted j threads t
step-IsAccounted {j} {threads} (draws s more free) h = drawn-IsAccounted j threads s h more free
step-IsAccounted {j} {threads} (uploads s before after p e) h =
    answered-IsAccounted j threads s h before after (sending p) e p _ refl (
      upload_part-Numbered j.server j.bucket_name j.object_name j.upload_id (section_body j p) p
        s.log)
step-IsAccounted {j} {threads} (tests s before after p size part e) h =
    let (left, mid, right) = parted-IsHeld j threads s h before after (holding p size part) e in
    tested-IsAccounted j threads s h before after (holding p size part) e p size part s.err refl mid
step-IsAccounted {j} {threads} (sends s before after p e) h =
    sent_err-IsAccounted j threads s h before after (failing p) e p s.err refl

-- Whatever the order of the steps, every number that was drawn is in one worker's hands or has one
-- result, every worker waits, works or has failed, and each result is of its own part or lost.
pub WorkerRun-IsAccounted :
    {j : Job} {threads : ℕ} {log : Log} {s : WorkerState}
    → WorkerRun j threads log s
    → IsAccounted j threads s
WorkerRun-IsAccounted {j} {threads} {log} started = start-IsAccounted j threads log
WorkerRun-IsAccounted (stepped run step) = step-IsAccounted step (WorkerRun-IsAccounted run)
