-- ===== src/Upload/Workers/Begin.antt =====
-- api-put-object-streaming.go: what the workers start with, and an object whose upload never starts.
use mefs_sdk_go.Prelude.{
  ℕ, ◌+◌, ◌*◌, ◌^◌, ◌≤◌, ◌<◌, ltb, none, some, ◌⊎◌, inl, inr, ◌≡◌, refl, subst, arith, Bool-cases,
  Option-cases, [], List,
}
use mefs_sdk_go.Prelude.Text.{Text}
use mefs_sdk_go.Upload.Constants.{max_parts_count, min_part_size, max_multipart_put_object_size}
use mefs_sdk_go.Upload.PartInfo.{optimal_part_info}
use mefs_sdk_go.Upload.PartInfo.Bounds.{Covers, default_part_info_excess}
use mefs_sdk_go.Upload.Multipart.Session.{
  CompletePart, UploadError, Log, Server, check_names, new_upload_id,
}
use mefs_sdk_go.Upload.PartInfo.Whole.{optimal_part_info-Covers}
use mefs_sdk_go.Upload.Multipart.Settled.{PartInfo-cases}
use mefs_sdk_go.Upload.Workers.Steps.{WorkerRun}
use mefs_sdk_go.Upload.Workers.Waiting.{Inevitable, WorkerRun-Inevitable}
use mefs_sdk_go.Upload.Workers.Gathering.{Completes, finished-gather}
use mefs_sdk_go.Upload.Workers.{
  WorkerState, gather, all_parts, Job, Begun, returned, unspecified_parts, blocked, begun,
  get_num_threads, queue_parts, initiate_stream, stream_begun, parts_capacity,
}

-- What has begun covers the object, by at least one worker, and its numbers fit the queue.
abbrev pub Prepared : ℕ → ℕ → Begun → Type 0
Prepared size num_threads (begun j threads log) =
    (threads ≡ get_num_threads num_threads)
    × Covers j.size j.total_parts_count j.part_size j.last_part_size
    × (j.size ≡ size)
    × (j.total_parts_count ≤ parts_capacity)
Prepared size num_threads (returned log e) = Unit
Prepared size num_threads unspecified_parts = Unit
Prepared size num_threads (blocked log) = Unit

queue_parts-Prepared :
    (size num_threads : ℕ) (j : Job) (log : Log)
    → j.size ≡ size
    → Covers j.size j.total_parts_count j.part_size j.last_part_size
    → Prepared size num_threads (queue_parts j num_threads log)
unfolding queue_parts
queue_parts-Prepared size num_threads j log same covers =
    elim (Bool-cases (ltb parts_capacity j.total_parts_count)) [
      | inl e ↦ rw e tt
      | inr f ↦ rw f (refl, covers, same, ground arith)
    ]

initiate_stream-Prepared :
    (server : Server) (b o content : Text) (size count part last num_threads : ℕ)
    (answer : Log × (UploadError ⊎ Text))
    → Covers size count part last
    → Prepared size num_threads
        (initiate_stream server b o content size count part last num_threads answer)
unfolding initiate_stream
initiate_stream-Prepared server b o content size count part last num_threads (log, inl e) covers =
    tt
initiate_stream-Prepared server b o content size count part last num_threads (log, inr id) covers =
    queue_parts-Prepared size num_threads _ log refl covers

stream_begun-Prepared :
    (server : Server) (b o content : Text) (size c num_threads : ℕ) (log : Log)
    → 0 < size
    → Prepared size num_threads (stream_begun server b o content size c num_threads log)
unfolding stream_begun
stream_begun-Prepared server b o content size c num_threads log pos =
    elim (Option-cases (check_names b o)) [
      | inr (e, bad) ↦ rw (bad, stream_begun) tt
      | inl good ↦ elim (PartInfo-cases (optimal_part_info (some size) c)) [
        | inl (e, bad) ↦ rw (good, bad, stream_begun) tt
        | inr (inl unknown) ↦ rw (good, unknown, stream_begun) tt
        | inr (inr (count, part, last, found)) ↦
            rw (good, found, stream_begun)
              (initiate_stream-Prepared server b o content size count part last num_threads _
                (optimal_part_info-Covers size c count part last pos found))
      ]
    ]

some_threads : (n : ℕ) → n < 2 ^ 63 → 0 < get_num_threads n
unfolding get_num_threads
some_threads n h = ground arith

-- An upload of an object that is not empty, whose number of threads is an int: when the workers have begun,
-- the function comes to its end from every state that they reach, in whatever order they go on.
-- While the loop waits for a result some worker can take a step, and a run has finitely many.
pub stream_begun-Inevitable :
    (server : Server) (b o content : Text) (size c num_threads : ℕ) (log : Log) (j : Job)
    (threads : ℕ) (log' : Log) (s : WorkerState)
    → 0 < size
    → num_threads < 2 ^ 63
    → stream_begun server b o content size c num_threads log ≡ begun j threads log'
    → WorkerRun j threads log' s
    → Inevitable j s
stream_begun-Inevitable server b o content size c num_threads log j threads log' s pos h e run =
    let prepared : Prepared size num_threads (begun j threads log') =
      subst (Prepared size num_threads) e
        (stream_begun-Prepared server b o content size c num_threads log pos) in
    WorkerRun-Inevitable j threads log' s (omega (arith, prepared.0, some_threads num_threads h))
      run

-- An object that is larger than a multiple of 10000 times 128 MiB by fewer than 10000 bytes is never sent
-- when the program chooses the part size: it has 10001 parts, one more than the queue takes before the
-- workers are started, so that the function waits for ever. The names are valid, and the server begins the
-- upload.
pub stream_begun_blocks :
    (server : Server) (b o content upload_id : Text) (k r num_threads : ℕ) (log log' : Log)
    → check_names b o ≡ none
    → new_upload_id server b o log ≡ (log', inr upload_id)
    → 0 < k
    → 0 < r
    → r < max_parts_count
    → k * (min_part_size * max_parts_count) + r ≤ max_multipart_put_object_size
    → stream_begun server b o content (k * (min_part_size * max_parts_count) + r) 0 num_threads log
      ≡ blocked log'
unfolding stream_begun initiate_stream queue_parts
stream_begun_blocks server b o content upload_id k r num_threads log log' good begins some_k some_r
      few most =
    rw (good, default_part_info_excess k r some_k some_r few most, stream_begun, begins) refl

-- The workers have begun the upload of an object that is not empty, and go on in whatever order, also
-- around the error that they share. When the loop has received a part for each of its rounds, no
-- worker has a part in hand. Either the sizes come to the size of the object, the sorted parts are numbered
-- from 1 to the count, each once, and the function ends as the completion with them does; or a
-- failed part was sent as a success, the sizes are too small, and the function aborts the upload and
-- returns an unexpected end of the data. So no upload is completed without one of its parts.
pub stream_begun-gather :
    (server : Server) (b o content : Text) (size c num_threads : ℕ) (log : Log) (j : Job)
    (threads : ℕ) (log' : Log) (s : WorkerState) (total : ℕ) (parts : List CompletePart)
    → 0 < size
    → stream_begun server b o content size c num_threads log ≡ begun j threads log'
    → WorkerRun j threads log' s
    → gather j.total_parts_count s.results 0 [] ≡ all_parts total parts
    → (s.working ≡ []) × Completes j size s.log total parts
stream_begun-gather server b o content size c num_threads log j threads log' s total parts pos e run
      all =
    let prepared : Prepared size num_threads (begun j threads log') =
      subst (Prepared size num_threads) e
        (stream_begun-Prepared server b o content size c num_threads log pos) in
    let (staff, covers, same, fits) = prepared in
    let (idle, ends) = finished-gather j threads log' s total parts run covers all in
    (idle, subst (λ n. Completes j n s.log total parts) same ends)
