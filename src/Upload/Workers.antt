-- ===== src/Upload/Workers.antt =====
-- api-put-object-streaming.go: putObjectMultipartStreamFromReadAt, an upload of a known size by workers.
-- The two channels are a next number, since the numbers are queued in order before the workers start,
-- and the list of the results. A step is a draw, an assignment of the shared `err` with the answer to a
-- part, a test of it or a last read of it, by any of the workers; the steps of a run come in any order
-- that the goroutines allow. A worker changes its part size for the last part only, after which nothing
-- is left to draw, so that the size is a function of the number.
pub mod Order
pub mod Steps
pub mod Accounted
pub mod Sizes
pub mod Gathering
pub mod Begin
pub mod Waiting
use mefs_sdk_go.Prelude.{
  ℕ, zero, suc, ◌+◌, ◌-◌, ◌*◌, ◌≤◌, ◌<◌, not, List, [], ◌∷◌, ◌++◌, ◌==◌, ltb, ◌^◌, if◌then◌else◌,
  take, drop, Option, none, some, ◌⊎◌, inl, inr, ◌≡◌,
}
use mefs_sdk_go.Prelude.Text.{Text}
use mefs_sdk_go.Upload.PartInfo.{info, refused, unspecified, optimal_part_info}
use mefs_sdk_go.Upload.Multipart.Session.{
  UploadError, err_unexpected_eof, refused_parts, missing_part, check_names, new_upload_id,
  CompletePart, Log, Server, upload_part, complete_multipart_upload,
}
use mefs_sdk_go.Upload.Multipart.Upload.{sort_parts, settle}

-- What the workers are given: `content` is what the reader holds. That it has `size` bytes is left to
-- the caller; with fewer, net/http fails the request of a part, which is an answer of the server here.
pub record Job : Type 0 where
  pub server : Server
  pub bucket_name : Text
  pub object_name : Text
  pub upload_id : Text
  pub content : Text
  pub size : ℕ
  pub total_parts_count : ℕ
  pub part_size : ℕ
  pub last_part_size : ℕ

-- the length of the section of a part
unfoldable pub size_of_part : Job → ℕ → ℕ
size_of_part j p = if p == j.total_parts_count then j.last_part_size else j.part_size

-- `readOffset`
unfoldable pub read_offset : Job → ℕ → ℕ
read_offset j p =
    if p == j.total_parts_count then j.size - j.last_part_size else (p - 1) * j.part_size

-- what the section reader gives
unfoldable pub section_body : Job → ℕ → Text
section_body j p = take (size_of_part j p) (drop (read_offset j p) j.content)

-- `uploadedPartRes`. The number of a part is its `PartNum`; that of a failure is not sent, and stands here
-- to tell the parts apart. `partless` has no error and no part.
pub data UploadedPart : Type 0 where
  uploaded : ℕ → ℕ → CompletePart → UploadedPart
  failed : ℕ → UploadError → UploadedPart
  partless : ℕ → UploadedPart

-- A worker with a part in hand: before the answer to uploadPart; with the answer, the `Size` and the rest of
-- `objPart`, before the test of `err`; after a test that found an error, before it is sent.
pub data Worker : Type 0 where
  sending : ℕ → Worker
  holding : ℕ → ℕ → CompletePart → Worker
  failing : ℕ → Worker

-- `err` is the named result of the function, which all the workers assign and read.
pub record WorkerState : Type 0 where
  pub next_part : ℕ
  pub idle : ℕ
  pub working : List Worker
  pub results : List UploadedPart
  pub err : Option UploadError
  pub log : Log

-- the capacity of `uploadPartsCh`
abbrev pub parts_capacity : ℕ
parts_capacity = 10000

-- `totalWorkers`
abbrev pub total_workers : ℕ
total_workers = 4

-- `getNumThreads`: how many workers the loop up to it starts. The uint is converted to an int, and there is
-- no worker when that is negative.
unfoldable pub get_num_threads : ℕ → ℕ
get_num_threads num_threads =
    if ltb 0 num_threads then if ltb num_threads (2 ^ 63) then num_threads else 0 else total_workers

-- What comes before the workers: an early return with 0; part counts that Go leaves open; the queue that
-- takes no more numbers while no worker has started, where the function waits for ever; the workers.
pub data Begun : Type 0 where
  returned : Log → UploadError → Begun
  unspecified_parts : Begun
  blocked : Log → Begun
  begun : Job → ℕ → Log → Begun

-- the numbers are queued, and the workers start
unfoldable pub queue_parts : Job → ℕ → Log → Begun
queue_parts j num_threads log =
    if ltb parts_capacity j.total_parts_count
    then blocked log
    else begun j (get_num_threads num_threads) log

-- with the part sizes, from the new upload on
unfoldable pub initiate_stream :
    Server → Text → Text → Text → ℕ → ℕ → ℕ → ℕ → ℕ → Log × (UploadError ⊎ Text) → Begun
initiate_stream server b o content size count part last num_threads (log, inl e) = returned log e
initiate_stream server b o content size count part last num_threads (log, inr upload_id) =
    queue_parts
      (record {
        server = server;
        bucket_name = b;
        object_name = o;
        upload_id = upload_id;
        content = content;
        size = size;
        total_parts_count = count;
        part_size = part;
        last_part_size = last;
      })
      num_threads log

unfoldable pub stream_begun : Server → Text → Text → Text → ℕ → ℕ → ℕ → Log → Begun
stream_begun server b o content size configured_part_size num_threads log = elim (check_names b o) [
  | some e ↦ returned log e
  | none ↦ elim (optimal_part_info (some size) configured_part_size) [
    | refused e ↦ returned log (refused_parts e)
    | unspecified ↦ unspecified_parts
    | info count part last ↦
        initiate_stream server b o content size count part last num_threads
          (new_upload_id server b o log)
  ]
]

-- the workers before their first draw
abbrev pub workers_start : ℕ → Log → WorkerState
workers_start threads log = record {
  next_part = 1;
  idle = threads;
  working = [];
  results = [];
  err = none;
  log = log;
}

-- `ObjectPart{}`, whose size is 0
abbrev pub zero_part : CompletePart
zero_part = record { part_number = 0; etag = [] }

-- `objPart, err = c.uploadPart(…)`
unfoldable pub part_answered :
    Job
    → WorkerState
    → List Worker
    → List Worker
    → ℕ
    → Log × (UploadError ⊎ CompletePart)
    → WorkerState
part_answered j s before after p (log', inl e) = record s {
  working = before ++ holding p 0 zero_part ∷ after;
  err = some e;
  log = log';
}
part_answered j s before after p (log', inr part) = record s {
  working = before ++ holding p (size_of_part j p) part ∷ after;
  err = none;
  log = log';
}

-- `if err != nil`, with the value of `err` at the test: the worker sends its part, or goes on to send
-- the error
unfoldable pub err_tested :
    WorkerState
    → List Worker
    → List Worker
    → ℕ
    → ℕ
    → CompletePart
    → Option UploadError
    → WorkerState
err_tested s before after p size part none = record s {
  idle = s.idle + 1;
  working = before ++ after;
  results = s.results ++ uploaded p size part ∷ [];
}
err_tested s before after p size part (some e) = record s { working = before ++ failing p ∷ after }

-- the worker sends `err`, as it is by now, and exits
unfoldable pub err_sent :
    WorkerState → List Worker → List Worker → ℕ → Option UploadError → WorkerState
err_sent s before after p (some e) = record s {
  working = before ++ after;
  results = s.results ++ failed p e ∷ [];
}
err_sent s before after p none = record s {
  working = before ++ after;
  results = s.results ++ partless p ∷ [];
}

unfoldable pub part_drawn : WorkerState → WorkerState
part_drawn s = record s {
  next_part = s.next_part + 1;
  idle = s.idle - 1;
  working = s.working ++ sending s.next_part ∷ [];
}

-- A step of one of the workers.
pub data WorkerStep (j : Job) : WorkerState → WorkerState → Type 0 where
  draws :
      (s : WorkerState)
      → s.next_part ≤ j.total_parts_count
      → 0 < s.idle
      → WorkerStep j s (part_drawn s)
  uploads :
      (s : WorkerState) (before after : List Worker) (p : ℕ)
      → s.working ≡ before ++ sending p ∷ after
      → WorkerStep j s (
          part_answered j s before after p (
            upload_part j.server j.bucket_name j.object_name j.upload_id
              (section_body j p)
              p
              s.log))
  tests :
      (s : WorkerState) (before after : List Worker) (p size : ℕ) (part : CompletePart)
      → s.working ≡ before ++ holding p size part ∷ after
      → WorkerStep j s (err_tested s before after p size part s.err)
  sends :
      (s : WorkerState) (before after : List Worker) (p : ℕ)
      → s.working ≡ before ++ failing p ∷ after
      → WorkerStep j s (err_sent s before after p s.err)

-- What the loop that receives the results comes to: an early return with its number of bytes, all the
-- parts, or a wait for another result.
pub data Gathered : Type 0 where
  gave_up : ℕ → UploadError → Gathered
  all_parts : ℕ → List CompletePart → Gathered
  waiting : Gathered

-- the loop that receives the results, `remaining` more of them; a result without a part names
-- the part number 0, which its `PartNum` is
unfoldable pub gather : ℕ → List UploadedPart → ℕ → List CompletePart → Gathered
gather zero results total parts = all_parts total parts
gather (suc remaining) [] total parts = waiting
gather (suc remaining) (failed p e ∷ results) total parts = gave_up total e
gather (suc remaining) (partless p ∷ results) total parts = gave_up 0 (missing_part 0)
gather (suc remaining) (uploaded p size part ∷ results) total parts =
    gather remaining results (total + size) (parts ++ part ∷ [])

-- the sorted parts are completed
unfoldable pub complete_upload : Job → Log → ℕ → List CompletePart → Log × Option (ℕ × UploadError)
complete_upload j log total parts =
    let (log', refusal) =
      complete_multipart_upload j.server j.bucket_name j.object_name j.upload_id parts log in
    (log', elim refusal [ none ↦ none | some e ↦ some (total, e) ])

-- what follows the loop
unfoldable pub after_parts : Job → Log → ℕ → List CompletePart → Log × Option (ℕ × UploadError)
after_parts j log total parts =
    if total == j.size
    then complete_upload j log total (sort_parts parts)
    else (log, some (total, err_unexpected_eof total j.size))

-- The end of the function with its deferred function, once the loop has come to something. The log is
-- that of the moment; workers that are still at work after an early return may add to it. The return
-- and the deferred function are one step here; that a worker may assign the shared error in between is
-- left out.
unfoldable pub finished : Job → Log → Gathered → Option (Log × ℕ × Option UploadError)
finished j log (gave_up n e) =
    some (settle j.server j.bucket_name j.object_name j.upload_id n (log, some (n, e)))
finished j log (all_parts total parts) =
    some (
      settle j.server j.bucket_name j.object_name j.upload_id total (after_parts j log total parts))
finished j log waiting = none
