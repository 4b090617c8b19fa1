-- ===== src/Tests/WorkerRuns.antt =====
-- api-put-object-streaming.go: instances of the theorems on the workers.
use mefs_sdk_go.Prelude.{inl, ℕ, ◌≡◌, ◌⊎◌, refl, ◌*◌, ◌+◌, [], ◌∷◌, some, inr, arith}
use mefs_sdk_go.Prelude.Text.{codes, text_eq, index, split, has_prefix}
use mefs_sdk_go.Names.Runes.{
  rune_width, rune_at, runes_after, runes, raw_rune, valid_string, is_space, trim_left, trim_right,
  joined, trim_space,
}
use mefs_sdk_go.Names.Encode.{is_alphanumeric}
use mefs_sdk_go.Names.Check.{
  check_valid_bucket_name, check_bucket_name_common, contains_text, is_digit, are_digits,
  are_four_numbers, is_ip_address, ends_with, matches_name, is_inner_byte, valid_bucket_name,
  has_bad_neighbours, check_valid_object_name, check_valid_object_name_prefix,
}
use mefs_sdk_go.Upload.PartInfo.{
  info, optimal_part_info, known_part_info, configured_part_info, part_counts, int64_exceeds,
  exceeds_int64,
}
use mefs_sdk_go.Upload.Constants.{min_part_size, max_parts_count}
use mefs_sdk_go.Upload.Multipart.Session.{
  initiate, Log, CompletePart, check_names, new_upload_id, initiate_multipart_upload, upload_part,
  object_part, UploadError, no_upload_id, trim_quotes,
}
use mefs_sdk_go.Upload.Workers.{
  Job, WorkerState, workers_start, part_drawn, part_answered, err_tested, zero_part, sending,
  holding, uploaded, tests, section_body, size_of_part, gather, begun, blocked, stream_begun,
  initiate_stream, queue_parts, all_parts, read_offset, get_num_threads, draws, uploads,
}
use mefs_sdk_go.Upload.Workers.Steps.{WorkerRun, started, stepped}
use mefs_sdk_go.Upload.Workers.Waiting.{Inevitable}
use mefs_sdk_go.Upload.Workers.Gathering.{Completes}
use mefs_sdk_go.Upload.Workers.Begin.{
  stream_begun-Inevitable, stream_begun-gather, stream_begun_blocks,
}
use mefs_sdk_go.Tests.MultipartRuns.{bucket, object, names_accepted, willing}

-- An object of 6 MiB in parts of 5 MiB, by two workers.
abbrev two_parts : Job
two_parts = record {
  server = willing;
  bucket_name = bucket;
  object_name = object;
  upload_id = codes "id";
  content = codes "abc";
  size = 6291456;
  total_parts_count = 2;
  part_size = 5242880;
  last_part_size = 1048576;
}

begin_accepted : new_upload_id willing bucket object [] ≡ (initiate ∷ [], inr (codes "id"))
unfolding new_upload_id initiate_multipart_upload
begin_accepted = rw (names_accepted, new_upload_id, names_accepted, initiate_multipart_upload) refl

chosen_parts : optimal_part_info (some 6291456) 5242880 ≡ info 2 5242880 1048576
unfolding optimal_part_info known_part_info configured_part_info part_counts int64_exceeds
    exceeds_int64
chosen_parts = refl

two_begun :
    stream_begun willing bucket object (codes "abc") 6291456 5242880 2 []
    ≡ begun two_parts 2 (initiate ∷ [])
unfolding stream_begun initiate_stream queue_parts get_num_threads
two_begun = rw (names_accepted, chosen_parts, stream_begun, begin_accepted) refl

stream_begun-Inevitable_example : Inevitable two_parts (workers_start 2 (initiate ∷ []))
stream_begun-Inevitable_example =
    stream_begun-Inevitable willing bucket object (codes "abc") 6291456 5242880 2 [] two_parts 2
      (initiate ∷ []) (workers_start 2 (initiate ∷ [])) (omega arith) (omega arith) two_begun
      started

stream_begun_blocks_example :
    stream_begun willing bucket object
      (codes "abc")
      (1 * (min_part_size * max_parts_count) + 1)
      0
      4
      []
    ≡ blocked (initiate ∷ [])
stream_begun_blocks_example =
    stream_begun_blocks willing bucket object (codes "abc") (codes "id") 1 1 4 [] (initiate ∷ [])
      names_accepted begin_accepted (omega arith) (omega arith) (omega arith) (omega arith)

abbrev both_drawn : WorkerState
both_drawn = part_drawn (part_drawn (workers_start 2 (initiate ∷ [])))

abbrev answer_to : ℕ → Log → Log × (UploadError ⊎ CompletePart)
answer_to p log = upload_part willing bucket object (codes "id") (section_body two_parts p) p log

abbrev answered_part : ℕ → CompletePart
answered_part p = record { part_number = p; etag = trim_quotes (codes "\"tag\"") }

-- the second part is answered first
abbrev second_answered : WorkerState
second_answered =
    part_answered two_parts both_drawn (sending 1 ∷ []) [] 2 (answer_to 2 both_drawn.log)

abbrev both_answered : WorkerState
both_answered =
    part_answered two_parts second_answered [] (holding 2 1048576 (answered_part 2) ∷ []) 1
      (answer_to 1 second_answered.log)

abbrev second_sent : WorkerState
second_sent =
    err_tested both_answered (holding 1 5242880 (answered_part 1) ∷ []) [] 2 1048576
      (answered_part 2) both_answered.err

abbrev both_sent : WorkerState
both_sent = err_tested second_sent [] [] 1 5242880 (answered_part 1) second_sent.err

both_run : WorkerRun two_parts 2 (initiate ∷ []) both_sent
unfolding part_drawn part_answered err_tested upload_part object_part section_body size_of_part
    read_offset check_names check_valid_bucket_name check_bucket_name_common is_ip_address
    are_four_numbers are_digits is_digit split trim_space joined trim_left trim_right raw_rune
    is_space text_eq runes runes_after rune_width rune_at has_bad_neighbours contains_text index
    has_prefix valid_bucket_name matches_name ends_with is_inner_byte is_alphanumeric
    check_valid_object_name check_valid_object_name_prefix valid_string
both_run =
    let drawn : WorkerRun two_parts 2 (initiate ∷ []) both_drawn =
      stepped
        (stepped started (draws (workers_start 2 (initiate ∷ [])) (omega arith) (omega arith)))
        (draws (part_drawn (workers_start 2 (initiate ∷ []))) (omega arith) (omega arith)) in
    let answered : WorkerRun two_parts 2 (initiate ∷ []) both_answered =
      stepped (stepped drawn (uploads both_drawn (sending 1 ∷ []) [] 2 refl))
        (uploads second_answered [] (holding 2 1048576 (answered_part 2) ∷ []) 1 refl) in
    stepped
      (stepped answered (
        tests both_answered (holding 1 5242880 (answered_part 1) ∷ []) [] 2 1048576
          (answered_part 2) refl))
      (tests second_sent [] [] 1 5242880 (answered_part 1) refl)

both_gathered :
    gather 2 both_sent.results 0 [] ≡ all_parts 6291456 (answered_part 2 ∷ answered_part 1 ∷ [])
unfolding part_drawn part_answered err_tested gather upload_part object_part section_body
    size_of_part read_offset check_names check_valid_bucket_name check_bucket_name_common
    is_ip_address are_four_numbers are_digits is_digit split trim_space joined trim_left trim_right
    raw_rune is_space text_eq runes runes_after rune_width rune_at has_bad_neighbours contains_text
    index has_prefix valid_bucket_name matches_name ends_with is_inner_byte is_alphanumeric
    check_valid_object_name check_valid_object_name_prefix valid_string
both_gathered = refl

stream_begun-gather_example :
    (both_sent.working ≡ [])
    × Completes two_parts 6291456 both_sent.log 6291456 (answered_part 2 ∷ answered_part 1 ∷ [])
stream_begun-gather_example =
    stream_begun-gather willing bucket object (codes "abc") 6291456 5242880 2 [] two_parts 2
      (initiate ∷ []) both_sent 6291456 (answered_part 2 ∷ answered_part 1 ∷ []) (omega arith)
      two_begun both_run both_gathered

-- The first part is refused, and the answer to the second resets the error before it is tested.
abbrev first_refused : WorkerState
first_refused =
    part_answered two_parts both_drawn [] (sending 2 ∷ []) 1 (both_drawn.log, inl no_upload_id)

abbrev error_reset : WorkerState
error_reset =
    part_answered two_parts first_refused (holding 1 0 zero_part ∷ []) [] 2
      (first_refused.log, inr (answered_part 2))

abbrev first_lost : WorkerState
first_lost =
    err_tested error_reset [] (holding 2 1048576 (answered_part 2) ∷ []) 1 0 zero_part
      error_reset.err

lost_as_success : first_lost.results ≡ uploaded 1 0 zero_part ∷ []
unfolding part_drawn part_answered err_tested
lost_as_success = refl
