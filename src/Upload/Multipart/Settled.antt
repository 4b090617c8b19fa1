-- ===== src/Upload/Multipart/Settled.antt =====
-- api-put-object-multipart.go, api-put-object.go: how an upload in parts ends.
use mefs_sdk_go.Prelude.{
  ℕ, zero, suc, ◌-◌, ◌≤◌, ◌<◌, List, [], ◌∷◌, ◌++◌, length, Option, none, some, ◌⊎◌, inl, inr, ◌≡◌,
  refl, arith, Option-cases, Sum-cases,
}
use mefs_sdk_go.Prelude.Text.{Text}
use mefs_sdk_go.Upload.Constants.{max_parts_count, max_multipart_put_object_size}
use mefs_sdk_go.Upload.PartInfo.{
  PartInfo, PartInfoError, info, refused, unspecified, optimal_part_info, known_part_info,
  default_part_info, part_counts,
}
use mefs_sdk_go.Upload.PartInfo.Bounds.{configured_part_info-Covers}
use mefs_sdk_go.Upload.Multipart.Session.{
  UploadError, refused_parts, no_part_size, response, initiate, complete, abort, completion_error,
  CompletePart, Log, Server, Stream, ReadEnd, check_names, new_upload_id, initiate_multipart_upload,
  complete_multipart_upload, abort_multipart_upload, from_server,
}
use mefs_sdk_go.Upload.Multipart.Upload.{
  Action, Progress, no_stream_action, no_length_action, collect_parts, sort_parts, finish_upload,
  settle, after_loop, upload_parts, put_object_parts, put_object_multipart_no_stream,
  put_object_multipart_stream_no_length,
}
use mefs_sdk_go.Upload.Multipart.Sent.{put_requests, upload_loop-Sends}

-- With the size unknown there are at most 10000 parts, and the part size is not 0.
pub unknown_size_parts :
    (c count part last : ℕ)
    → optimal_part_info none c ≡ info count part last
    → (count ≤ max_parts_count) × (0 < part)
unfolding optimal_part_info known_part_info default_part_info part_counts
unknown_size_parts zero count part last e = ground arith
unknown_size_parts (suc c) count part last e =
    let (covers, same, few, lo, hi) =
      configured_part_info-Covers max_multipart_put_object_size (suc c) count part last
        (omega arith) (omega arith) e in
    (few, omega (arith, same))

pub PartInfo-cases :
    (i : PartInfo)
    → ((e : PartInfoError) × (i ≡ refused e))
      ⊎ ((i ≡ unspecified) ⊎ ((count : ℕ) × (part : ℕ) × (last : ℕ) × (i ≡ info count part last)))
PartInfo-cases (info count part last) = inr (inr (count, part, last, refl))
PartInfo-cases (refused e) = inl (e, refl)
PartInfo-cases unspecified = inr (inl refl)

-- The requests after an upload, and its error: nothing was sent; the upload was not begun; it was begun,
-- parts were sent, and it was completed; or an error aborted it, after the parts or after a completion
-- that failed.
pub data Settled : Log → Log → Option UploadError → Type 0 where
  nothing_sent : (log : Log) (e : UploadError) → Settled log log (some e)
  not_begun : (log : Log) (e : UploadError) → Settled log (log ++ initiate ∷ []) (some e)
  completed :
      (log : Log) (upload_id : Text) (bs : List Text) (parts : List CompletePart)
      → length bs ≤ max_parts_count
      → Settled log
          (((log ++ initiate ∷ []) ++ put_requests upload_id 1 bs) ++ complete upload_id parts ∷ [])
          none
  aborted :
      (log : Log) (upload_id : Text) (bs : List Text) (e : UploadError)
      → length bs ≤ max_parts_count
      → Settled log
          (((log ++ initiate ∷ []) ++ put_requests upload_id 1 bs) ++ abort upload_id ∷ [])
          (some e)
  not_completed :
      (log : Log) (upload_id : Text) (bs : List Text) (parts : List CompletePart) (e : UploadError)
      → length bs ≤ max_parts_count
      → Settled log
          ((((log ++ initiate ∷ []) ++ put_requests upload_id 1 bs)
              ++ complete upload_id parts ∷ [])
            ++ abort upload_id ∷ [])
          (some e)

abbrev pub SettledBy : Log → Log × ℕ × Option UploadError → Type 0
SettledBy log r = Settled log r.0 r.2

module _ (server : Server) (bucket_name object_name : Text)
    (good : check_names bucket_name object_name ≡ none) where
  abort_sent :
      (upload_id : Text) (log : Log)
      → abort_multipart_upload server bucket_name object_name upload_id log
        ≡ log ++ abort upload_id ∷ []
  unfolding abort_multipart_upload
  abort_sent upload_id log = rw (good, abort_multipart_upload) refl

  complete_sent :
      (upload_id : Text) (parts : List CompletePart) (log : Log)
      → complete_multipart_upload server bucket_name object_name upload_id parts log ≡ (
        log ++ complete upload_id parts ∷ [],
        completion_error (server.answer_complete (log ++ complete upload_id parts ∷ [])),
      )
  unfolding complete_multipart_upload
  complete_sent upload_id parts log = rw (good, complete_multipart_upload) refl

  -- An error ends the upload with a request that aborts it.
  settle_aborted :
      (upload_id : Text) (n m : ℕ) (log : Log) (e : UploadError)
      → settle server bucket_name object_name upload_id n (log, some (m, e))
        ≡ (log ++ abort upload_id ∷ [], m, some e)
  unfolding settle
  settle_aborted upload_id n m log e = rw abort_sent refl

  pub settle_done :
      (upload_id : Text) (n : ℕ) (log : Log)
      → settle server bucket_name object_name upload_id n (log, none) ≡ (log, n, none)
  unfolding settle
  settle_done upload_id n log = refl

  finish_missing :
      (upload_id : Text) (p : Progress) (e : UploadError)
      → collect_parts p.parts_info 1 (p.part_number - 1) ≡ inl e
      → finish_upload server bucket_name object_name upload_id p ≡ (p.log, some (0, e))
  unfolding finish_upload
  finish_missing upload_id p e missing = rw (missing, finish_upload) refl

  pub finish_sent :
      (upload_id : Text) (p : Progress) (parts : List CompletePart)
      → collect_parts p.parts_info 1 (p.part_number - 1) ≡ inr parts
      → finish_upload server bucket_name object_name upload_id p ≡ (
        p.log ++ complete upload_id (sort_parts parts) ∷ [],
        elim (completion_error
            (server.answer_complete (p.log ++ complete upload_id (sort_parts parts) ∷ []))) [
              | none ↦ none
              | some e ↦ some (p.total_uploaded_size, e)
            ],
      )
  unfolding finish_upload
  finish_sent upload_id p parts all = rw (all, complete_sent, finish_upload) refl

  finish_upload-Settled :
      (log : Log) (upload_id : Text) (bs : List Text) (n : ℕ) (p : Progress)
      → p.log ≡ (log ++ initiate ∷ []) ++ put_requests upload_id 1 bs
      → length bs ≤ max_parts_count
      → SettledBy log (
          settle server bucket_name object_name upload_id n
            (finish_upload server bucket_name object_name upload_id p))
  finish_upload-Settled log upload_id bs n p e few =
      elim (Sum-cases (collect_parts p.parts_info 1 (p.part_number - 1))) [
        | inl (err, missing) ↦
            rw (finish_missing upload_id p err missing, settle_aborted, e)
              (aborted log upload_id bs err few)
        | inr (parts, all) ↦
            rw (finish_sent upload_id p parts all)
              (elim (Option-cases
                (server.answer_complete (p.log ++ complete upload_id (sort_parts parts) ∷ []))) [
                  | inl fine ↦
                      rw (fine, settle_done, e) (completed log upload_id bs (sort_parts parts) few)
                  | inr (err, bad) ↦
                      rw (bad, settle_aborted, e)
                        (not_completed log upload_id bs (sort_parts parts) (response err) few)
                ])
      ]

  after_loop-Settled :
      (log : Log) (upload_id : Text) (bs : List Text) (r : Progress × Option (ℕ × UploadError))
      → r.0.log ≡ (log ++ initiate ∷ []) ++ put_requests upload_id 1 bs
      → length bs ≤ max_parts_count
      → SettledBy log (after_loop server bucket_name object_name upload_id r)
  unfolding after_loop
  after_loop-Settled log upload_id bs (p, none) e few =
      finish_upload-Settled log upload_id bs p.total_uploaded_size p e few
  after_loop-Settled log upload_id bs (p, some (m, err)) e few =
      rw (settle_aborted, e) (aborted log upload_id bs err few)

  upload_parts-Settled :
      (action : ℕ → ReadEnd → Action) (upload_id : Text) (count part_size : ℕ) (reader : Stream)
      (log : Log)
      → count ≤ max_parts_count
      → SettledBy log (
          upload_parts server bucket_name object_name action upload_id count part_size reader
            (log ++ initiate ∷ []))
  unfolding upload_parts
  upload_parts-Settled action upload_id count part_size reader log few =
      let (bs, e, fits) =
        upload_loop-Sends server bucket_name object_name action upload_id part_size count _ in
      after_loop-Settled log upload_id bs _ e (omega arith)

  pub initiate_sent :
      (log : Log)
      → new_upload_id server bucket_name object_name log
        ≡ (log ++ initiate ∷ [], from_server (server.answer_initiate (log ++ initiate ∷ [])))
  unfolding new_upload_id initiate_multipart_upload
  initiate_sent log = rw (good, good, new_upload_id, initiate_multipart_upload) refl

  put_object_parts-Settled :
      (action : ℕ → ReadEnd → Action) (c : ℕ) (reader : Stream) (log : Log)
      → SettledBy log (put_object_parts server bucket_name object_name action c reader log)
  unfolding put_object_parts
  put_object_parts-Settled action c reader log = elim (PartInfo-cases (optimal_part_info none c)) [
    | inl (e, bad) ↦ rw (good, bad, put_object_parts) (nothing_sent log (refused_parts e))
    | inr (inl unset) ↦ rw (good, unset, put_object_parts) (nothing_sent log no_part_size)
    | inr (inr (count, part, last, found)) ↦
        let (few, _) = unknown_size_parts c count part last found in
        elim (Sum-cases (server.answer_initiate (log ++ initiate ∷ []))) [
          | inl (e, bad) ↦
              rw (good, found, initiate_sent, bad, initiate_sent, put_object_parts)
                (not_begun log (response e))
          | inr (upload_id, begun) ↦
              rw (good, found, initiate_sent, begun, initiate_sent, put_object_parts)
                (upload_parts-Settled action upload_id count part reader log few)
        ]
  ]

-- With names that the client accepts, whatever the server answers and the reader gives, both functions
-- that upload a content of unknown size end in one of five ways: nothing was sent and the result is an
-- error; the upload was not begun, an error; it was begun, at most 10000 parts were sent, numbered from
-- 1, and it was completed, without an error; or the parts, or the parts and the completion, were
-- followed by a request that aborts the upload, and the result is an error.
pub put_object_multipart_settles :
    (server : Server) (bucket_name object_name : Text) (c : ℕ) (reader : Stream) (log : Log)
    → check_names bucket_name object_name ≡ none
    → SettledBy log (put_object_multipart_no_stream server bucket_name object_name c reader log)
      × SettledBy log
          (put_object_multipart_stream_no_length server bucket_name object_name c reader log)
unfolding put_object_multipart_no_stream put_object_multipart_stream_no_length
put_object_multipart_settles server bucket_name object_name c reader log good = (
  put_object_parts-Settled server bucket_name object_name good no_stream_action c reader log,
  put_object_parts-Settled server bucket_name object_name good no_length_action c reader log,
)
