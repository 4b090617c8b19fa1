-- ===== src/Upload/Multipart/Upload.antt =====
-- api-put-object-multipart.go: putObjectMultipartNoStream, and api-put-object.go:
-- putObjectMultipartStreamNoLength. The loop runs while the part number is at most the number of
-- parts: `remaining` is the number of parts that are left.
use mefs_sdk_go.Prelude.{
  ℕ, zero, suc, ◌+◌, ◌-◌, List, [], ◌∷◌, ◌==◌, if◌then◌else◌, ltb, leb, length, Option, none, some,
  ◌⊎◌, inl, inr,
}
use mefs_sdk_go.Prelude.Text.{Text}
use mefs_sdk_go.Upload.PartInfo.{info, refused, unspecified, optimal_part_info}
use mefs_sdk_go.Upload.Multipart.Session.{
  UploadError, refused_parts, no_part_size, read_failed, missing_part, CompletePart, Log, Server,
  Stream, ReadEnd, no_error, unexpected_eof, eof, other_error, read_full, check_names,
  new_upload_id, upload_part, complete_multipart_upload, abort_multipart_upload,
}

-- what a round does with what it read
pub data Action : Type 0 where
  stop send send_last : Action
  fail : Text → Action

-- the tests of `rErr` in putObjectMultipartNoStream
unfoldable pub no_stream_action : ℕ → ReadEnd → Action
no_stream_action number eof = stop
no_stream_action number (other_error e) = fail e
no_stream_action number no_error = send
no_stream_action number unexpected_eof = send

-- the tests of `rErr` in putObjectMultipartStreamNoLength: the first part is sent even when it is empty
unfoldable pub no_length_action : ℕ → ReadEnd → Action
no_length_action number eof = if ltb 1 number then stop else send_last
no_length_action number (other_error e) = fail e
no_length_action number no_error = send
no_length_action number unexpected_eof = send

-- `partsInfo`, a map with the numbers of the parts as its keys
unfoldable pub save_part : List (ℕ × CompletePart) → ℕ → CompletePart → List (ℕ × CompletePart)
save_part [] number part = (number, part) ∷ []
save_part ((n, q) ∷ m) number part =
    let rest = save_part m number part in if n == number then (n, part) ∷ m else (n, q) ∷ rest

unfoldable pub find_part : List (ℕ × CompletePart) → ℕ → Option CompletePart
find_part [] number = none
find_part ((n, q) ∷ m) number = if n == number then some q else find_part m number

-- The variables of the loop.
pub record Progress : Type 0 where
  pub reader : Stream
  pub log : Log
  pub part_number : ℕ
  pub parts_info : List (ℕ × CompletePart)
  pub total_uploaded_size : ℕ

-- the updates after a part that was sent
unfoldable pub advanced : Progress → Text → Stream → Log → CompletePart → Progress
unfolding save_part
advanced p body reader' log' part = record {
  reader = reader';
  log = log';
  part_number = p.part_number + 1;
  parts_info = save_part p.parts_info p.part_number part;
  total_uploaded_size = p.total_uploaded_size + length body;
}

-- the loop over the parts `i`, `count` of them, in putting the complete request together
unfoldable pub collect_parts : List (ℕ × CompletePart) → ℕ → ℕ → UploadError ⊎ List CompletePart
unfolding find_part
collect_parts m i zero = inr []
collect_parts m i (suc count) = elim (find_part m i) [
  | none ↦ inl (missing_part i)
  | some part ↦ elim (collect_parts m (i + 1) count) [
    | inl e ↦ inl e
    | inr parts ↦ inr (part ∷ parts)
  ]
]

unfoldable pub insert_part : CompletePart → List CompletePart → List CompletePart
insert_part p [] = p ∷ []
insert_part p (q ∷ l) =
    let rest = insert_part p l in if leb p.part_number q.part_number then p ∷ q ∷ l else q ∷ rest

-- `sort.Sort(completedParts(...))`
unfoldable pub sort_parts : List CompletePart → List CompletePart
unfolding insert_part
sort_parts [] = []
sort_parts (p ∷ l) = insert_part p (sort_parts l)

module _ (server : Server) (bucket_name object_name : Text) where
  -- what follows the answer to a part; an early return is its number of bytes and its error
  unfoldable pub after_part :
      Progress
      → Text
      → Stream
      → (Progress → Progress × Option (ℕ × UploadError))
      → Log × (UploadError ⊎ CompletePart)
      → Progress × Option (ℕ × UploadError)
  after_part p body reader' next (log', inl e) =
      (record p { reader = reader'; log = log' }, some (p.total_uploaded_size, e))
  after_part p body reader' next (log', inr part) = next (advanced p body reader' log' part)

  -- the body of the loop, after the read; `next` is the rest of the loop
  unfoldable pub round :
      (ℕ → ReadEnd → Action)
      → Text
      → Progress
      → (Progress → Progress × Option (ℕ × UploadError))
      → Text × ReadEnd × Stream
      → Progress × Option (ℕ × UploadError)
  round action upload_id p next (body, end, reader') = elim (action p.part_number end) [
    | stop ↦ (record p { reader = reader' }, none)
    | fail e ↦ (record p { reader = reader' }, some (0, read_failed e))
    | send ↦
        after_part p body reader' next
          (upload_part server bucket_name object_name upload_id body p.part_number p.log)
    | send_last ↦
        after_part p body reader' (λ p'. (p', none))
          (upload_part server bucket_name object_name upload_id body p.part_number p.log)
  ]

  unfoldable pub upload_loop :
      (ℕ → ReadEnd → Action) → Text → ℕ → ℕ → Progress → Progress × Option (ℕ × UploadError)
  upload_loop action upload_id part_size zero p = (p, none)
  upload_loop action upload_id part_size (suc remaining) p =
      round action upload_id p (upload_loop action upload_id part_size remaining)
        (read_full part_size p.reader)

  -- what follows the loop: the parts are collected, sorted and completed
  unfoldable pub finish_upload : Text → Progress → Log × Option (ℕ × UploadError)
  finish_upload upload_id p = elim (collect_parts p.parts_info 1 (p.part_number - 1)) [
    | inl e ↦ (p.log, some (0, e))
    | inr parts ↦
        let (log', failed) =
          complete_multipart_upload server bucket_name object_name upload_id (sort_parts parts)
            p.log in
        (log', elim failed [ none ↦ none | some e ↦ some (p.total_uploaded_size, e) ])
  ]

  -- the deferred function: an error aborts the upload
  unfoldable pub settle : Text → ℕ → Log × Option (ℕ × UploadError) → Log × ℕ × Option UploadError
  settle upload_id n (log, none) = (log, n, none)
  settle upload_id n (log, some (m, e)) =
      (abort_multipart_upload server bucket_name object_name upload_id log, m, some e)

  -- an early return, or what follows the loop, and then the deferred function
  unfoldable pub after_loop :
      Text → Progress × Option (ℕ × UploadError) → Log × ℕ × Option UploadError
  after_loop upload_id (p, some early) = settle upload_id p.total_uploaded_size (p.log, some early)
  after_loop upload_id (p, none) =
      settle upload_id p.total_uploaded_size (finish_upload upload_id p)

  -- from the new upload on
  unfoldable pub upload_parts :
      (ℕ → ReadEnd → Action) → Text → ℕ → ℕ → Stream → Log → Log × ℕ × Option UploadError
  upload_parts action upload_id count part_size reader log = after_loop upload_id (
      upload_loop action upload_id part_size count (record {
        reader = reader;
        log = log;
        part_number = 1;
        parts_info = [];
        total_uploaded_size = 0;
      }))

  -- both functions, which differ in their tests of `rErr`
  unfoldable pub put_object_parts :
      (ℕ → ReadEnd → Action) → ℕ → Stream → Log → Log × ℕ × Option UploadError
  put_object_parts action configured_part_size reader log =
      elim (check_names bucket_name object_name) [
        | some e ↦ (log, 0, some e)
        | none ↦ elim (optimal_part_info none configured_part_size) [
          | refused e ↦ (log, 0, some (refused_parts e))
          | unspecified ↦ (log, 0, some no_part_size)
          | info count part_size last ↦
              let (log', answer) = new_upload_id server bucket_name object_name log in
              elim answer [
                | inl e ↦ (log', 0, some e)
                | inr upload_id ↦ upload_parts action upload_id count part_size reader log'
              ]
        ]
      ]

  unfoldable pub put_object_multipart_no_stream : ℕ → Stream → Log → Log × ℕ × Option UploadError
  put_object_multipart_no_stream = put_object_parts no_stream_action

  unfoldable pub put_object_multipart_stream_no_length :
      ℕ → Stream → Log → Log × ℕ × Option UploadError
  put_object_multipart_stream_no_length = put_object_parts no_length_action
