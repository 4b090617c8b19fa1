-- ===== src/Upload/Multipart/Accepted.antt =====
-- api-put-object-multipart.go, api-put-object.go: both functions, when the server accepts the upload.
use mefs_sdk_go.Prelude.{
  ℕ, zero, suc, ◌+◌, ◌*◌, ◌≤◌, ◌<◌, List, [], ◌∷◌, ◌++◌, length, take, drop, Option, none, ◌⊎◌, inl,
  inr, ◌≡◌, ◌≢◌, refl, sym, ap, ◌∙◌, arith,
}
use mefs_sdk_go.Prelude.Text.{Text}
use mefs_sdk_go.Upload.Constants.{max_part_size, max_multipart_put_object_size}
use mefs_sdk_go.Upload.PartInfo.{info, optimal_part_info}
use mefs_sdk_go.Upload.Multipart.Session.{
  UploadError, initiate, complete, Log, Server, ReadEnd, no_error, unexpected_eof, eof, check_names,
}
use mefs_sdk_go.Upload.Multipart.Upload.{
  Action, stop, send, send_last, Progress, advanced, save_part, after_part, round, no_stream_action,
  no_length_action, upload_loop, finish_upload, put_object_parts, put_object_multipart_no_stream,
  put_object_multipart_stream_no_length,
}
use mefs_sdk_go.Upload.Multipart.Sent.{put_requests}
use mefs_sdk_go.Upload.Multipart.Parts.{
  collect_parts-save_all, completed_parts, length-completed_parts,
}
use mefs_sdk_go.Upload.Multipart.Rounds.{
  IsCut, ended, at, finished, loop_whole, part_sent, read_nothing,
}
use mefs_sdk_go.Upload.Multipart.Whole.{
  unknown_size_capacity, upload_log, finish_whole, upload_parts_whole, put_object_parts_whole,
}

-- The bodies put together again.
abbrev pub concat : List Text → Text
concat [] = []
concat (b ∷ bs) = b ++ concat bs

take-drop : (n : ℕ) (s : Text) → take n s ++ drop n s ≡ s
take-drop zero s = refl
take-drop (suc n) [] = refl
take-drop (suc n) (a ∷ s) = ap (λ t. a ∷ t) (take-drop n s)

concat-IsCut : (part : ℕ) (bs : List Text) (s : Text) → IsCut part bs s → concat bs ≡ s
concat-IsCut part [] s cut = sym cut
concat-IsCut part (b ∷ bs) s (_, e, cut) =
    ap (λ x. x ++ concat bs) e
    ∙ ap (λ x. take part s ++ x) (concat-IsCut part bs (drop part s) cut)
    ∙ take-drop part s

-- The bodies are the content, cut into parts.
abbrev pub Whole : ℕ → List Text → Text → Type 0
Whole part bs s = IsCut part bs s × (concat bs ≡ s)

-- As before, or there is no content and one part without bytes.
abbrev pub WholeOrEmpty : ℕ → List Text → Text → Type 0
WholeOrEmpty part bs s = Whole part bs s ⊎ ((s ≡ []) × (bs ≡ [] ∷ []))

count_pos : (count part : ℕ) → max_multipart_put_object_size ≤ count * part → 0 < count
count_pos zero part h = absurd (omega arith)
count_pos (suc n) part h = omega arith

no_stream_sends :
    (k : ℕ) → (no_stream_action k no_error ≡ send) × (no_stream_action k unexpected_eof ≡ send)
unfolding no_stream_action
no_stream_sends k = (refl, refl)

no_stream_stops : (k : ℕ) → no_stream_action k eof ≡ stop
unfolding no_stream_action
no_stream_stops k = refl

no_length_sends :
    (k : ℕ) → (no_length_action k no_error ≡ send) × (no_length_action k unexpected_eof ≡ send)
unfolding no_length_action
no_length_sends k = (refl, refl)

no_length_stops : (k : ℕ) → 1 < k → no_length_action k eof ≡ stop
unfolding no_length_action
no_length_stops k h = ground arith

no_length_first : no_length_action 1 eof ≡ send_last
unfolding no_length_action
no_length_first = refl

module _ (server : Server) (bucket_name object_name upload_id : Text) (tag : Log → Text)
    (good : check_names bucket_name object_name ≡ none) (named : length upload_id ≢ 0)
    (accepts : (log : Log) → server.answer_part log ≡ inr (tag log))
    (completes : (log : Log) → server.answer_complete log ≡ none) where
  finished_whole :
      (bs : List Text) (s : Text) (log : Log)
      → finish_upload server bucket_name object_name upload_id
          (finished tag upload_id bs s log 1 [] 0)
        ≡ (
          (log ++ put_requests upload_id 1 bs)
              ++ complete upload_id (completed_parts tag upload_id 1 log bs) ∷ [],
          none,
        )
  finished_whole bs s log =
      let qs = completed_parts tag upload_id 1 log bs in
      let number : length qs ≡ length bs = length-completed_parts tag upload_id 1 log bs in
      finish_whole server bucket_name object_name upload_id tag good completes bs 0 log
        (finished tag upload_id bs s log 1 [] 0) refl refl
        (rw (← number) (collect_parts-save_all [] 1 qs))

  -- What both functions do once the loop has sent the bodies.
  parts_whole :
      (action : ℕ → ReadEnd → Action) (c count part last : ℕ) (bs : List Text) (s : Text)
      (log : Log)
      → optimal_part_info none c ≡ info count part last
      → server.answer_initiate (log ++ initiate ∷ []) ≡ inr upload_id
      → upload_loop server bucket_name object_name action upload_id part count
          (at s (log ++ initiate ∷ []) 1 [] 0)
        ≡ (finished tag upload_id bs s (log ++ initiate ∷ []) 1 [] 0, none)
      → put_object_parts server bucket_name object_name action c (ended s) log
        ≡ (upload_log tag upload_id log bs, length s, none)
  parts_whole action c count part last bs s log found begun loop =
      let total : 0 + length s ≡ length s = omega arith in
      put_object_parts_whole server bucket_name object_name upload_id tag good completes action c
        count part last (ended s) log (upload_log tag upload_id log bs) (0 + length s) found begun
        (upload_parts_whole server bucket_name object_name upload_id tag good completes action count
          part (ended s) (log ++ initiate ∷ []) (upload_log tag upload_id log bs) _ loop
          (finished_whole bs s (log ++ initiate ∷ [])))
      ∙ ap (λ n. (upload_log tag upload_id log bs, n, none)) total

  module _ (part : ℕ) (some_size : 0 < part) (fits : part ≤ max_part_size) where
    last_round :
        (next : Progress → Progress × Option (ℕ × UploadError)) (log : Log)
        → round server bucket_name object_name no_length_action upload_id
            (at [] log 1 [] 0)
            next
            ([], eof, ended [])
          ≡ (finished tag upload_id ([] ∷ []) [] log 1 [] 0, none)
    unfolding round after_part advanced save_part
    last_round next log =
        rw
          (
            no_length_first,
            part_sent server bucket_name object_name upload_id tag part good named accepts some_size
                fits [] 1 log (omega arith) (omega arith),
            round,
          )
          refl

    -- Without content the first round sends the one part.
    empty_loop :
        (count : ℕ) (log : Log)
        → 0 < count
        → upload_loop server bucket_name object_name no_length_action upload_id part count
            (at [] log 1 [] 0)
          ≡ (finished tag upload_id ([] ∷ []) [] log 1 [] 0, none)
    unfolding upload_loop
    empty_loop zero log h = absurd (omega arith)
    empty_loop (suc n) log h =
        let next = upload_loop server bucket_name object_name no_length_action upload_id part n in
        ap (round server bucket_name object_name no_length_action upload_id (at [] log 1 [] 0) next)
          (read_nothing part some_size)
        ∙ last_round next log

    no_stream_loop :
        (count : ℕ) (s : Text) (log : Log)
        → length s ≤ count * part
        → (bs : List Text) × Whole part bs s
          × (upload_loop server bucket_name object_name no_stream_action upload_id part count
                (at s log 1 [] 0)
              ≡ (finished tag upload_id bs s log 1 [] 0, none))
    no_stream_loop count s log h =
        let (bs, cut, e) =
          loop_whole server bucket_name object_name upload_id tag part good named accepts some_size
            fits no_stream_action no_stream_sends count s log 1 [] 0 (omega arith)
            (λ j _. no_stream_stops j) h in
        (bs, (cut, concat-IsCut part bs s cut), e)

    no_length_loop :
        (count : ℕ) (s : Text) (log : Log)
        → 0 < count
        → length s ≤ count * part
        → (bs : List Text) × WholeOrEmpty part bs s
          × (upload_loop server bucket_name object_name no_length_action upload_id part count
                (at s log 1 [] 0)
              ≡ (finished tag upload_id bs s log 1 [] 0, none))
    no_length_loop count [] log some_round h =
        ([] ∷ [], inr (refl, refl), empty_loop count log some_round)
    no_length_loop count (a ∷ s) log some_round h =
        let stops : (j : ℕ) → (1 < j) ⊎ ((j ≡ 1) × ((a ∷ s) ≡ [])) → no_length_action j eof ≡ stop =
          λ j c.
            no_length_stops j
              (elim c [ inl past ↦ past | inr (_, none_left) ↦ absurd (cc none_left) ]) in
        let (bs, cut, e) =
          loop_whole server bucket_name object_name upload_id tag part good named accepts some_size
            fits no_length_action no_length_sends count (a ∷ s) log 1 [] 0 (omega arith) stops h in
        (bs, inl (cut, concat-IsCut part bs (a ∷ s) cut), e)

-- With names that the client accepts, a server that begins the upload under an id that is not empty,
-- accepts every part and completes it, and a reader that gives at most 5 TiB and then io.EOF, both
-- functions that upload a content of unknown size return its length and no error. They begin the
-- upload, send parts numbered from 1, and complete it with the tags of the answers, in that order, and
-- send nothing else. The bodies of the parts are the content, cut into parts of the part size, of which
-- the last may be shorter; only putObjectMultipartStreamNoLength sends one empty part when there is no
-- content, while putObjectMultipartNoStream then completes an upload without parts.
pub put_object_multipart_accepted :
    (server : Server) (bucket_name object_name upload_id : Text) (tag : Log → Text)
    (c count part last : ℕ) (s : Text) (log : Log)
    → check_names bucket_name object_name ≡ none
    → length upload_id ≢ 0
    → ((l : Log) → server.answer_part l ≡ inr (tag l))
    → ((l : Log) → server.answer_complete l ≡ none)
    → server.answer_initiate (log ++ initiate ∷ []) ≡ inr upload_id
    → optimal_part_info none c ≡ info count part last
    → length s ≤ max_multipart_put_object_size
    → ((bs : List Text) × Whole part bs s
        × (put_object_multipart_no_stream server bucket_name object_name c (ended s) log
            ≡ (upload_log tag upload_id log bs, length s, none)))
      × ((bs : List Text) × WholeOrEmpty part bs s
          × (put_object_multipart_stream_no_length server bucket_name object_name c (ended s) log
              ≡ (upload_log tag upload_id log bs, length s, none)))
unfolding put_object_multipart_no_stream put_object_multipart_stream_no_length
put_object_multipart_accepted server bucket_name object_name upload_id tag c count part last s log
      good named accepts completes begun found fits_all =
    let (some_size, fits, room) = unknown_size_capacity c count part last found in
    let enough : length s ≤ count * part = omega arith in
    let some_round : 0 < count = count_pos count part room in
    let (bs, whole, e) =
      no_stream_loop server bucket_name object_name upload_id tag good named accepts completes part
        some_size fits count s (log ++ initiate ∷ []) enough in
    let (bs', whole', e') =
      no_length_loop server bucket_name object_name upload_id tag good named accepts completes part
        some_size fits count s (log ++ initiate ∷ []) some_round enough in
    (
      (
        bs,
        whole,
        parts_whole server bucket_name object_name upload_id tag good named accepts completes
            no_stream_action c count part last bs s log found begun e,
      ),
      (
        bs',
        whole',
        parts_whole server bucket_name object_name upload_id tag good named accepts completes
            no_length_action c count part last bs' s log found begun e',
      ),
    )
