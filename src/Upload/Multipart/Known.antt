-- ===== src/Upload/Multipart/Known.antt =====
-- api-put-object-streaming.go: putObjectMultipartStreamNoChecksum, an upload of a known size from a plain
-- reader, part after part. The size is not negative. A part is what the reader gives of its size; when
-- that is less, net/http fails the request, which is an answer of the server here.
use mefs_sdk_go.Prelude.{
  ℕ, zero, suc, ◌+◌, ◌-◌, ◌*◌, ◌<◌, ◌&&◌, not, [], take, drop, ◌==◌, ltb, if◌then◌else◌, Option,
  none, some, ◌⊎◌, inl, inr, ◌≡◌, refl, ap, subst, arith, Bool-cases, ==_refl,
}
use native.Mathlib.Nat.{suc-mul}
use mefs_sdk_go.Prelude.Text.{Text}
use mefs_sdk_go.Upload.PartInfo.{info, refused, unspecified, optimal_part_info}
use mefs_sdk_go.Upload.PartInfo.Bounds.{Covers}
use mefs_sdk_go.Upload.Multipart.Session.{
  UploadError, refused_parts, no_part_size, err_unexpected_eof, CompletePart, Log, Server, Stream,
  check_names, new_upload_id, upload_part,
}
use mefs_sdk_go.Upload.Multipart.Upload.{Progress, save_part, finish_upload, settle}

-- the size of the part to send, `partSize`
unfoldable pub known_part_size : ℕ → ℕ → ℕ → ℕ → ℕ
known_part_size count part last number = if number == count then last else part

-- `io.LimitReader`, once the request has read it
unfoldable pub rest_of : ℕ → Stream → Stream
rest_of n r = record r { content = drop n r.content }

-- the updates after a part that was sent
unfoldable pub known_advanced : Progress → ℕ → Log → CompletePart → Progress
known_advanced p size log' part = record {
  reader = rest_of size p.reader;
  log = log';
  part_number = p.part_number + 1;
  parts_info = save_part p.parts_info p.part_number part;
  total_uploaded_size = p.total_uploaded_size + size;
}

-- what follows the answer to a part
unfoldable pub after_known_part :
    Progress
    → ℕ
    → (Progress → Progress × Option (ℕ × UploadError))
    → Log × (UploadError ⊎ CompletePart)
    → Progress × Option (ℕ × UploadError)
after_known_part p size next (log', inl e) =
    (record p { reader = rest_of size p.reader; log = log' }, some (p.total_uploaded_size, e))
after_known_part p size next (log', inr part) = next (known_advanced p size log' part)

module _ (server : Server) (bucket_name object_name : Text) where
  -- the loop over the parts, `remaining` of them
  unfoldable pub known_loop : Text → ℕ → ℕ → ℕ → ℕ → Progress → Progress × Option (ℕ × UploadError)
  known_loop upload_id count part last zero p = (p, none)
  known_loop upload_id count part last (suc remaining) p =
      let size = known_part_size count part last p.part_number in
      after_known_part p size (known_loop upload_id count part last remaining) (
        upload_part server bucket_name object_name upload_id (take size p.reader.content)
          p.part_number p.log)

  -- an early return, or the test of the size and the completion, and then the deferred function
  unfoldable pub after_known_loop :
      Text → ℕ → Progress × Option (ℕ × UploadError) → Log × ℕ × Option UploadError
  after_known_loop upload_id size (p, some early) =
      settle server bucket_name object_name upload_id p.total_uploaded_size (p.log, some early)
  after_known_loop upload_id size (p, none) =
      if ltb 0 size && not (p.total_uploaded_size == size)
      then settle server bucket_name object_name upload_id p.total_uploaded_size
          (p.log, some (p.total_uploaded_size, err_unexpected_eof p.total_uploaded_size size))
      else settle server bucket_name object_name upload_id p.total_uploaded_size
          (finish_upload server bucket_name object_name upload_id p)

  unfoldable pub put_object_multipart_stream_no_checksum :
      ℕ → ℕ → Stream → Log → Log × ℕ × Option UploadError
  put_object_multipart_stream_no_checksum configured_part_size size reader log =
      elim (check_names bucket_name object_name) [
        | some e ↦ (log, 0, some e)
        | none ↦ elim (optimal_part_info (some size) configured_part_size) [
          | refused e ↦ (log, 0, some (refused_parts e))
          | unspecified ↦ (log, 0, some no_part_size)
          | info count part last ↦
              let (log', answer) = new_upload_id server bucket_name object_name log in
              elim answer [
                | inl e ↦ (log', 0, some e)
                | inr upload_id ↦ after_known_loop upload_id size (
                    known_loop upload_id count part last count (record {
                      reader = reader;
                      log = log';
                      part_number = 1;
                      parts_info = [];
                      total_uploaded_size = 0;
                    }))
              ]
        ]
      ]

-- The sizes of the last `n` parts.
abbrev last_sizes : ℕ → ℕ → ℕ → ℕ
last_sizes part last zero = 0
last_sizes part last (suc n) = n * part + last

-- The loop ends early, or it has sent a part for each round and counted the sizes of all of them.
record HasSent (count part last n : ℕ) (p q : Progress) : Type 0 where
  pub all_numbers : q.part_number ≡ p.part_number + n
  pub all_sizes : q.total_uploaded_size ≡ p.total_uploaded_size + last_sizes part last n

abbrev SentOr : ℕ → ℕ → ℕ → ℕ → Progress → Progress × Option (ℕ × UploadError) → Type 0
SentOr count part last n p (q, none) = HasSent count part last n p q
SentOr count part last n p (q, some early) = Unit

SentOr-suc :
    (count part last n : ℕ) (p p' : Progress) (r : Progress × Option (ℕ × UploadError))
    → p.part_number + suc n ≡ count + 1
    → p'.part_number ≡ p.part_number + 1
    → p'.total_uploaded_size ≡ p.total_uploaded_size + known_part_size count part last p.part_number
    → SentOr count part last n p' r
    → SentOr count part last (suc n) p r
unfolding known_part_size
SentOr-suc count part last n p p' (q, some early) e number size h = tt
SentOr-suc count part last zero p p' (q, none) e number size h = record {
  all_numbers = omega (arith, h.all_numbers, number);
  all_sizes = let more = h.all_sizes in ground (arith, more, size);
}
SentOr-suc count part last (suc n) p p' (q, none) e number size h = record {
  all_numbers = omega (arith, h.all_numbers, number);
  all_sizes = let more = h.all_sizes in ground (arith, more, size, suc-mul n part);
}

after_known_part-Sent :
    (count part last n : ℕ) (p : Progress) (next : Progress → Progress × Option (ℕ × UploadError))
    (answer : Log × (UploadError ⊎ CompletePart))
    → p.part_number + suc n ≡ count + 1
    → ((q : Progress) → q.part_number ≡ p.part_number + 1 → SentOr count part last n q (next q))
    → SentOr count part last
        (suc n)
        p
        (after_known_part p (known_part_size count part last p.part_number) next answer)
unfolding after_known_part known_advanced
after_known_part-Sent count part last n p next (log', inl er) e more = tt
after_known_part-Sent count part last n p next (log', inr c) e more =
    SentOr-suc count part last n p
      (known_advanced p (known_part_size count part last p.part_number) log' c)
      (next (known_advanced p (known_part_size count part last p.part_number) log' c)) e refl refl
      (more _ refl)

known_loop-Sent :
    (server : Server) (b o upload_id : Text) (count part last n : ℕ) (p : Progress)
    → p.part_number + n ≡ count + 1
    → SentOr count part last n p (known_loop server b o upload_id count part last n p)
unfolding known_loop
known_loop-Sent server b o upload_id count part last zero p e = record {
  all_numbers = omega arith;
  all_sizes = omega arith;
}
known_loop-Sent server b o upload_id count part last (suc n) p e =
    after_known_part-Sent count part last n p (known_loop server b o upload_id count part last n) _
      e (λ q next. known_loop-Sent server b o upload_id count part last n q (omega arith))

-- A loop over part sizes that cover an object ends early, or the sizes come to the size of the object,
-- so that the test for an early end of the data passes and the function ends as the completion does.
pub after_known_loop-Covers :
    (server : Server) (b o upload_id : Text) (size count part last : ℕ) (p q : Progress)
    → 0 < size
    → Covers size count part last
    → p.part_number ≡ 1
    → p.total_uploaded_size ≡ 0
    → known_loop server b o upload_id count part last count p ≡ (q, none)
    → after_known_loop server b o upload_id size (q, none)
      ≡ settle server b o upload_id size (finish_upload server b o upload_id q)
unfolding after_known_loop
after_known_loop-Covers server b o upload_id size count part last p q pos covers first empty e =
    let sent : SentOr count part last count p (q, none) =
      subst (SentOr count part last count p) e
        (known_loop-Sent server b o upload_id count part last count p (omega arith)) in
    let some_parts : suc (count - 1) ≡ count = omega (arith, covers.some_part) in
    let whole : q.total_uploaded_size ≡ size =
      omega (arith, sent.all_sizes, empty, ap (last_sizes part last) some_parts, covers.total) in
    elim (Bool-cases (ltb 0 size)) [
      | inl some_size ↦ rw (whole, some_size, ==_refl size, after_known_loop) refl
      | inr no_size ↦ rw (whole, no_size, after_known_loop) refl
    ]
