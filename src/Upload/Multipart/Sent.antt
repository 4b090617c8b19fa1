-- ===== src/Upload/Multipart/Sent.antt =====
-- api-put-object-multipart.go: the requests that the loop sends.
use mathlib.Core.List.{append_assoc}
use mefs_sdk_go.Prelude.{
  ℕ, zero, suc, ◌+◌, ◌≤◌, List, [], ◌∷◌, ◌++◌, ◌==◌, ltb, length, Option, none, ◌⊎◌, inl, inr, ◌≡◌,
  refl, sym, ap, ◌∙◌, arith, Bool-cases, Option-cases, Sum-cases,
}
use mefs_sdk_go.Prelude.Text.{Text}
use mefs_sdk_go.Upload.Constants.{max_part_size}
use mefs_sdk_go.Upload.Multipart.Session.{
  UploadError, part_too_large, part_number_zero, no_upload_id, CompletePart, put_part, Log, Server,
  Stream, ReadEnd, check_names, upload_part, object_part,
}
use mefs_sdk_go.Upload.Multipart.Upload.{
  Action, stop, send, send_last, fail, Progress, advanced, after_part, round, upload_loop,
}

-- The requests of parts with the given bodies, numbered one after the other.
abbrev pub put_requests : Text → ℕ → List Text → Log
put_requests upload_id number [] = []
put_requests upload_id number (b ∷ bs) =
    put_part upload_id number b ∷ put_requests upload_id (number + 1) bs

pub Action-cases :
    (a : Action) → (a ≡ stop) ⊎ (((e : Text) × (a ≡ fail e)) ⊎ ((a ≡ send) ⊎ (a ≡ send_last)))
Action-cases stop = inl refl
Action-cases (fail e) = inr (inl (e, refl))
Action-cases send = inr (inr (inl refl))
Action-cases send_last = inr (inr (inr refl))

-- `uploadPart` refuses and sends nothing, or it sends the request and reads the answer.
pub upload_part_cases :
    (server : Server) (bucket_name object_name upload_id body : Text) (number : ℕ) (log : Log)
    → ((e : UploadError) × (upload_part server bucket_name object_name upload_id body number log
          ≡ (log, inl e)))
      ⊎ (upload_part server bucket_name object_name upload_id body number log ≡ (
        log ++ put_part upload_id number body ∷ [],
        object_part server bucket_name object_name number
            (server.answer_part (log ++ put_part upload_id number body ∷ [])),
      ))
unfolding upload_part
upload_part_cases server bucket_name object_name upload_id body number log =
    elim (Option-cases (check_names bucket_name object_name)) [
      | inr (e, bad) ↦ inl (e, rw (bad, upload_part) refl)
      | inl good ↦ elim (Bool-cases (ltb max_part_size (length body))) [
        | inl large ↦ inl (part_too_large (length body), rw (good, large, upload_part) refl)
        | inr fits ↦ elim (Bool-cases (number == 0)) [
          | inl z ↦ inl (part_number_zero, rw (good, fits, z, upload_part) refl)
          | inr pos ↦ elim (Bool-cases (length upload_id == 0)) [
            | inl empty ↦ inl (no_upload_id, rw (good, fits, pos, empty, upload_part) refl)
            | inr there ↦ inr (rw (good, fits, pos, there, upload_part) refl)
          ]
        ]
      ]
    ]

-- The log has grown by at most `count` requests of parts, numbered from `number` on.
abbrev pub Sends : Text → ℕ → ℕ → Log → Log → Type 0
Sends upload_id number count log log' =
    (bs : List Text) × (log' ≡ log ++ put_requests upload_id number bs) × (length bs ≤ count)

append_nil : {A : Type 0} (l : List A) → l ++ [] ≡ l
append_nil [] = refl
append_nil (x ∷ l) = ap (λ r. x ∷ r) (append_nil l)

Sends-nothing :
    (upload_id : Text) (number count : ℕ) (log : Log) → Sends upload_id number count log log
Sends-nothing upload_id number count log = ([], sym (append_nil log), omega arith)

Sends-more :
    (upload_id body : Text) (number count : ℕ) (log log' : Log)
    → Sends upload_id (number + 1) count (log ++ put_part upload_id number body ∷ []) log'
    → Sends upload_id number (suc count) log log'
Sends-more upload_id body number count log log' (bs, e, h) =
    (body ∷ bs, e ∙ append_assoc log (put_part upload_id number body ∷ []) _, omega arith)

-- What follows the answer to a part that was read.
abbrev pub Answered : Server → Text → Text → Text → Text → ℕ → Log → Type 0
Answered server bucket_name object_name upload_id body number log =
    ((e : UploadError) × (upload_part server bucket_name object_name upload_id body number log
        ≡ (log, inl e)))
    ⊎ (((e : UploadError) × (upload_part server bucket_name object_name upload_id body number log
            ≡ (log ++ put_part upload_id number body ∷ [], inl e)))
        ⊎ ((part : CompletePart) × (upload_part server bucket_name object_name upload_id body number
                log
              ≡ (log ++ put_part upload_id number body ∷ [], inr part))))

answered :
    (server : Server) (bucket_name object_name upload_id body : Text) (number : ℕ) (log : Log)
    → Answered server bucket_name object_name upload_id body number log
answered server bucket_name object_name upload_id body number log =
    elim (upload_part_cases server bucket_name object_name upload_id body number log) [
      | inl refused ↦ inl refused
      | inr sent ↦
          elim (Sum-cases (
            object_part server bucket_name object_name number
              (server.answer_part (log ++ put_part upload_id number body ∷ [])))) [
                | inl (e, bad) ↦
                    inr (
                      inl (e, sent ∙ ap (λ r. (log ++ put_part upload_id number body ∷ [], r)) bad))
                | inr (part, good) ↦ inr (
                    inr
                      (part, sent ∙ ap (λ r. (log ++ put_part upload_id number body ∷ [], r)) good))
              ]
    ]

module _ (server : Server) (bucket_name object_name : Text) (action : ℕ → ReadEnd → Action)
    (upload_id : Text) where
  after_part-Sends :
      (p : Progress) (body : Text) (reader' : Stream)
      (next : Progress → Progress × Option (ℕ × UploadError)) (count : ℕ)
      → ((q : Progress) → Sends upload_id q.part_number count q.log (next q).0.log)
      → Sends upload_id p.part_number
          (suc count)
          p.log
          (after_part server bucket_name object_name p body reader' next
            (upload_part server bucket_name object_name upload_id body p.part_number p.log)).0.log
  unfolding after_part advanced
  after_part-Sends p body reader' next count more =
      let one =
        Sends-more upload_id body p.part_number count p.log
          (p.log ++ put_part upload_id p.part_number body ∷ [])
          (Sends-nothing upload_id (p.part_number + 1) count
            (p.log ++ put_part upload_id p.part_number body ∷ [])) in
      elim (answered server bucket_name object_name upload_id body p.part_number p.log) [
        | inl (er, refused) ↦ rw refused (Sends-nothing upload_id p.part_number (suc count) p.log)
        | inr (inl (er, bad)) ↦ rw bad one
        | inr (inr (part, good)) ↦
            rw good (Sends-more upload_id body p.part_number count p.log _ (more _))
      ]

  round-Sends :
      (p : Progress) (next : Progress → Progress × Option (ℕ × UploadError)) (count : ℕ)
      (body : Text) (end : ReadEnd) (reader' : Stream)
      → ((q : Progress) → Sends upload_id q.part_number count q.log (next q).0.log)
      → Sends upload_id p.part_number
          (suc count)
          p.log
          (round server bucket_name object_name action upload_id p next (body, end, reader')).0.log
  unfolding round
  round-Sends p next count body end reader' more = elim (Action-cases (action p.part_number end)) [
    | inl e ↦ rw (e, round) (Sends-nothing upload_id p.part_number (suc count) p.log)
    | inr (inl (msg, e)) ↦ rw (e, round) (Sends-nothing upload_id p.part_number (suc count) p.log)
    | inr (inr (inl e)) ↦ rw (e, round) (after_part-Sends p body reader' next count more)
    | inr (inr (inr e)) ↦
        rw (e, round)
          (after_part-Sends p body reader' (λ q. (q, none)) count
            (λ q. Sends-nothing upload_id q.part_number count q.log))
  ]

  -- The loop sends at most as many parts as it has rounds.
  pub upload_loop-Sends :
      (part_size count : ℕ) (p : Progress)
      → Sends upload_id p.part_number count p.log
          (upload_loop server bucket_name object_name action upload_id part_size count p).0.log
  unfolding upload_loop
  upload_loop-Sends part_size zero p = Sends-nothing upload_id p.part_number 0 p.log
  upload_loop-Sends part_size (suc count) p =
      round-Sends p _ count _ _ _ (upload_loop-Sends part_size count)
