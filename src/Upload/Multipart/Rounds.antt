-- ===== src/Upload/Multipart/Rounds.antt =====
-- api-put-object-multipart.go, api-put-object.go: the rounds of the loop when the server takes the parts.
use mathlib.Core.List.{append_assoc}
use mefs_sdk_go.Prelude.{
  ℕ, zero, suc, ◌+◌, ◌*◌, ◌≤◌, ◌<◌, false, List, [], ◌∷◌, ◌++◌, ◌==◌, ltb, leb, length, take, drop,
  take_all, drop_all, length-drop, length-take-drop, Option, none, ◌⊎◌, inl, inr, ◌≡◌, ◌≢◌, refl,
  sym, ap, ◌∙◌, arith, Bool-cases,
}
use mefs_sdk_go.Prelude.Text.{Text}
use mefs_sdk_go.Upload.Constants.{max_part_size}
use mefs_sdk_go.Upload.Multipart.Session.{
  UploadError, put_part, CompletePart, Log, Server, Stream, ReadEnd, no_error, unexpected_eof, eof,
  read_full, check_names, upload_part, object_part, trim_quotes,
}
use mefs_sdk_go.Upload.Multipart.Upload.{
  Action, stop, send, Progress, advanced, after_part, round, save_part, upload_loop,
}
use mefs_sdk_go.Upload.Multipart.Sent.{put_requests}
use mefs_sdk_go.Upload.Multipart.Parts.{save_all, completed_parts}

-- The bodies are a content cut into pieces: each piece is not empty and is what the content starts
-- with, as long as the part size when there is enough of it.
abbrev pub IsCut : ℕ → List Text → Text → Type 0
IsCut part [] s = s ≡ []
IsCut part (b ∷ bs) s = (0 < length s) × (b ≡ take part s) × IsCut part bs (drop part s)

abbrev pub ended : Text → Stream
ended s = record { content = s; failure = none }

pub append_nil : {A : Type 0} (l : List A) → l ++ [] ≡ l
append_nil [] = refl
append_nil (x ∷ l) = ap (λ r. x ∷ r) (append_nil l)

drop_fewer : (part n : ℕ) (s : Text) → length s ≤ suc n * part → length (drop part s) ≤ n * part
drop_fewer part n s h = elim (Bool-cases (leb part (length s))) [
  | inl e ↦
      let whole : part + length (drop part s) ≡ length s = length-drop part s (ground arith) in
      omega arith
  | inr f ↦ rw (drop_all part s (ground arith)) (omega arith)
]

pub length_zero : {A : Type 0} (l : List A) → length l ≡ 0 → l ≡ []
length_zero [] h = refl
length_zero (x ∷ l) h = absurd (omega arith)

-- What is read from a reader that ends with io.EOF.
read_some :
    (part : ℕ) (s : Text)
    → 0 < length s
    → (read_full part (ended s) ≡ (take part s, no_error, ended (drop part s)))
      ⊎ (read_full part (ended s) ≡ (take part s, unexpected_eof, ended (drop part s)))
unfolding read_full
read_some part s h = elim (Bool-cases (leb part (length s))) [
  | inl e ↦ inl (rw e refl)
  | inr f ↦
      let more : (length s == 0) ≡ false = ground arith in
      inr (rw (f, more, take_all part s (ground arith), drop_all part s (ground arith)) refl)
]

pub read_nothing : (part : ℕ) → 0 < part → read_full part (ended []) ≡ ([], eof, ended [])
unfolding read_full
read_nothing part h = let short : leb part 0 ≡ false = ground arith in rw short refl

length-take-le : (n : ℕ) (s : Text) → length (take n s) ≤ n
length-take-le zero s = omega arith
length-take-le (suc n) [] = omega arith
length-take-le (suc n) (a ∷ s) = omega (arith, length-take-le n s)

-- The loop's variables, before a round.
abbrev pub at : Text → Log → ℕ → List (ℕ × CompletePart) → ℕ → Progress
at s log k m t = record {
  reader = ended s;
  log = log;
  part_number = k;
  parts_info = m;
  total_uploaded_size = t;
}

module _ (tag : Log → Text) (upload_id : Text) where
  -- The loop's variables after a part.
  abbrev pub part_of : Text → Log → ℕ → CompletePart
  part_of b log k = record {
    part_number = k;
    etag = trim_quotes (tag (log ++ put_part upload_id k b ∷ []));
  }

  abbrev pub after : Text → Text → Log → ℕ → List (ℕ × CompletePart) → ℕ → Progress
  after b rest log k m t =
      at rest (log ++ put_part upload_id k b ∷ []) (k + 1) (save_part m k (part_of b log k))
        (t + length b)

  -- The loop's variables when the bodies have been sent.
  abbrev pub finished : List Text → Text → Log → ℕ → List (ℕ × CompletePart) → ℕ → Progress
  finished bs s log k m t =
      at [] (log ++ put_requests upload_id k bs) (k + length bs)
        (save_all m k (completed_parts tag upload_id k log bs)) (t + length s)

  abbrev pub done : Log → ℕ → List (ℕ × CompletePart) → ℕ → Progress × Option (ℕ × UploadError)
  done log k m t = (at [] log k m t, none)

  done-ext :
      {log log' : Log} {k k' : ℕ} {t t' : ℕ} (m : List (ℕ × CompletePart))
      → log ≡ log'
      → k ≡ k'
      → t ≡ t'
      → done log k m t ≡ done log' k' m t'
  done-ext {log} {log'} {k} {k'} {t} {t'} m e f g =
      ap (λ x. done x k m t) e ∙ ap (λ x. done log' x m t) f ∙ ap (λ x. done log' k' m x) g

module _ (server : Server) (bucket_name object_name upload_id : Text) (tag : Log → Text) (part : ℕ)
    (good : check_names bucket_name object_name ≡ none) (named : length upload_id ≢ 0)
    (accepts : (log : Log) → server.answer_part log ≡ inr (tag log)) (some_size : 0 < part)
    (fits : part ≤ max_part_size) where
  pub part_sent :
      (body : Text) (n : ℕ) (log : Log)
      → length body ≤ part
      → 0 < n
      → upload_part server bucket_name object_name upload_id body n log ≡ (
        log ++ put_part upload_id n body ∷ [],
        inr (record {
          part_number = n;
          etag = trim_quotes (tag (log ++ put_part upload_id n body ∷ []));
        }),
      )
  unfolding upload_part object_part
  part_sent body n log small pos =
      let large : ltb max_part_size (length body) ≡ false = ground arith in
      let first : (n == 0) ≡ false = ground arith in
      let there : (length upload_id == 0) ≡ false = ground arith in
      rw (good, large, first, there, accepts, upload_part) refl

  module _ (action : ℕ → ReadEnd → Action)
      (sends : (k : ℕ) → (action k no_error ≡ send) × (action k unexpected_eof ≡ send)) where
    round_sent :
        (next : Progress → Progress × Option (ℕ × UploadError)) (b rest : Text) (end : ReadEnd)
        (s : Text) (log : Log) (k : ℕ) (m : List (ℕ × CompletePart)) (t : ℕ)
        → action k end ≡ send
        → length b ≤ part
        → 0 < k
        → round server bucket_name object_name action upload_id
            (at s log k m t)
            next
            (b, end, ended rest)
          ≡ next (after tag upload_id b rest log k m t)
    unfolding round after_part advanced
    round_sent next b rest end s log k m t e small pos =
        rw (e, part_sent b k log small pos, round) refl

    -- A round in which there is something to read sends it.
    send_round :
        (n : ℕ) (s : Text) (log : Log) (k : ℕ) (m : List (ℕ × CompletePart)) (t : ℕ)
        → 0 < length s
        → 0 < k
        → upload_loop server bucket_name object_name action upload_id part (suc n) (at s log k m t)
          ≡ upload_loop server bucket_name object_name action upload_id part n
              (after tag upload_id (take part s) (drop part s) log k m t)
    unfolding upload_loop
    send_round n s log k m t some_left pos =
        let small : length (take part s) ≤ part = length-take-le part s in
        let next = upload_loop server bucket_name object_name action upload_id part n in
        let turn = round server bucket_name object_name action upload_id (at s log k m t) next in
        elim (read_some part s some_left) [
          | inl e ↦
              ap turn e
              ∙ round_sent next (take part s) (drop part s) no_error s log k m t (sends k).0 small
                  pos
          | inr e ↦
              ap turn e
              ∙ round_sent next (take part s) (drop part s) unexpected_eof s log k m t (sends k).1
                  small pos
        ]

    round_stopped :
        (next : Progress → Progress × Option (ℕ × UploadError)) (log : Log) (k : ℕ)
        (m : List (ℕ × CompletePart)) (t : ℕ)
        → action k eof ≡ stop
        → round server bucket_name object_name action upload_id
            (at [] log k m t)
            next
            ([], eof, ended [])
          ≡ (at [] log k m t, none)
    unfolding round
    round_stopped next log k m t e = rw (e, round) refl

    -- A round in which there is nothing left ends the loop.
    stop_round :
        (n : ℕ) (log : Log) (k : ℕ) (m : List (ℕ × CompletePart)) (t : ℕ)
        → action k eof ≡ stop
        → upload_loop server bucket_name object_name action upload_id part n (at [] log k m t)
          ≡ (at [] log k m t, none)
    unfolding upload_loop
    stop_round zero log k m t e = refl
    stop_round (suc n) log k m t e =
        let next = upload_loop server bucket_name object_name action upload_id part n in
        ap (round server bucket_name object_name action upload_id (at [] log k m t) next)
          (read_nothing part some_size)
        ∙ round_stopped next log k m t e

    -- The loop sends the content in pieces.
    pub loop_whole :
        (n : ℕ) (s : Text) (log : Log) (k : ℕ) (m : List (ℕ × CompletePart)) (t : ℕ)
        → 0 < k
        → ((j : ℕ) → (k < j) ⊎ ((j ≡ k) × (s ≡ [])) → action j eof ≡ stop)
        → length s ≤ n * part
        → (bs : List Text) × IsCut part bs s
          × (upload_loop server bucket_name object_name action upload_id part n (at s log k m t)
              ≡ (finished tag upload_id bs s log k m t, none))
    loop_whole n [] log k m t pos stops h = (
      [],
      refl,
      stop_round n log k m t (stops k (inr (refl, refl)))
          ∙ done-ext tag upload_id m (sym (append_nil log)) (omega arith) (omega arith),
    )
    loop_whole zero (a ∷ s) log k m t pos stops h = absurd (omega arith)
    loop_whole (suc n) (a ∷ s) log k m t pos stops h =
        let b = take part (a ∷ s) in
        let rest = drop part (a ∷ s) in
        let later : (j : ℕ) → (k + 1 < j) ⊎ ((j ≡ k + 1) × (rest ≡ [])) → action j eof ≡ stop =
          λ j c. stops j (inl (elim c [ inl past ↦ omega arith | inr (here, _) ↦ omega arith ])) in
        let fewer : length rest ≤ n * part = drop_fewer part n (a ∷ s) h in
        let (bs, cut, e) =
          loop_whole n rest (log ++ put_part upload_id k b ∷ []) (k + 1)
            (save_part m k (part_of tag upload_id b log k)) (t + length b) (omega arith) later
            fewer in
        (
          b ∷ bs,
          (omega arith, refl, cut),
          send_round n (a ∷ s) log k m t (omega arith) pos
              ∙ e
              ∙ done-ext tag upload_id _ (append_assoc log (put_part upload_id k b ∷ []) _)
                  (omega arith) (omega (arith, length-take-drop part (a ∷ s))),
        )
