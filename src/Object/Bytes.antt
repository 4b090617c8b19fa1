-- ===== src/Object/Bytes.antt =====
-- api-get-object.go: what reads from the start of an object to its end return.
use mefs_sdk_go.Prelude.{
  ℕ, ◌+◌, ◌^◌, ◌<◌, ◌≤◌, ◌≡◌, refl, ap, ◌⊎◌, inl, inr, true, false, Option, none, some, List, [],
  ◌∷◌, ◌++◌, ◌∙◌, arith, leb→le, take_all, drop_all, take_nil, drop_nil, length-take-drop, take_add,
  subst, length, leb, take, drop, Bool-cases,
}
use mefs_sdk_go.Prelude.Text.{Text}
use mefs_sdk_go.Prelude.Int.{pos}
use mefs_sdk_go.GetOptions.{Headers}
use mefs_sdk_go.Object.Types.{
  Err, eof, unexpected_eof, ObjectInfo, ok, Server, GetResponse, read_full, short_read,
}
use mefs_sdk_go.Object.Fetcher.{
  Fetcher, first_read, later_read, handle, get_object, stat_object, first_object, after_stat,
  fetch_object, range_of, first_error, later_error,
}
use mefs_sdk_go.Object.Session.{
  Session, Outcome, is_error, is_fatal, return, noted, received, do_get_request, open_object,
  new_object,
}
use mefs_sdk_go.Object.Methods.{read, read_request, finish_read, set_offset_read}
use mefs_sdk_go.Object.Reading.{
  reading, IsAt, Yields, read_full_fits, read_full_short, set_offset-Yields, new-Yields,
  first_error_short,
}

module _ {W : Type 0} (server : Server W) where
  -- the answer to a later read
  later_answer :
      (info : ObjectInfo) (headers : Headers) (k n : ℕ) (rest rest' bytes : Text) (e : Option Err)
      (w : W)
      → read_full (record { rest = rest; fault = none }) n
        ≡ record { bytes = bytes; error = e; stream = record { rest = rest'; fault = none } }
      → (e ≡ none) ⊎ (e ≡ some eof) ⊎ (e ≡ some unexpected_eof)
      → (r : GetResponse) × (err : Option Err) × (finish_read (
            do_get_request server
              (read_request server n ((reading info headers k rest w).object))
              (reading info headers k rest w))
          ≡ set_offset_read
              (record { result = r; error = err; after = reading info headers k rest' w }))
        × (r.bytes ≡ bytes)
  unfolding finish_read do_get_request read_request handle later_read received noted is_error
      is_fatal later_error
  later_answer info headers k n rest rest' bytes e w done (inl x) = (
    record { bytes = bytes; error = none; did_read = true; object_info = info },
    none,
    rw (done, x) refl,
    refl,
  )
  later_answer info headers k n rest rest' bytes e w done (inr (inl x)) = (
    record { bytes = bytes; error = some eof; did_read = true; object_info = info },
    some eof,
    rw (done, x) refl,
    refl,
  )
  later_answer info headers k n rest rest' bytes e w done (inr (inr x)) = (
    record { bytes = bytes; error = some eof; did_read = true; object_info = info },
    some eof,
    rw (done, x) refl,
    refl,
  )

  short_read-ends :
      (rest : Text)
      → (short_read rest none ≡ some eof) ⊎ (short_read rest none ≡ some unexpected_eof)
  unfolding short_read
  short_read-ends [] = inl refl
  short_read-ends (b ∷ rest) = inr refl

  -- what a read of a plain stream returns
  plain_read :
      (n : ℕ) (rest : Text)
      → (e : Option Err) × (read_full (record { rest = rest; fault = none }) n ≡ record {
        bytes = take n rest;
        error = e;
        stream = record { rest = drop n rest; fault = none };
      })
        × ((e ≡ none) ⊎ (e ≡ some eof) ⊎ (e ≡ some unexpected_eof))
  plain_read n rest = elim (Bool-cases (leb n (length rest))) [
    | inl fits ↦ (none, read_full_fits _ n (leb→le n (length rest) fits), inl refl)
    | inr short ↦
        let less : length rest < n = ground arith in
        (
          _,
          rw (take_all n rest (omega arith), drop_all n rest (omega arith))
              (read_full_short (record { rest = rest; fault = none }) n less),
          inr (short_read-ends rest),
        )
  ]

  read-reading :
      (info : ObjectInfo) (headers : Headers) (k n : ℕ) (rest : Text) (w : W)
      → info.size ≡ pos (k + length rest)
      → k + length rest < 2 ^ 63
      → Yields info
          (k + length (take n rest))
          (take n rest)
          (drop n rest)
          (read server n (reading info headers k rest w))
  unfolding read is_error
  read-reading info headers k n rest w size small =
      let (e, done, ends) = plain_read n rest in
      let (r, e', answer, bytes) =
        later_answer info headers k n rest (drop n rest) (take n rest) e w done ends in
      let sum : length r.bytes + length (drop n rest) ≡ length rest =
        ap (λ b. length b + length (drop n rest)) bytes ∙ length-take-drop n rest in
      rw (answer) (
        subst
          (λ b. Yields info (k + length b) b (drop n rest) (
            set_offset_read
              (record { result = r; error = e'; after = reading info headers k (drop n rest) w })))
          bytes
          (set_offset-Yields info headers k (drop n rest) w r e'
            (size ∙ ap pos (omega (arith, sum))) (omega (arith, sum))))

  read_finished :
      (info : ObjectInfo) (k n : ℕ) (s : Session W)
      → s.object.prev_err ≡ some eof
      → Yields info k [] [] (read server n s)
  unfolding read is_error return
  read_finished info k n s h = (
    record { result = []; error = s.object.prev_err; after = s },
    ground (arith, h),
    refl,
    inr (h, refl),
  )

  module _ (info : ObjectInfo) (infos : List ObjectInfo) (opts : Headers) (content : Text)
      (w w1 w2 : W) (head : server.head_object w ≡ (inr (info ∷ infos), w1))
      (body : server.get_object w1
        ≡ (inr (some (record { rest = content; fault = none })), w2)) where
    got : get_object server opts w ≡ (ok (some (record { rest = content; fault = none }), info), w2)
    unfolding get_object stat_object first_object after_stat fetch_object
    got = rw (head, body) refl

    first_fits :
        (n : ℕ)
        → n ≤ length content
        → finish_read (
            do_get_request server
              (read_request server n (open_object opts w).object)
              (open_object opts w))
          ≡ set_offset_read (record {
            result = record {
              bytes = take n content;
              error = none;
              did_read = true;
              object_info = info;
            };
            error = none;
            after = reading info opts 0 (drop n content) w2;
          })
    unfolding finish_read do_get_request read_request open_object handle first_read first_error
        range_of received noted is_error is_fatal
    first_fits n h = rw (got, read_full_fits (record { rest = content; fault = none }) n h) refl

    first_short :
        (n : ℕ)
        → length content < n
        → (r : GetResponse) × (f : Fetcher) × (finish_read (
              do_get_request server
                (read_request server n (open_object opts w).object)
                (open_object opts w))
            ≡ set_offset_read (record {
              result = r;
              error = some eof;
              after = record { object = new_object; fetcher = f; world = w2 };
            }))
          × (r.bytes ≡ content)
    unfolding finish_read do_get_request read_request open_object handle first_read first_error
        range_of received noted is_error is_fatal
    first_short n h = (
      record { bytes = content; error = some eof; did_read = true; object_info = info },
      record {
        http_reader = some (record { rest = []; fault = none });
        object_info = info;
        etag = info.etag;
        headers = opts;
        exited = false;
      },
      rw
          (
            got,
            read_full_short (record { rest = content; fault = none }) n h,
            first_error_short content (record { rest = []; fault = none }),
          )
          refl,
      refl,
    )

    read-open :
        (n : ℕ)
        → info.size ≡ pos (length content)
        → length content < 2 ^ 63
        → Yields info
            (0 + length (take n content))
            (take n content)
            (drop n content)
            (read server n (open_object opts w))
    unfolding read open_object is_error
    read-open n size small = elim (Bool-cases (leb n (length content))) [
      | inl fits ↦
          let sum = length-take-drop n content in
          rw (first_fits n (leb→le n (length content) fits)) (
            set_offset-Yields info opts 0 (drop n content) w2 _ none
              (size ∙ ap pos (omega (arith, sum))) (omega (arith, sum)))
      | inr short ↦
          let less : length content < n = ground arith in
          let (r, f, answer, bytes) = first_short n less in
          rw (answer, take_all n content (omega arith), drop_all n content (omega arith))
            (new-Yields info (0 + length content) content r f w2 bytes small)
    ]

-- Reads of the given numbers of bytes, one after another: all of the bytes, and the session.
unfoldable pub read_all : {W : Type 0} → Server W → List ℕ → Session W → Option (Text × Session W)
read_all server [] s = some ([], s)
read_all server (n ∷ ns) s = elim (read server n s) [
  | none ↦ none
  | some out ↦ elim (read_all server ns out.after) [
    | none ↦ none
    | some more ↦ some (out.result ++ more.0, more.1)
  ]
]

abbrev pub total : List ℕ → ℕ
total [] = 0
total (n ∷ ns) = n + total ns

module _ {W : Type 0} (server : Server W) where
  read-Yields :
      (info : ObjectInfo) (k n : ℕ) (rest : Text) (s : Session W)
      → info.size ≡ pos (k + length rest)
      → k + length rest < 2 ^ 63
      → IsAt info k rest s
      → Yields info (k + length (take n rest)) (take n rest) (drop n rest) (read server n s)
  read-Yields info k n rest s size small (inl (headers, w, e)) =
      rw (e) (read-reading server info headers k n rest w size small)
  read-Yields info k n rest s size small (inr (e, done)) =
      rw (done, take_nil n, drop_nil n) (read_finished server info (k + 0) n s e)

  read_all_cons :
      (n : ℕ) (ns : List ℕ) (s : Session W) (out : Outcome Text W) (bytes : Text) (s' : Session W)
      → read server n s ≡ some out
      → read_all server ns out.after ≡ some (bytes, s')
      → read_all server (n ∷ ns) s ≡ some (out.result ++ bytes, s')
  unfolding read_all
  read_all_cons n ns s out bytes s' e f = rw (e, read_all, f) refl

  read_all-take :
      (ns : List ℕ) (info : ObjectInfo) (k : ℕ) (rest : Text) (s : Session W)
      → info.size ≡ pos (k + length rest)
      → k + length rest < 2 ^ 63
      → IsAt info k rest s
      → (s' : Session W) × (read_all server ns s ≡ some (take (total ns) rest, s'))
  unfolding read_all
  read_all-take [] info k rest s size small at = (s, refl)
  read_all-take (n ∷ ns) info k rest s size small at =
      let (out, done, bytes, at') = read-Yields info k n rest s size small at in
      let sum = length-take-drop n rest in
      let (s', more) =
        read_all-take ns info _ (drop n rest) out.after (size ∙ ap pos (omega (arith, sum)))
          (omega (arith, sum)) at' in
      let joined : out.result ++ take (total ns) (drop n rest) ≡ take (n + total ns) rest =
        ap (λ b. b ++ take (total ns) (drop n rest)) bytes ∙ take_add n (total ns) rest in
      (
        s',
        read_all_cons n ns s out (take (total ns) (drop n rest)) s' done more
            ∙ ap (λ b. some (b, s')) joined,
      )

-- On an object that was just opened and has `content`, reads one after another return the first
-- bytes of the content, as many as they ask for together or all that there are, whatever their
-- sizes. The server says the content's size, which is below 2^63, and sends it whole.
pub read_all-content :
    {W : Type 0} (server : Server W) (info : ObjectInfo) (infos : List ObjectInfo) (content : Text)
    (w w1 w2 : W)
    → server.head_object w ≡ (inr (info ∷ infos), w1)
    → server.get_object w1 ≡ (inr (some (record { rest = content; fault = none })), w2)
    → info.size ≡ pos (length content)
    → length content < 2 ^ 63
    → (opts : Headers) (ns : List ℕ)
    → (s : Session W) × (read_all server ns (open_object opts w)
        ≡ some (take (total ns) content, s))
read_all-content server info infos content w w1 w2 head body size small opts [] =
    (open_object opts w, unfold read_all in refl)
read_all-content server info infos content w w1 w2 head body size small opts (n ∷ ns) =
    let (out, done, bytes, at) =
      read-open server info infos opts content w w1 w2 head body n size small in
    let sum = length-take-drop n content in
    let (s', more) =
      read_all-take server ns info _ (drop n content) out.after (size ∙ ap pos (omega (arith, sum)))
        (omega (arith, sum)) at in
    let joined : out.result ++ take (total ns) (drop n content) ≡ take (n + total ns) content =
      ap (λ b. b ++ take (total ns) (drop n content)) bytes ∙ take_add n (total ns) content in
    (
      s',
      read_all_cons server n ns _ out (take (total ns) (drop n content)) s' done more
          ∙ ap (λ b. some (b, s')) joined,
    )
