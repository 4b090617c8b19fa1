-- ===== src/Object/Reading.antt =====
-- api-get-object.go: an object in the middle of being read, and the end of a read.
use mefs_sdk_go.Prelude.{
  ℕ, ◌+◌, ◌^◌, ◌<◌, ◌≤◌, ◌≡◌, refl, ap, ◌⊎◌, inl, inr, true, false, Option, none, some, [], ◌∷◌,
  ◌∙◌, arith, length, take, drop,
}
use mefs_sdk_go.Prelude.Text.{Text}
use mefs_sdk_go.Prelude.Int.{pos, ◌+ℤ◌, int64, int64_small}
use mefs_sdk_go.GetOptions.{Headers}
use mefs_sdk_go.Object.Types.{Err, eof, ObjectInfo, Stream, GetResponse, read_full, short_read}
use mefs_sdk_go.Object.Fetcher.{Fetcher, first_error}
use mefs_sdk_go.Object.Session.{
  Object, Session, Outcome, save, return, move, advanced, at_end, new_object,
}
use mefs_sdk_go.Object.Methods.{set_offset_read}

-- A session in the middle of reading: `k` bytes are read, and `rest` is left.
abbrev pub reading : {W : Type 0} → ObjectInfo → Headers → ℕ → Text → W → Session W
reading info headers k rest w = record {
  object = record {
    curr_offset = pos k;
    object_info = info;
    seek_data = false;
    is_closed = false;
    is_started = true;
    prev_err = none;
    been_read = true;
    object_info_set = true;
  };
  fetcher = record {
    http_reader = some (record { rest = rest; fault = none });
    object_info = info;
    etag = info.etag;
    headers = headers;
    exited = false;
  };
  world = w;
}

add_pos : (k n : ℕ) → (pos k +ℤ pos n) ≡ pos (k + n)
unfolding ◌+ℤ◌
add_pos k n = ground arith

pub add_small : (k n : ℕ) → k + n < 2 ^ 63 → int64 (pos k +ℤ pos n) ≡ pos (k + n)
add_small k n h = ap int64 (add_pos k n) ∙ int64_small (k + n) h

pub read_full_fits :
    (s : Stream) (n : ℕ)
    → n ≤ length s.rest
    → read_full s n ≡ record {
      bytes = take n s.rest;
      error = none;
      stream = record { rest = drop n s.rest; fault = s.fault };
    }
unfolding read_full
read_full_fits s n h = ground arith

pub read_full_short :
    (s : Stream) (n : ℕ)
    → length s.rest < n
    → read_full s n ≡ record {
      bytes = s.rest;
      error = short_read s.rest s.fault;
      stream = record { rest = []; fault = s.fault };
    }
unfolding read_full
read_full_short s n h = ground arith

-- Reading has come to the end, or it has `rest` left after `k` bytes.
abbrev pub IsAt : {W : Type 0} → ObjectInfo → ℕ → Text → Session W → Type 0
IsAt {W} info k rest s =
    ((headers : Headers) × (w : W) × (s ≡ reading info headers k rest w))
    ⊎ ((s.object.prev_err ≡ some eof) × (rest ≡ []))

-- A read of `bytes` that leaves `rest` after `k` bytes.
abbrev pub Yields : {W : Type 0} → ObjectInfo → ℕ → Text → Text → Option (Outcome Text W) → Type 0
Yields {W} info k bytes rest r =
    (out : Outcome Text W) × (r ≡ some out) × (out.result ≡ bytes) × IsAt info k rest out.after

at_end-less :
    (o : Object) (c size : ℕ)
    → o.curr_offset ≡ pos c
    → o.object_info.size ≡ pos size
    → c < size
    → at_end o ≡ false
unfolding at_end
at_end-less o c size e f h = ground arith

at_end-more :
    (o : Object) (c size : ℕ)
    → o.curr_offset ≡ pos c
    → o.object_info.size ≡ pos size
    → size ≤ c
    → at_end o ≡ true
unfolding at_end
at_end-more o c size e f h = ground arith

module _ {W : Type 0} where
  advanced-reading :
      (info : ObjectInfo) (headers : Headers) (k n : ℕ) (rest : Text) (w : W)
      → k + n < 2 ^ 63
      → advanced (reading info headers k rest w) n ≡ reading info headers (k + n) rest w
  unfolding advanced move
  advanced-reading info headers k n rest w h =
      ap (move (reading info headers k rest w)) (add_small k n h)

  -- the end of a read that has not come to the end of the object, and of one that has
  set_offset-more :
      (out : Outcome GetResponse W) (s : Session W)
      → advanced out.after (length out.result.bytes) ≡ s
      → at_end s.object ≡ false
      → set_offset_read out ≡ return out.result.bytes out.error s
  unfolding set_offset_read
  set_offset-more out s e h = rw (e, h) refl

  set_offset-last :
      (out : Outcome GetResponse W) (s : Session W)
      → advanced out.after (length out.result.bytes) ≡ s
      → at_end s.object ≡ true
      → set_offset_read out ≡ return out.result.bytes (some eof) (save s (some eof))
  unfolding set_offset_read
  set_offset-last out s e h = rw (e, h) refl

  pub set_offset-Yields :
      (info : ObjectInfo) (headers : Headers) (k : ℕ) (rest : Text) (w : W) (r : GetResponse)
      (e : Option Err)
      → info.size ≡ pos (k + length r.bytes + length rest)
      → k + length r.bytes + length rest < 2 ^ 63
      → Yields info (k + length r.bytes) r.bytes rest (
          set_offset_read (record { result = r; error = e; after = reading info headers k rest w }))
  unfolding return save
  set_offset-Yields info headers k [] w r e size small = (
    _,
    set_offset-last _ _ (advanced-reading info headers k (length r.bytes) [] w (omega arith))
        (at_end-more _ (k + length r.bytes) _ refl size (omega arith)),
    refl,
    inr (refl, refl),
  )
  set_offset-Yields info headers k (b ∷ rest) w r e size small = (
    _,
    set_offset-more _ _
        (advanced-reading info headers k (length r.bytes) (b ∷ rest) w (omega arith))
        (at_end-less _ (k + length r.bytes) _ refl size (omega arith)),
    refl,
    inl (headers, w, refl),
  )

-- a first read that comes to the end at once
pub new-Yields :
    {W : Type 0} (info : ObjectInfo) (k : ℕ) (content : Text) (r : GetResponse) (f : Fetcher)
    (w : W)
    → r.bytes ≡ content
    → length content < 2 ^ 63
    → Yields info k content [] (
        set_offset_read (record {
          result = r;
          error = some eof;
          after = record { object = new_object; fetcher = f; world = w };
        }))
unfolding return save
new-Yields {W} info k content r f w bytes small =
    let s : Session W = record { object = new_object; fetcher = f; world = w } in
    let total : 0 + length r.bytes < 2 ^ 63 = rw (bytes) (omega arith) in
    let moved : advanced s (length r.bytes) ≡ move s (pos (0 + length r.bytes)) =
      unfold advanced in ap (move s) (add_small 0 (length r.bytes) total) in
    (
      record {
        result = r.bytes;
        error = some eof;
        after = save (move s (pos (0 + length r.bytes))) (some eof);
      },
      set_offset-last _ _ moved
          (unfold move in at_end-more _ (0 + length r.bytes) 0 refl refl (omega arith)),
      bytes,
      inr (refl, refl),
    )

pub first_error_short :
    (rest : Text) (stream : Stream)
    → first_error (record { bytes = rest; error = short_read rest none; stream = stream })
      ≡ some eof
unfolding first_error short_read
first_error_short [] stream = refl
first_error_short (b ∷ rest) stream = ground arith
