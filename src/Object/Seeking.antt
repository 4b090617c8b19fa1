-- ===== src/Object/Seeking.antt =====
-- api-get-object.go: a seek and the read after it.
use mefs_sdk_go.Prelude.{
  ℕ, ◌≤◌, ◌≡◌, refl, true, false, ◌&&◌, none, some, List, ◌∷◌, inr, arith, length, take, if_intro,
}
use mefs_sdk_go.Prelude.Text.{Text, codes}
use mefs_sdk_go.Prelude.Int.{ℤ, pos, negsuc, ltb_ℤ}
use mefs_sdk_go.Map.{delete}
use mefs_sdk_go.GetOptions.{Headers}
use mefs_sdk_go.Object.Types.{ObjectInfo, ok, Server, GetResponse}
use mefs_sdk_go.Object.Fetcher.{
  first_stat, reopened, later_read, handle, get_object, stat_object, first_object, after_stat,
  fetch_object, later_error,
}
use mefs_sdk_go.Object.Session.{
  Session, Outcome, is_error, is_fatal, return, advanced, at_end, noted, received, do_get_request,
  open_object,
}
use mefs_sdk_go.Object.Methods.{
  read, read_request, finish_read, set_offset_read, seek, seek_request, finish_seek, seek_from,
  seek_to,
}
use mefs_sdk_go.Object.Reading.{read_full_fits}

-- An object that was sought before it was read.
abbrev sought : {W : Type 0} → ObjectInfo → Headers → ℕ → W → Session W
sought info headers k w = record {
  object = record {
    curr_offset = pos k;
    object_info = info;
    seek_data = true;
    is_closed = false;
    is_started = true;
    prev_err = none;
    been_read = false;
    object_info_set = true;
  };
  fetcher = record {
    http_reader = none;
    object_info = info;
    etag = info.etag;
    headers = headers;
    exited = false;
  };
  world = w;
}

inside :
    (k : ℕ) (size : ℤ) (n : ℕ)
    → size ≡ pos n
    → k ≤ n
    → (ltb_ℤ (negsuc 0) size && ltb_ℤ size (pos k)) ≡ false
inside k size n e h = ground arith

not_below : (k : ℕ) → ltb_ℤ (pos k) (pos 0) ≡ false
not_below k = ground arith

module _ {W : Type 0} (server : Server W) where
  seek-open :
      (info : ObjectInfo) (infos : List ObjectInfo) (n k : ℕ) (opts : Headers) (w w1 : W)
      → server.head_object w ≡ (inr (info ∷ infos), w1)
      → info.size ≡ pos n
      → k ≤ n
      → seek server (pos k) (pos 0) (open_object opts w)
        ≡ some (record {
          result = pos k;
          error = none;
          after = sought info (delete opts (codes "Range")) k w1;
        })
  unfolding seek open_object seek_request do_get_request handle first_stat stat_object first_object
      received noted finish_seek seek_from seek_to return is_error is_fatal
  seek-open info infos n k opts w w1 head size h =
      rw (not_below k, head, inside k info.size n size h) refl

  got_again :
      (info : ObjectInfo) (infos : List ObjectInfo) (content : Text) (opts : Headers) (w w1 w2 : W)
      → server.head_object w ≡ (inr (info ∷ infos), w1)
      → server.get_object w1 ≡ (inr (some (record { rest = content; fault = none })), w2)
      → get_object server opts w ≡ (ok (some (record { rest = content; fault = none }), info), w2)
  unfolding get_object stat_object first_object after_stat fetch_object
  got_again info infos content opts w w1 w2 head body = rw (head, body) refl

  set_offset_result :
      (out : Outcome GetResponse W)
      → (r : Outcome Text W) × (set_offset_read out ≡ some r) × (r.result ≡ out.result.bytes)
  unfolding set_offset_read return
  set_offset_result out =
      let s = advanced out.after (length out.result.bytes) in
      if_intro (λ x. (r : Outcome Text W) × (x ≡ some r) × (r.result ≡ out.result.bytes))
        (at_end s.object) _ _ (λ last. (_, refl, refl)) (λ more. (_, refl, refl))

  read-sought :
      (info : ObjectInfo) (infos : List ObjectInfo) (content : Text) (headers : Headers) (k n : ℕ)
      (w w1 w2 : W)
      → server.head_object w ≡ (inr (info ∷ infos), w1)
      → server.get_object w1 ≡ (inr (some (record { rest = content; fault = none })), w2)
      → n ≤ length content
      → (r : Outcome Text W) × (read server n (sought info headers k w) ≡ some r)
        × (r.result ≡ take n content)
  unfolding read read_request do_get_request handle reopened later_read received noted finish_read
      is_error is_fatal later_error
  read-sought info infos content headers k n w w1 w2 head body h =
      rw
        (
          got_again info infos content _ w w1 w2 head body,
          read_full_fits (record { rest = content; fault = none }) n h,
        )
        (set_offset_result _)

-- A seek to a place inside an object that was just opened succeeds, but the next read, of no more
-- bytes than the object has, returns the first bytes of the object: the range does not go to the
-- server, which says the content's size and sends it whole.
pub seek-read_from_start :
    {W : Type 0} (server : Server W) (info : ObjectInfo) (infos : List ObjectInfo) (content : Text)
    (opts : Headers) (k n : ℕ) (w w1 w2 w3 : W)
    → server.head_object w ≡ (inr (info ∷ infos), w1)
    → server.head_object w1 ≡ (inr (info ∷ infos), w2)
    → server.get_object w2 ≡ (inr (some (record { rest = content; fault = none })), w3)
    → info.size ≡ pos (length content)
    → k ≤ length content
    → n ≤ length content
    → (s : Session W) × (seek server (pos k) (pos 0) (open_object opts w)
        ≡ some (record { result = pos k; error = none; after = s }))
      × (r : Outcome Text W) × (read server n s ≡ some r)
      × (r.result ≡ take n content)
seek-read_from_start server info infos content opts k n w w1 w2 w3 head again body size inside_it
      short =
    let (r, done, bytes) =
      read-sought server info infos content (delete opts (codes "Range")) k n w1 w2 w3 again body
        short in
    (
      _,
      seek-open server info infos (length content) k opts w w1 head size inside_it,
      r,
      done,
      bytes,
    )
