-- ===== src/Object/Fetcher.antt =====
-- api-get-object.go: the goroutine of `getObjectWithContext`, and `getObject` and `statObject`
-- below it. The names were checked when the object was made, and the checks pass again.
use mefs_sdk_go.Prelude.{
  Bool, true, false, not, ◌||◌, Option, none, some, List, [], ◌∷◌, ◌⊎◌, inl, inr, ◌==◌, length, ltb,
  if◌then◌else◌,
}
use mefs_sdk_go.Prelude.Text.{Text, codes}
use mefs_sdk_go.Prelude.Int.{ℤ, pos, negsuc, ◌+ℤ◌, ltb_ℤ, int64}
use mefs_sdk_go.Map.{delete}
use mefs_sdk_go.GetOptions.{Headers, set_to, invalid, set_range, set_match_etag}
use mefs_sdk_go.Object.Types.{
  Err, eof, unexpected_eof, ObjectInfo, Stream, Answer, ok, err, crashed, Server, ReadResult,
  read_full, GetRequest, GetResponse, error_response,
}

-- The variables of the goroutine; `exited` when it has returned.
pub record Fetcher : Type 0 where
  pub http_reader : Option Stream
  pub object_info : ObjectInfo
  pub etag : Text
  pub headers : Headers
  pub exited : Bool

-- What the goroutine makes of a request: a response, or a panic, by a read from a reader that is nil or
-- by an answer without objects.
pub data Handled (W : Type 0) : Type 0 where
  replied : GetResponse → Fetcher → W → Handled W
  panicked : Handled W

-- `opts.SetRange(…)`, whose error is dropped
unfoldable pub with_range : Headers → ℤ → ℤ → Headers
with_range headers start end' = elim (set_range headers start end') [
  | set_to h ↦ h
  | invalid ↦ headers
]

-- `if etag != "" { opts.SetMatchETag(etag) }`
unfoldable pub with_etag : Headers → Text → Headers
with_etag headers etag = elim (set_match_etag headers etag) [ some h ↦ h | none ↦ headers ]

-- the range of a request that opens a new reader
unfoldable pub range_of : GetRequest → Headers → Headers
range_of req headers =
    if req.is_read_at
    then with_range headers req.offset (int64 (int64 (req.offset +ℤ pos req.buffer) +ℤ negsuc 0))
    else if ltb_ℤ (pos 0) req.offset
    then with_range headers req.offset (pos 0)
    else headers

-- after ReadFull on the first request: an end after some bytes is the end
unfoldable pub first_error : ReadResult → Option Err
first_error r = elim r.error [
  | some e ↦ elim e [
    | unexpected_eof ↦ if ltb 0 (length r.bytes) then some eof else some unexpected_eof
    | other ↦ some other
  ]
  | none ↦ none
]

-- after ReadFull on a later request
unfoldable pub later_error : ReadResult → Option Err
later_error r = elim r.error [
  | some e ↦ elim e [ unexpected_eof ↦ some eof | other ↦ some other ]
  | none ↦ none
]

module _ {W : Type 0} (server : Server W) where
  -- `objs.Objects[0]`, which panics on an answer without objects
  unfoldable pub first_object : (Err ⊎ List ObjectInfo) × W → Answer ObjectInfo × W
  first_object (inl e, w) = (err e, w)
  first_object (inr [], w) = (crashed, w)
  first_object (inr (info ∷ infos), w) = (ok info, w)

  -- `statObject`: the options are not sent
  unfoldable pub stat_object : Headers → W → Answer ObjectInfo × W
  stat_object opts w = first_object (server.head_object w)

  -- the second request of `getObject`, whose output may be nil
  unfoldable pub fetch_object :
      ObjectInfo → (Err ⊎ Option Stream) × W → Answer (Option Stream × ObjectInfo) × W
  fetch_object info (inr output, w) = (ok (output, info), w)
  fetch_object info (inl e, w) = (err e, w)

  unfoldable pub after_stat : Answer ObjectInfo × W → Answer (Option Stream × ObjectInfo) × W
  after_stat (ok info, w) = fetch_object info (server.get_object w)
  after_stat (err e, w) = (err e, w)
  after_stat (crashed, w) = (crashed, w)

  -- `getObject`: the options go to `statObject` alone
  unfoldable pub get_object : Headers → W → Answer (Option Stream × ObjectInfo) × W
  get_object opts w = after_stat (stat_object opts w)

  -- the end of the first request, when it reads
  unfoldable pub first_read :
      GetRequest → Fetcher → Answer (Option Stream × ObjectInfo) × W → Handled W
  first_read req f (crashed, w) = panicked
  first_read req f (ok (none, info), w) =
      if req.buffer == 0
      then replied (record { bytes = []; error = none; did_read = true; object_info = info })
          (record f { http_reader = none; object_info = info; etag = info.etag }) w
      else panicked
  first_read req f (err e, w) = replied (error_response e) (record f { exited = true }) w
  first_read req f (ok (some s, info), w) =
      let r = read_full s req.buffer in
      replied
        (record { bytes = r.bytes; error = first_error r; did_read = true; object_info = info })
        (record f { http_reader = some r.stream; object_info = info; etag = info.etag }) w

  -- the end of the first request, when it does not
  unfoldable pub first_stat : Fetcher → Answer ObjectInfo × W → Handled W
  first_stat f (crashed, w) = panicked
  first_stat f (err e, w) = replied (error_response e) (record f { exited = true }) w
  first_stat f (ok info, w) =
      replied (record { bytes = []; error = none; did_read = false; object_info = info })
        (record f { object_info = info; etag = info.etag }) w

  -- a request for the object's info alone, which the goroutine does not keep
  unfoldable pub info_only : Fetcher → Answer ObjectInfo × W → Handled W
  info_only f (crashed, w) = panicked
  info_only f (err e, w) = replied (error_response e) (record f { exited = true }) w
  info_only f (ok info, w) =
      replied (record { bytes = []; error = none; did_read = false; object_info = info }) f w

  -- a later read from the reader at hand; io.ReadFull does not touch it for an empty buffer
  unfoldable pub later_read : GetRequest → Fetcher → Option Stream → W → Handled W
  later_read req f none w =
      if req.buffer == 0
      then replied
          (record { bytes = []; error = none; did_read = true; object_info = f.object_info }) f w
      else panicked
  later_read req f (some s) w =
      let r = read_full s req.buffer in
      replied
        (record {
          bytes = r.bytes;
          error = later_error r;
          did_read = true;
          object_info = f.object_info;
        })
        (record f { http_reader = some r.stream }) w

  -- a later read from a new reader
  unfoldable pub reopened :
      GetRequest → Fetcher → Answer (Option Stream × ObjectInfo) × W → Handled W
  reopened req f (crashed, w) = panicked
  reopened req f (err e, w) = replied (error_response e) (record f { exited = true }) w
  reopened req f (ok (output, info), w) =
      later_read req (record f { http_reader = output; object_info = info }) output w

  -- `case req := <-reqCh`
  unfoldable pub handle : GetRequest → Fetcher → W → Handled W
  handle req f w =
      if req.is_first_req
      then (if req.is_read_op
          then (let opts = range_of req f.headers in
              first_read req (record f { headers = opts }) (get_object opts w))
          else (let opts = delete f.headers (codes "Range") in
              first_stat (record f { headers = opts }) (stat_object opts w)))
      else if req.setting_object_info
      then (let opts = with_etag (delete f.headers (codes "Range")) f.etag in
          info_only (record f { headers = opts }) (stat_object opts w))
      else if req.did_offset_change || not req.been_read
      then (let opts = range_of req (with_etag f.headers f.etag) in
          reopened req (record f { headers = opts }) (get_object opts w))
      else later_read req f f.http_reader w
