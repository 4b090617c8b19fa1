-- ===== src/Object/Methods.antt =====
-- api-get-object.go: the methods of `Object`, `setOffset` and what follows a response. They return
-- the bytes that they put in the buffer in place of their number. A method of a nil `*Object` is an
-- `ErrInvalidArgument` and has no session here.
use mefs_sdk_go.Prelude.{
  ℕ, zero, suc, Bool, true, false, not, ◌&&◌, ◌||◌, Option, none, some, [], length, ◌==◌,
  if◌then◌else◌,
}
use mefs_sdk_go.Prelude.Text.{Text}
use mefs_sdk_go.Prelude.Int.{ℤ, pos, negsuc, ◌+ℤ◌, ltb_ℤ, int64}
use mefs_sdk_go.Object.Types.{
  eof, already_closed, invalid_argument, ObjectInfo, no_info, Server, GetRequest, GetResponse,
}
use mefs_sdk_go.Object.Session.{
  Object, Session, Outcome, is_error, is_fatal, save, return, move, advanced, at_end,
  do_get_request,
}

-- the end of `Read`; `ReadAt` has the same end when it knows the object's info
unfoldable pub set_offset_read : {W : Type 0} → Outcome GetResponse W → Option (Outcome Text W)
set_offset_read out =
    let s = advanced out.after (length out.result.bytes) in
    if at_end s.object
    then return out.result.bytes (some eof) (save s (some eof))
    else return out.result.bytes out.error s

unfoldable pub finish_read : {W : Type 0} → Option (Outcome GetResponse W) → Option (Outcome Text W)
finish_read none = none
finish_read (some out) =
    if is_fatal out.error
    then return out.result.bytes out.error (save out.after out.error)
    else set_offset_read out

unfoldable pub finish_read_at :
    {W : Type 0} → Option (Outcome GetResponse W) → Option (Outcome Text W)
finish_read_at none = none
finish_read_at (some out) =
    if is_fatal out.error
    then return out.result.bytes out.error (save out.after out.error)
    else if not out.after.object.object_info_set
    then return out.result.bytes out.error (advanced out.after (length out.result.bytes))
    else set_offset_read out

unfoldable pub finish_stat :
    {W : Type 0} → Option (Outcome GetResponse W) → Option (Outcome ObjectInfo W)
finish_stat none = none
finish_stat (some out) =
    if is_error out.error
    then return no_info out.error (save out.after out.error)
    else return out.after.object.object_info none out.after

-- a seek that is accepted
unfoldable pub seek_to : {W : Type 0} → Session W → ℤ → Option (Outcome ℤ W)
seek_to s offset =
    let o = s.object in
    return offset none (record s {
      object = record o {
        curr_offset = offset;
        prev_err = if is_fatal o.prev_err then o.prev_err else none;
        seek_data = true;
      };
    })

-- `switch whence`
unfoldable pub seek_from : {W : Type 0} → Session W → ℤ → ℤ → Option (Outcome ℤ W)
seek_from s offset (pos zero) =
    let size = s.object.object_info.size in
    if ltb_ℤ (negsuc 0) size && ltb_ℤ size offset
    then return (pos 0) (some eof) s
    else seek_to s offset
seek_from s offset (pos (suc zero)) =
    let size = s.object.object_info.size in
    let to = int64 (s.object.curr_offset +ℤ offset) in
    if ltb_ℤ (negsuc 0) size && ltb_ℤ size to then return (pos 0) (some eof) s else seek_to s to
seek_from s offset (pos (suc (suc zero))) =
    let size = s.object.object_info.size in
    let to = int64 (size +ℤ offset) in
    if ltb_ℤ size (pos 0)
    then return (pos 0) (some invalid_argument) s
    else if ltb_ℤ (pos 0) offset
    then return (pos 0) (some eof) s
    else if ltb_ℤ to (pos 0)
    then return (pos 0) (some invalid_argument) s
    else seek_to s to
seek_from s offset whence = return (pos 0) (some invalid_argument) s

unfoldable pub finish_seek :
    {W : Type 0} → ℤ → ℤ → Option (Outcome GetResponse W) → Option (Outcome ℤ W)
finish_seek offset whence none = none
finish_seek offset whence (some out) =
    if is_error out.error
    then return (pos 0) out.error (save out.after out.error)
    else seek_from out.after offset whence

abbrev pub is_two : ℤ → Bool
is_two (pos n) = n == 2
is_two (negsuc n) = false

-- `Close`, which stops the goroutine
unfoldable pub close : {W : Type 0} → Session W → Option (Outcome Unit W)
close s =
    let o = s.object in
    if o.is_closed
    then return tt o.prev_err s
    else return tt none (record s {
      object = record o { prev_err = some already_closed; is_closed = true };
      fetcher = record s.fetcher { exited = true };
    })

module _ {W : Type 0} (server : Server W) where
  unfoldable pub read_request : ℕ → Object → GetRequest
  read_request n o = record {
    buffer = n;
    offset = o.curr_offset;
    did_offset_change = o.seek_data;
    been_read = o.been_read;
    is_read_at = false;
    is_read_op = true;
    is_first_req = not o.is_started;
    setting_object_info = false;
  }

  -- `Read` of `n` bytes
  unfoldable pub read : ℕ → Session W → Option (Outcome Text W)
  read n s =
      let o = s.object in
      let request = read_request n o in
      if is_error o.prev_err || o.is_closed
      then return [] o.prev_err s
      else finish_read (do_get_request server request s)

  unfoldable pub stat_request : Object → GetRequest
  stat_request o = record {
    buffer = 0;
    offset = pos 0;
    did_offset_change = false;
    been_read = false;
    is_read_at = false;
    is_read_op = false;
    is_first_req = not o.is_started;
    setting_object_info = not o.object_info_set;
  }

  unfoldable pub stat : Session W → Option (Outcome ObjectInfo W)
  stat s =
      let o = s.object in
      if is_fatal o.prev_err || o.is_closed
      then return no_info o.prev_err s
      else if not o.is_started || not o.object_info_set
      then finish_stat (do_get_request server (stat_request o) s)
      else return o.object_info none s

  unfoldable pub read_at_request : ℕ → ℤ → Object → GetRequest
  read_at_request n offset o = record {
    buffer = n;
    offset = offset;
    did_offset_change = true;
    been_read = o.been_read;
    is_read_at = true;
    is_read_op = true;
    is_first_req = not o.is_started;
    setting_object_info = false;
  }

  -- the test of an offset against a size that is known
  unfoldable pub is_outside : Object → ℤ → Bool
  is_outside o offset =
      o.object_info_set
      && ((ltb_ℤ (negsuc 0) o.object_info.size && not (ltb_ℤ offset o.object_info.size))
          || ltb_ℤ offset (pos 0))

  -- `ReadAt` of `n` bytes
  unfoldable pub read_at : ℕ → ℤ → Session W → Option (Outcome Text W)
  read_at n offset s =
      let o = s.object in
      if is_fatal o.prev_err || o.is_closed
      then return [] o.prev_err s
      else if is_outside o offset
      then return [] (some eof) (move s offset)
      else finish_read_at (do_get_request server (read_at_request n offset o) (move s offset))

  unfoldable pub seek_request : ℤ → GetRequest
  seek_request offset = record {
    buffer = 0;
    offset = offset;
    did_offset_change = false;
    been_read = false;
    is_read_at = false;
    is_read_op = false;
    is_first_req = true;
    setting_object_info = false;
  }

  unfoldable pub seek : ℤ → ℤ → Session W → Option (Outcome ℤ W)
  seek offset whence s =
      let o = s.object in
      if is_fatal o.prev_err
      then return (pos 0) o.prev_err s
      else if ltb_ℤ offset (pos 0) && not (is_two whence)
      then return (pos 0) (some invalid_argument) s
      else if not o.is_started || not o.object_info_set
      then finish_seek offset whence (do_get_request server (seek_request offset) s)
      else seek_from s offset whence
