-- ===== src/Object/Session.antt =====
-- api-get-object.go: the state of an object and `doGetRequest`. The object's mutex makes each a step of its own, and
-- the goroutine answers within it. A method that sends to a goroutine that has returned, or makes it
-- panic, has no outcome.
use mefs_sdk_go.Prelude.{
  ℕ, Bool, true, false, not, ◌&&◌, ◌||◌, Option, none, some, [], if◌then◌else◌,
}
use mefs_sdk_go.Prelude.Int.{ℤ, pos, negsuc, ◌+ℤ◌, ltb_ℤ, int64}
use mefs_sdk_go.GetOptions.{Headers}
use mefs_sdk_go.Object.Types.{Err, eof, ObjectInfo, no_info, Server, GetRequest, GetResponse}
use mefs_sdk_go.Object.Fetcher.{Fetcher, Handled, replied, panicked, handle}

pub record Object : Type 0 where
  pub curr_offset : ℤ
  pub object_info : ObjectInfo
  pub seek_data : Bool
  pub is_closed : Bool
  pub is_started : Bool
  pub prev_err : Option Err
  pub been_read : Bool
  pub object_info_set : Bool

-- An object, its goroutine and the server.
pub record Session (W : Type 0) : Type 0 where
  pub object : Object
  pub fetcher : Fetcher
  pub world : W

-- The results of a method and the state after it.
pub record Outcome (A W : Type 0) : Type 0 where
  pub result : A
  pub error : Option Err
  pub after : Session W

abbrev pub new_object : Object
new_object = record {
  curr_offset = pos 0;
  object_info = no_info;
  seek_data = false;
  is_closed = false;
  is_started = false;
  prev_err = none;
  been_read = false;
  object_info_set = false;
}

-- `getObjectWithContext`, once it has checked the names
unfoldable pub open_object : {W : Type 0} → Headers → W → Session W
open_object opts w = record {
  object = new_object;
  fetcher = record {
    http_reader = none;
    object_info = no_info;
    etag = [];
    headers = opts;
    exited = false;
  };
  world = w;
}

-- `err != nil`, and `err != nil && err != io.EOF`
unfoldable pub is_error : Option Err → Bool
is_error (some e) = true
is_error none = false

unfoldable pub is_fatal : Option Err → Bool
is_fatal (some eof) = false
is_fatal (some e) = true
is_fatal none = false

-- what `doGetRequest` notes of a response without an error
unfoldable pub noted : GetRequest → GetResponse → Object → Object
noted req r o =
    let has_info = not o.object_info_set && not req.is_read_at in
    record o {
      is_started = true;
      object_info = if has_info then r.object_info else o.object_info;
      object_info_set = o.object_info_set || has_info;
      been_read = if o.been_read then true else r.did_read;
      seek_data = false;
    }

unfoldable pub received :
    {W : Type 0} → GetRequest → Object → Handled W → Option (Outcome GetResponse W)
received req o panicked = none
received req o (replied r f w) = some (record {
  result = r;
  error = r.error;
  after = record { object = if is_error r.error then o else noted req r o; fetcher = f; world = w };
})

-- a session with a saved error
unfoldable pub save : {W : Type 0} → Session W → Option Err → Session W
save s e = record s { object = record s.object { prev_err = e } }

-- a result that leaves the session as it is
unfoldable pub return : {A W : Type 0} → A → Option Err → Session W → Option (Outcome A W)
return a e s = some (record { result = a; error = e; after = s })

unfoldable pub move : {W : Type 0} → Session W → ℤ → Session W
move s offset = record s { object = record s.object { curr_offset = offset } }

-- `setOffset`: the offset moves, and the answer is whether that is the end
unfoldable pub advanced : {W : Type 0} → Session W → ℕ → Session W
advanced s n = move s (int64 (s.object.curr_offset +ℤ pos n))

unfoldable pub at_end : Object → Bool
at_end o = ltb_ℤ (negsuc 0) o.object_info.size && not (ltb_ℤ o.curr_offset o.object_info.size)

module _ {W : Type 0} (server : Server W) where
  unfoldable pub do_get_request : GetRequest → Session W → Option (Outcome GetResponse W)
  do_get_request req s =
      if s.fetcher.exited then none else received req s.object (handle server req s.fetcher s.world)
