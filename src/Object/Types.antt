-- ===== src/Object/Types.antt =====
-- api-get-object.go and api-datatypes.go: the messages between an object and its goroutine, and
-- what they need of the server.
use mefs_sdk_go.Prelude.{
  ℕ, Bool, false, Option, none, some, List, [], ◌∷◌, ◌⊎◌, length, take, drop, leb, if◌then◌else◌,
}
use mefs_sdk_go.Prelude.Text.{Text}
use mefs_sdk_go.Prelude.Int.{ℤ, pos}

-- The errors that the code tells apart; `failure` is any other.
pub data Err : Type 0 where
  eof : Err
  unexpected_eof : Err
  already_closed : Err
  invalid_argument : Err
  failure : ℕ → Err

-- The fields of `ObjectInfo` that the code fills in, but for the date.
pub record ObjectInfo : Type 0 where
  pub etag : Text
  pub key : Text
  pub size : ℤ

abbrev pub no_info : ObjectInfo
no_info = record { etag = []; key = []; size = pos 0 }

-- A response body: the bytes that are left, and the error after them if it is not the end.
pub record Stream : Type 0 where
  pub rest : Text
  pub fault : Option Err

-- The results of a function of the client, which may panic.
pub data Answer {ℓ} (A : Type ℓ) : Type ℓ where
  ok : A → Answer A
  err : Err → Answer A
  crashed : Answer A

-- The server with the state `W`: the answers to the two commands that an object sends, with the
-- credentials' own errors among them. The first is the list of the objects of the decoded answer. The
-- second is the output of `Send`, which is nil, without an error, when the status is 400 or more.
pub record Server (W : Type 0) : Type 0 where
  pub head_object : W → (Err ⊎ List ObjectInfo) × W
  pub get_object : W → (Err ⊎ Option Stream) × W

-- What `io.ReadFull` does with a buffer of `n` bytes: the bytes, the error, and what is left.
pub record ReadResult : Type 0 where
  pub bytes : Text
  pub error : Option Err
  pub stream : Stream

unfoldable pub short_read : Text → Option Err → Option Err
short_read rest (some e) = some e
short_read [] none = some eof
short_read (b ∷ rest) none = some unexpected_eof

unfoldable pub read_full : Stream → ℕ → ReadResult
unfolding short_read
read_full s n =
    if leb n (length s.rest)
    then record {
      bytes = take n s.rest;
      error = none;
      stream = record { rest = drop n s.rest; fault = s.fault };
    }
    else record {
      bytes = s.rest;
      error = short_read s.rest s.fault;
      stream = record { rest = []; fault = s.fault };
    }

-- `Buffer` is given by its length.
pub record GetRequest : Type 0 where
  pub buffer : ℕ
  pub offset : ℤ
  pub did_offset_change : Bool
  pub been_read : Bool
  pub is_read_at : Bool
  pub is_read_op : Bool
  pub is_first_req : Bool
  pub setting_object_info : Bool

-- `Size` is the length of the bytes, which stand in the request's buffer.
pub record GetResponse : Type 0 where
  pub bytes : Text
  pub error : Option Err
  pub did_read : Bool
  pub object_info : ObjectInfo

abbrev pub error_response : Err → GetResponse
error_response e = record { bytes = []; error = some e; did_read = false; object_info = no_info }
