-- ===== src/Tests/ObjectRuns.antt =====
-- Objects: runs and instances.
use mefs_sdk_go.Prelude.{ℕ, zero, suc, ◌≡◌, refl, none, some, List, [], ◌∷◌, ◌⊎◌, inl, inr, arith}
use mefs_sdk_go.Prelude.Text.{Text, codes}
use mefs_sdk_go.Prelude.Int.{pos}
use mefs_sdk_go.Object.Types.{ObjectInfo, Err, failure, Server}
use mefs_sdk_go.Object.Session.{
  Session, Outcome, open_object, is_fatal, is_error, do_get_request, received,
}
use mefs_sdk_go.Object.Fetcher.{
  handle, range_of, get_object, after_stat, fetch_object, stat_object, first_object, first_read,
}
use mefs_sdk_go.Object.Methods.{read_request, finish_read, read, seek, close}
use mefs_sdk_go.Object.Closing.{IsClosed, close-IsClosed}
use mefs_sdk_go.Object.Live.{Serves, IsSound, HasObject}
use mefs_sdk_go.Object.Calls.{
  Call, read_of, stat_of, read_at_of, seek_of, close_of, perform_all, perform_all_returns,
}
use mefs_sdk_go.Object.Bytes.{read_all, read_all-content}
use mefs_sdk_go.Object.Seeking.{seek-read_from_start}

abbrev hello : Text
hello = codes "hello"

abbrev hello_info : ObjectInfo
hello_info = record { etag = codes "e"; key = codes "k"; size = pos 5 }

abbrev hello_server : Server Unit
hello_server = record {
  head_object = λ w. (inr (hello_info ∷ []), w);
  get_object = λ w. (inr (some (record { rest = hello; fault = none })), w);
}

-- a server that refuses the second request and those after it
abbrev answer_once : ℕ → (Err ⊎ List ObjectInfo) × ℕ
answer_once zero = (inr (hello_info ∷ []), 1)
answer_once (suc n) = (inl (failure 7), suc n)

abbrev refusing_server : Server ℕ
refusing_server = record { head_object = answer_once; get_object = λ w. (inl (failure 8), w) }

answer_once-HasObject : (w : ℕ) → HasObject ((answer_once w).0)
unfolding is_fatal
answer_once-HasObject zero = tt
answer_once-HasObject (suc n) = refl

refusing_server-Serves : Serves refusing_server
unfolding is_fatal
refusing_server-Serves = record { head_object = answer_once-HasObject; get_output = λ w. refl }

abbrev some_calls : List Call
some_calls =
    seek_of (pos 2) (pos 0) ∷ read_at_of 9 (pos 1) ∷ stat_of ∷ read_of 1 ∷ close_of ∷ read_of 1 ∷ []

perform_all_returns_example :
    (s : Session ℕ) × (perform_all refusing_server some_calls (open_object [] 0) ≡ some s)
    × IsSound s
perform_all_returns_example =
    perform_all_returns refusing_server refusing_server-Serves some_calls [] 0

read_all-content_example :
    (s : Session Unit) × (read_all hello_server (2 ∷ 0 ∷ 4 ∷ 3 ∷ []) (open_object [] tt)
      ≡ some (hello, s))
read_all-content_example =
    read_all-content hello_server hello_info [] hello tt tt tt refl refl refl (omega arith) []
      (2 ∷ 0 ∷ 4 ∷ 3 ∷ [])

seek-read_from_start_example :
    (s : Session Unit) × (seek hello_server (pos 3) (pos 0) (open_object [] tt)
      ≡ some (record { result = pos 3; error = none; after = s }))
    × (r : Outcome Text Unit) × (read hello_server 2 s ≡ some r)
    × (r.result ≡ codes "he")
seek-read_from_start_example =
    seek-read_from_start hello_server hello_info [] hello [] 3 2 tt tt tt tt refl refl refl refl
      (omega arith) (omega arith)

close-IsClosed_example :
    (s' : Session Unit) × (close (open_object {W = Unit} [] tt)
      ≡ some (record { result = tt; error = none; after = s' }))
    × IsClosed hello_server s'
close-IsClosed_example =
    close-IsClosed hello_server (open_object [] tt) (unfold open_object in refl)

-- An answer with an error status makes the goroutine read from a nil reader.
abbrev failing_server : Server Unit
failing_server = record hello_server { get_object = λ w. (inr none, w) }

read_panics : read failing_server 1 (open_object [] tt) ≡ none
unfolding read open_object is_error read_request do_get_request handle range_of get_object
    after_stat fetch_object stat_object first_object first_read received finish_read
read_panics = refl
