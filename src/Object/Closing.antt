-- ===== src/Object/Closing.antt =====
-- api-get-object.go: an object that is closed.
use mefs_sdk_go.Prelude.{ℕ, ◌≡◌, refl, true, false, none, some, []}
use mefs_sdk_go.Prelude.Int.{ℤ, pos}
use mefs_sdk_go.Object.Types.{already_closed, no_info, Server}
use mefs_sdk_go.Object.Session.{Session, is_error, is_fatal, return}
use mefs_sdk_go.Object.Methods.{read, stat, read_at, seek, close}

-- Every method of the session returns the error of a closed object and leaves the session as it is.
pub record IsClosed {W : Type 0} (server : Server W) (s : Session W) : Type 0 where
  pub read_refused :
      (n : ℕ)
      → read server n s ≡ some (record { result = []; error = some already_closed; after = s })
  pub stat_refused :
      stat server s ≡ some (record { result = no_info; error = some already_closed; after = s })
  pub read_at_refused :
      (n : ℕ) (offset : ℤ)
      → read_at server n offset s
        ≡ some (record { result = []; error = some already_closed; after = s })
  pub seek_refused :
      (offset whence : ℤ)
      → seek server offset whence s
        ≡ some (record { result = pos 0; error = some already_closed; after = s })
  pub close_refused :
      close s ≡ some (record { result = tt; error = some already_closed; after = s })

-- `Close` of an object that is not closed has no error, whatever its state is, and after it every
-- method returns the error of a closed object and changes nothing.
pub close-IsClosed :
    {W : Type 0} (server : Server W) (s : Session W)
    → s.object.is_closed ≡ false
    → (s' : Session W) × (close s ≡ some (record { result = tt; error = none; after = s' }))
      × IsClosed server s'
unfolding read stat read_at seek close return is_error is_fatal
close-IsClosed server s h = (
  record {
    object = record s.object { prev_err = some already_closed; is_closed = true };
    fetcher = record s.fetcher { exited = true };
    world = s.world;
  },
  rw (h) refl,
  record {
    read_refused = λ n. refl;
    stat_refused = refl;
    read_at_refused = λ n offset. refl;
    seek_refused = λ offset whence. refl;
    close_refused = refl;
  },
)
