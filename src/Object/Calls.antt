-- ===== src/Object/Calls.antt =====
-- api-get-object.go: sequences of calls of the methods of an object.
use mefs_sdk_go.Prelude.{
  ℕ, ◌≡◌, refl, true, false, not, ◌&&◌, ◌||◌, Option, none, some, List, [], ◌∷◌, arith, if_intro,
}
use mefs_sdk_go.Prelude.Int.{ℤ, pos, ltb_ℤ}
use mefs_sdk_go.GetOptions.{Headers}
use mefs_sdk_go.Object.Types.{eof, invalid_argument, Server, GetRequest, no_info}
use mefs_sdk_go.Object.Session.{Session, is_error, is_fatal, move, do_get_request, open_object}
use mefs_sdk_go.Object.Methods.{
  read, read_request, stat, stat_request, read_at, read_at_request, is_outside, seek, seek_request,
  close, is_two,
}
use mefs_sdk_go.Object.Outcomes.{
  after_call, Ends, Replies, is_error-is_fatal, after_call-IsSound, return-Ends, received-Replies,
  alive, finish_read-Ends, finish_read_at-Ends, finish_stat-Ends, seek_from-Ends, finish_seek-Ends,
  close-Ends,
}
use mefs_sdk_go.Object.Live.{Serves, IsSound, handle-Answers}

pub data Call : Type 0 where
  read_of : ℕ → Call
  stat_of : Call
  read_at_of : ℕ → ℤ → Call
  seek_of : ℤ → ℤ → Call
  close_of : Call

-- One call, and a list of calls.
unfoldable pub perform : {W : Type 0} → Server W → Call → Session W → Option (Session W)
perform server (read_of n) s = after_call (read server n s)
perform server stat_of s = after_call (stat server s)
perform server (read_at_of n offset) s = after_call (read_at server n offset s)
perform server (seek_of offset whence) s = after_call (seek server offset whence s)
perform server close_of s = after_call (close s)

unfoldable pub perform_all : {W : Type 0} → Server W → List Call → Session W → Option (Session W)
perform_all server [] s = some s
perform_all server (c ∷ cs) s = elim (perform server c s) [
  | none ↦ none
  | some s' ↦ perform_all server cs s'
]

module _ {W : Type 0} (server : Server W) (serves : Serves server) where
  -- A request of a running goroutine is answered.
  do_get_request-Replies :
      (req : GetRequest) (s : Session W)
      → IsSound s
      → s.fetcher.exited ≡ false
      → (req.been_read ≡ true → s.object.been_read ≡ true)
      → Replies (do_get_request server req s)
  unfolding do_get_request
  do_get_request-Replies req s h runs read_before =
      if_intro Replies s.fetcher.exited _ _ (λ gone. absurd (ground arith))
        (λ here. received-Replies req s.object _ (
          handle-Answers server serves s.object.been_read req s.fetcher s.world runs h.opened
            (λ b. h.opened (read_before b))))

  read-Ends : (n : ℕ) (s : Session W) → IsSound s → Ends (read server n s)
  unfolding read
  read-Ends n s h =
      if_intro Ends (is_error s.object.prev_err || s.object.is_closed) _ _
        (λ x. return-Ends [] s.object.prev_err s h)
        (λ x. finish_read-Ends _ (
          do_get_request-Replies (read_request server n s.object) s h
            (alive s h (is_error-is_fatal s.object.prev_err (ground arith)))
            (unfold read_request in λ b. b)))

  stat-Ends : (s : Session W) → IsSound s → Ends (stat server s)
  unfolding stat
  stat-Ends s h =
      if_intro Ends (is_fatal s.object.prev_err || s.object.is_closed) _ _
        (λ x. return-Ends no_info s.object.prev_err s h)
        (λ x.
          if_intro Ends (not s.object.is_started || not s.object.object_info_set) _ _
            (λ y. finish_stat-Ends _ (
              do_get_request-Replies (stat_request server s.object) s h (alive s h (ground arith))
                (unfold stat_request in λ b. cc)))
            (λ y. return-Ends s.object.object_info none s h))

  read_at-Ends : (n : ℕ) (offset : ℤ) (s : Session W) → IsSound s → Ends (read_at server n offset s)
  unfolding read_at
  read_at-Ends n offset s h =
      let moved : IsSound (move s offset) =
        unfold move in record { gone = h.gone; opened = h.opened } in
      if_intro Ends (is_fatal s.object.prev_err || s.object.is_closed) _ _
        (λ x. return-Ends [] s.object.prev_err s h)
        (λ x.
          if_intro Ends (is_outside server s.object offset) _ _
            (λ y. return-Ends [] (some eof) (move s offset) moved)
            (λ y. finish_read_at-Ends _ (
              do_get_request-Replies (read_at_request server n offset s.object) (move s offset)
                moved (unfold move in alive s h (ground arith))
                (unfold move read_at_request in λ b. b))))

  seek_of-Ends :
      (offset whence : ℤ) (s : Session W) → IsSound s → Ends (seek server offset whence s)
  unfolding seek
  seek_of-Ends offset whence s h =
      if_intro Ends (is_fatal s.object.prev_err) _ _
        (λ x. return-Ends (pos 0) s.object.prev_err s h)
        (λ x.
          if_intro Ends (ltb_ℤ offset (pos 0) && not (is_two whence)) _ _
            (λ y. return-Ends (pos 0) (some invalid_argument) s h)
            (λ y.
              if_intro Ends (not s.object.is_started || not s.object.object_info_set) _ _
                (λ z. finish_seek-Ends offset whence _ (
                  do_get_request-Replies (seek_request server offset) s h (alive s h x)
                    (unfold seek_request in λ b. cc)))
                (λ z. seek_from-Ends s offset whence h (alive s h x))))

  perform-IsSound :
      (c : Call) (s : Session W)
      → IsSound s
      → (s' : Session W) × (perform server c s ≡ some s') × IsSound s'
  unfolding perform
  perform-IsSound (read_of n) s h = after_call-IsSound _ (read-Ends n s h)
  perform-IsSound stat_of s h = after_call-IsSound _ (stat-Ends s h)
  perform-IsSound (read_at_of n offset) s h = after_call-IsSound _ (read_at-Ends n offset s h)
  perform-IsSound (seek_of offset whence) s h =
      after_call-IsSound _ (seek_of-Ends offset whence s h)
  perform-IsSound close_of s h = after_call-IsSound _ (close-Ends s h)

  perform_all-IsSound :
      (cs : List Call) (s : Session W)
      → IsSound s
      → (s' : Session W) × (perform_all server cs s ≡ some s') × IsSound s'
  unfolding perform_all
  perform_all-IsSound [] s h = (s, refl, h)
  perform_all-IsSound (c ∷ cs) s h =
      let (s', e, h') = perform-IsSound c s h in rw (e, perform_all) (perform_all-IsSound cs s' h')

-- Whatever methods are called, and in whatever order, on an object that was just opened, each of
-- them returns: none sends to a goroutine that has returned, and none makes the goroutine read from a
-- reader that is nil. After them a goroutine that has returned has left a saved error that is not
-- `io.EOF`, and an object that has been read has a reader. The server's
-- errors are not the bare `io.EOF`, its answers to lfs/head_object have an object, and its answers to
-- lfs/get_object have a status below 400: Send gives a nil reader without an error for the others.
pub perform_all_returns :
    {W : Type 0} (server : Server W)
    → Serves server
    → (cs : List Call) (opts : Headers) (w : W)
    → (s : Session W) × (perform_all server cs (open_object opts w) ≡ some s) × IsSound s
unfolding open_object
perform_all_returns server serves cs opts w =
    perform_all-IsSound server serves cs _ (record { gone = λ e. cc; opened = λ e. cc })
