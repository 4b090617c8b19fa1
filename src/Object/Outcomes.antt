-- ===== src/Object/Outcomes.antt =====
-- api-get-object.go: the ends of the methods, and the objects they leave.
use mefs_sdk_go.Prelude.{
  zero, suc, ◌≡◌, refl, Bool, true, false, not, ◌&&◌, Option, none, some, arith, length,
  if◌then◌else◌, if_intro,
}
use mefs_sdk_go.Prelude.Int.{ℤ, pos, negsuc, ◌+ℤ◌, ltb_ℤ, int64}
use mefs_sdk_go.Object.Types.{Err, eof, invalid_argument, GetRequest, GetResponse}
use mefs_sdk_go.Object.Fetcher.{Handled, replied, panicked}
use mefs_sdk_go.Object.Session.{
  Object, Session, Outcome, is_error, is_fatal, save, return, move, advanced, noted, received,
}
use mefs_sdk_go.Object.Methods.{
  seek_from, seek_to, close, finish_read, finish_read_at, finish_stat, finish_seek, set_offset_read,
}
use mefs_sdk_go.Object.Live.{is_some, IsSound, Answers}

-- the session after a call, whose result is dropped
abbrev pub after_call : {A W : Type 0} → Option (Outcome A W) → Option (Session W)
after_call none = none
after_call (some out) = some out.after

-- A call has an outcome, which is sound.
abbrev pub Ends : {A W : Type 0} → Option (Outcome A W) → Type 0
Ends none = ⊥
Ends (some out) = IsSound out.after

-- A request has an outcome, which is sound once its error is saved.
abbrev pub Replies : {W : Type 0} → Option (Outcome GetResponse W) → Type 0
Replies none = ⊥
Replies (some out) =
    (out.after.fetcher.exited ≡ true → is_fatal out.error ≡ true)
    × (out.after.object.been_read ≡ true → is_some out.after.fetcher.http_reader ≡ true)

pub is_error-is_fatal : (e : Option Err) → is_error e ≡ false → is_fatal e ≡ false
unfolding is_error is_fatal
is_error-is_fatal none h = refl
is_error-is_fatal (some e) h = cc

module _ {W : Type 0} where
  pub after_call-IsSound :
      {A : Type 0} (r : Option (Outcome A W))
      → Ends r
      → (s : Session W) × (after_call r ≡ some s) × IsSound s
  after_call-IsSound none h = absurd h
  after_call-IsSound (some out) h = (out.after, refl, h)

  pub return-Ends :
      {A : Type 0} (a : A) (e : Option Err) (s : Session W) → IsSound s → Ends (return a e s)
  unfolding return
  return-Ends a e s h = h

  pub received-Replies :
      (req : GetRequest) (o : Object) (h : Handled W)
      → Answers o.been_read h
      → Replies (received req o h)
  unfolding received noted is_error
  received-Replies req o panicked h = h
  received-Replies req o (replied r f w) h = ground arith

  pub alive :
      (s : Session W) → IsSound s → is_fatal s.object.prev_err ≡ false → s.fetcher.exited ≡ false
  alive s h e = ground (arith, h.gone)

  set_offset_read-Ends :
      (out : Outcome GetResponse W)
      → Replies (some out)
      → is_fatal out.error ≡ false
      → Ends (set_offset_read out)
  unfolding set_offset_read return save advanced move is_fatal
  set_offset_read-Ends out h e = ground arith

  saved-Ends :
      {A : Type 0} (a : A) (out : Outcome GetResponse W)
      → Replies (some out)
      → Ends (return a out.error (save out.after out.error))
  unfolding return save
  saved-Ends a out h = record { gone = h.0; opened = h.1 }

  -- an outcome that is not fatal leaves the goroutine running
  kept :
      (out : Outcome GetResponse W)
      → Replies (some out)
      → is_fatal out.error ≡ false
      → IsSound out.after
  kept out h e = record { gone = λ x. ground (arith, h.0 x); opened = h.1 }

  pub finish_read-Ends :
      (out : Option (Outcome GetResponse W)) → Replies out → Ends (finish_read out)
  unfolding finish_read
  finish_read-Ends none h = h
  finish_read-Ends (some out) h =
      if_intro Ends (is_fatal out.error) _ _ (λ e. saved-Ends _ out h) (set_offset_read-Ends out h)

  advanced-Ends :
      (out : Outcome GetResponse W)
      → Replies (some out)
      → is_fatal out.error ≡ false
      → Ends (return out.result.bytes out.error (advanced out.after (length out.result.bytes)))
  unfolding return advanced move
  advanced-Ends out h e = record { gone = λ x. ground (arith, h.0 x); opened = h.1 }

  pub finish_read_at-Ends :
      (out : Option (Outcome GetResponse W)) → Replies out → Ends (finish_read_at out)
  unfolding finish_read_at
  finish_read_at-Ends none h = h
  finish_read_at-Ends (some out) h =
      if_intro Ends (is_fatal out.error) _ _ (λ e. saved-Ends _ out h)
        (λ e.
          if_intro Ends (not out.after.object.object_info_set) _ _ (λ unset. advanced-Ends out h e)
            (λ set. set_offset_read-Ends out h e))

  pub finish_stat-Ends :
      (out : Option (Outcome GetResponse W)) → Replies out → Ends (finish_stat out)
  unfolding finish_stat
  finish_stat-Ends none h = h
  finish_stat-Ends (some out) h =
      if_intro Ends (is_error out.error) _ _ (λ e. saved-Ends _ out h)
        (λ e. return-Ends _ none _ (kept out h (is_error-is_fatal out.error e)))

  seek_to-Ends :
      (s : Session W) (offset : ℤ) → IsSound s → s.fetcher.exited ≡ false → Ends (seek_to s offset)
  unfolding seek_to return
  seek_to-Ends s offset h e = record { gone = λ x. ground arith; opened = h.opened }

  seek_choice :
      (b : Bool) (s : Session W) (err : Err) (offset : ℤ)
      → IsSound s
      → s.fetcher.exited ≡ false
      → Ends (if b then return (pos 0) (some err) s else seek_to s offset)
  seek_choice true s err offset h e = return-Ends (pos 0) (some err) s h
  seek_choice false s err offset h e = seek_to-Ends s offset h e

  pub seek_from-Ends :
      (s : Session W) (offset whence : ℤ)
      → IsSound s
      → s.fetcher.exited ≡ false
      → Ends (seek_from s offset whence)
  unfolding seek_from
  seek_from-Ends s offset (pos zero) h e =
      seek_choice
        (ltb_ℤ (negsuc 0) s.object.object_info.size && ltb_ℤ s.object.object_info.size offset) s eof
        offset h e
  seek_from-Ends s offset (pos (suc zero)) h e =
      let to = int64 (s.object.curr_offset +ℤ offset) in
      seek_choice (ltb_ℤ (negsuc 0) s.object.object_info.size && ltb_ℤ s.object.object_info.size to)
        s eof to h e
  seek_from-Ends s offset (pos (suc (suc zero))) h e =
      let to = int64 (s.object.object_info.size +ℤ offset) in
      if_intro Ends (ltb_ℤ s.object.object_info.size (pos 0)) _ _
        (λ x. return-Ends (pos 0) (some invalid_argument) s h)
        (λ x.
          if_intro Ends (ltb_ℤ (pos 0) offset) _ _ (λ x. return-Ends (pos 0) (some eof) s h)
            (λ x. seek_choice (ltb_ℤ to (pos 0)) s invalid_argument to h e))
  seek_from-Ends s offset (pos (suc (suc (suc n)))) h e =
      return-Ends (pos 0) (some invalid_argument) s h
  seek_from-Ends s offset (negsuc n) h e = return-Ends (pos 0) (some invalid_argument) s h

  pub finish_seek-Ends :
      (offset whence : ℤ) (out : Option (Outcome GetResponse W))
      → Replies out
      → Ends (finish_seek offset whence out)
  unfolding finish_seek
  finish_seek-Ends offset whence none h = h
  finish_seek-Ends offset whence (some out) h =
      if_intro Ends (is_error out.error) _ _ (λ e. saved-Ends _ out h)
        (λ e.
          let calm = is_error-is_fatal out.error e in
          seek_from-Ends out.after offset whence (kept out h calm) (ground (arith, h.0)))

  pub close-Ends : (s : Session W) → IsSound s → Ends (close s)
  unfolding close return is_fatal
  close-Ends s h = ground (arith, h)
