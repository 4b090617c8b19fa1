-- ===== src/Object/Live.antt =====
-- api-get-object.go: when an object and its goroutine fit together, and what the goroutine answers.
use mefs_sdk_go.Prelude.{
  ◌≡◌, Bool, true, false, not, ◌||◌, Option, none, some, List, [], ◌∷◌, ◌⊎◌, inl, inr, arith,
  if_intro,
}
use mefs_sdk_go.GetOptions.{Headers}
use mefs_sdk_go.Object.Types.{ObjectInfo, Stream, Err, Answer, ok, err, crashed, Server, GetRequest}
use mefs_sdk_go.Object.Fetcher.{
  Fetcher, Handled, replied, panicked, first_read, first_stat, info_only, later_read, reopened,
  handle, get_object, stat_object, first_object, after_stat, fetch_object,
}
use mefs_sdk_go.Object.Session.{Session, is_error, is_fatal}

abbrev pub is_some : Option Stream → Bool
is_some (some s) = true
is_some none = false

-- An error is not the bare `io.EOF`.
abbrev pub IsRefusal : {A : Type 0} → Answer A → Type 0
IsRefusal (ok a) = Unit
IsRefusal (err e) = is_fatal (some e) ≡ true
IsRefusal crashed = ⊥

-- The same, and a success has a reader.
abbrev pub HasReader : Answer (Option Stream × ObjectInfo) → Type 0
HasReader (ok (output, info)) = is_some output ≡ true
HasReader (err e) = is_fatal (some e) ≡ true
HasReader crashed = ⊥

-- An error of the first command is not the bare `io.EOF`, and a success has an object.
abbrev pub HasObject : Err ⊎ List ObjectInfo → Type 0
HasObject (inl e) = is_fatal (some e) ≡ true
HasObject (inr []) = ⊥
HasObject (inr (info ∷ infos)) = Unit

-- An error of the second command is not the bare `io.EOF`, and its status is below 400.
abbrev pub HasOutput : Err ⊎ Option Stream → Type 0
HasOutput (inl e) = is_fatal (some e) ≡ true
HasOutput (inr output) = is_some output ≡ true

-- The server never answers what makes the client panic, nor with the bare `io.EOF`.
pub record Serves {W : Type 0} (server : Server W) : Type 0 where
  pub head_object : (w : W) → HasObject ((server.head_object w).0)
  pub get_output : (w : W) → HasOutput ((server.get_object w).0)

-- A goroutine that has returned leaves a saved error that is not `io.EOF`, and the object is known
-- to be read only when there is a reader.
pub record IsSound {W : Type 0} (s : Session W) : Type 0 where
  pub gone : s.fetcher.exited ≡ true → is_fatal s.object.prev_err ≡ true
  pub opened : s.object.been_read ≡ true → is_some s.fetcher.http_reader ≡ true

-- What the goroutine did, for an object that has been read or not.
abbrev pub Answers : {W : Type 0} → Bool → Handled W → Type 0
Answers been_read panicked = ⊥
Answers been_read (replied r f w) =
    (f.exited ≡ true → is_fatal r.error ≡ true)
    × (been_read ≡ true → is_some f.http_reader ≡ true)
    × (is_error r.error ≡ false → r.did_read ≡ true → is_some f.http_reader ≡ true)

module _ {W : Type 0} (server : Server W) (serves : Serves server) where
  first-IsRefusal :
      (a : (Err ⊎ List ObjectInfo) × W) → HasObject (a.0) → IsRefusal ((first_object server a).0)
  unfolding first_object
  first-IsRefusal (inl e, w) h = h
  first-IsRefusal (inr [], w) h = h
  first-IsRefusal (inr (info ∷ infos), w) h = tt

  stat-IsRefusal : (opts : Headers) (w : W) → IsRefusal ((stat_object server opts w).0)
  unfolding stat_object
  stat-IsRefusal opts w = first-IsRefusal _ (serves.head_object w)

  fetched-HasReader :
      (info : ObjectInfo) (a : (Err ⊎ Option Stream) × W)
      → HasOutput (a.0)
      → HasReader ((fetch_object server info a).0)
  unfolding fetch_object
  fetched-HasReader info (inr output, w) h = h
  fetched-HasReader info (inl e, w) h = h

  after-HasReader :
      (a : Answer ObjectInfo × W) → IsRefusal (a.0) → HasReader ((after_stat server a).0)
  unfolding after_stat
  after-HasReader (ok info, w) h = fetched-HasReader info _ (serves.get_output w)
  after-HasReader (err e, w) h = h
  after-HasReader (crashed, w) h = h

  get-HasReader : (opts : Headers) (w : W) → HasReader ((get_object server opts w).0)
  unfolding get_object
  get-HasReader opts w = after-HasReader _ (stat-IsRefusal opts w)

  first_read-Answers :
      (b : Bool) (req : GetRequest) (f : Fetcher) (a : Answer (Option Stream × ObjectInfo) × W)
      → f.exited ≡ false
      → HasReader (a.0)
      → (b ≡ true → is_some f.http_reader ≡ true)
      → Answers b (first_read server req f a)
  unfolding first_read
  first_read-Answers b req f (err e, w) alive h k = ground arith
  first_read-Answers b req f (ok (none, info), w) alive h k = absurd (cc h)
  first_read-Answers b req f (ok (some s, info), w) alive h k = ground arith
  first_read-Answers b req f (crashed, w) alive h k = absurd h

  first_stat-Answers :
      (b : Bool) (f : Fetcher) (a : Answer ObjectInfo × W)
      → f.exited ≡ false
      → IsRefusal (a.0)
      → (b ≡ true → is_some f.http_reader ≡ true)
      → Answers b (first_stat server f a)
  unfolding first_stat
  first_stat-Answers b f (err e, w) alive h k = ground arith
  first_stat-Answers b f (ok info, w) alive h k = ground arith
  first_stat-Answers b f (crashed, w) alive h k = absurd h

  info_only-Answers :
      (b : Bool) (f : Fetcher) (a : Answer ObjectInfo × W)
      → f.exited ≡ false
      → IsRefusal (a.0)
      → (b ≡ true → is_some f.http_reader ≡ true)
      → Answers b (info_only server f a)
  unfolding info_only
  info_only-Answers b f (err e, w) alive h k = ground arith
  info_only-Answers b f (ok info, w) alive h k = ground arith
  info_only-Answers b f (crashed, w) alive h k = absurd h

  later_read-Answers :
      (b : Bool) (req : GetRequest) (f : Fetcher) (s : Option Stream) (w : W)
      → f.exited ≡ false
      → is_some s ≡ true
      → Answers b (later_read server req f s w)
  unfolding later_read
  later_read-Answers b req f none w alive h = absurd (cc h)
  later_read-Answers b req f (some s) w alive h = ground arith

  reopened-Answers :
      (b : Bool) (req : GetRequest) (f : Fetcher) (a : Answer (Option Stream × ObjectInfo) × W)
      → f.exited ≡ false
      → HasReader (a.0)
      → (b ≡ true → is_some f.http_reader ≡ true)
      → Answers b (reopened server req f a)
  unfolding reopened
  reopened-Answers b req f (err e, w) alive h k = ground arith
  reopened-Answers b req f (ok (output, info), w) alive h k =
      later_read-Answers b req _ output w alive h
  reopened-Answers b req f (crashed, w) alive h k = absurd h

  pub handle-Answers :
      (b : Bool) (req : GetRequest) (f : Fetcher) (w : W)
      → f.exited ≡ false
      → (b ≡ true → is_some f.http_reader ≡ true)
      → (req.been_read ≡ true → is_some f.http_reader ≡ true)
      → Answers b (handle server req f w)
  unfolding handle
  handle-Answers b req f w alive kept read_before =
      if_intro (Answers b) req.is_first_req _ _
        (λ first.
          if_intro (Answers b) req.is_read_op _ _
            (λ reads.
              first_read-Answers b req _ (get_object server _ w) alive (get-HasReader _ w) kept)
            (λ asks.
              first_stat-Answers b _ (stat_object server _ w) alive (stat-IsRefusal _ w) kept))
        (λ later.
          if_intro (Answers b) req.setting_object_info _ _
            (λ asks. info_only-Answers b _ (stat_object server _ w) alive (stat-IsRefusal _ w) kept)
            (λ reads.
              if_intro (Answers b) (req.did_offset_change || not req.been_read) _ _
                (λ new.
                  reopened-Answers b req _ (get_object server _ w) alive (get-HasReader _ w) kept)
                (λ same.
                  later_read-Answers b req f f.http_reader w alive (read_before (ground arith)))))
