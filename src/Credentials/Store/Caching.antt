-- ===== src/Credentials/Store/Caching.antt =====
-- pkg/credentials/credentials.go: when the container asks its provider.
use mefs_sdk_go.Prelude.{
  ℕ, zero, suc, ◌≡◌, refl, sym, ap, ◌∙◌, List, [], ◌∷◌, false, Option, none, some, Bool-cases, inl,
  inr, length, arith,
}
use mefs_sdk_go.Prelude.Text.{Text}
use mefs_sdk_go.Credentials.Provider.{Value, Retrieved, Provider}
use mefs_sdk_go.Credentials.Store.{Credentials, is_stale, refreshed, get}

-- Calls of `Get`, one for each change that the world, with the clock, goes through before it: their
-- results, and what they leave.
unfoldable pub gets :
    {W : Type 0} → List (W → W) → Credentials W → W → List Retrieved × Credentials W × W
gets [] c w = ([], c, w)
gets (change ∷ changes) c w =
    let (r, c', w') = get c (change w) in
    let (rs, c'', w'') = gets changes c' w' in (r ∷ rs, c'', w'')

-- The world after the changes alone.
abbrev pub elapsed : {W : Type 0} → List (W → W) → W → W
elapsed [] w = w
elapsed (change ∷ changes) w = elapsed changes (change w)

-- The provider is not expired after any of the changes.
abbrev pub NeverExpired : {W : Type 0} → Provider W → List (W → W) → W → Type 0
NeverExpired p [] w = Unit
NeverExpired p (change ∷ changes) w =
    (p.is_expired (change w) ≡ false) × NeverExpired p changes (change w)

abbrev pub replicate : {A : Type 0} → ℕ → A → List A
replicate zero x = []
replicate (suc n) x = x ∷ replicate n x

module _ {W : Type 0} where
  -- the container when it need not be refreshed
  get_fresh :
      (c : Credentials W) (w : W)
      → is_stale c w ≡ false
      → get c w ≡ (record { value = c.creds; error = none }, c, w)
  unfolding get
  get_fresh c w h = rw (h) refl

  gets_fresh :
      (changes : List (W → W)) (c : Credentials W) (w : W)
      → c.force_refresh ≡ false
      → NeverExpired c.provider changes w
      → gets changes c w ≡ (
        replicate (length changes) (record { value = c.creds; error = none }),
        c,
        elapsed changes w,
      )
  unfolding gets is_stale
  gets_fresh [] c w calm h = refl
  gets_fresh (change ∷ changes) c w calm (here, later) =
      rw
        (
          get_fresh c (change w) (rw (calm, here, is_stale) refl),
          gets_fresh changes c (change w) calm later,
        )
        refl

  -- what a successful `Get` leaves
  abbrev Settled : Retrieved × Credentials W × W → Type 0
  Settled (r, c, w) =
      r.error ≡ none → (r ≡ record { value = c.creds; error = none }) × (c.force_refresh ≡ false)

  refreshed-Settled :
      (c : Credentials W) (v : Value) (e : Option Text) (w : W) → Settled (refreshed c v e w)
  unfolding refreshed
  refreshed-Settled c v none w = λ h. (refl, refl)
  refreshed-Settled c v (some e) w = λ h. cc

  get-Settled : (c : Credentials W) (w : W) → Settled (get c w)
  unfolding get
  get-Settled c w =
      let (r, w') = c.provider.retrieve w in
      elim (Bool-cases (is_stale c w)) [
        | inl stale ↦ rw (stale) (refreshed-Settled c r.value r.error w')
        | inr fresh ↦ rw (fresh) (λ h. (refl, unfold is_stale in ground (arith, fresh)))
      ]

-- After a `Get` that succeeds, later calls of it return what it returned, for as long as the provider is not
-- expired when they ask, whatever else changes in the world between them. They leave the container as it
-- was and the world as the changes alone make it, so that `Retrieve` is not called.
pub gets_cached :
    {W : Type 0} (c : Credentials W) (w : W) (changes : List (W → W))
    → (get c w).0.error ≡ none
    → NeverExpired (get c w).1.provider changes (get c w).2
    → gets changes (get c w).1 (get c w).2
      ≡ (replicate (length changes) (get c w).0, (get c w).1, elapsed changes (get c w).2)
gets_cached c w changes succeeds fresh =
    let (value, calm) = get-Settled c w succeeds in
    gets_fresh changes (get c w).1 (get c w).2 calm fresh
    ∙ ap (λ r. (replicate (length changes) r, (get c w).1, elapsed changes (get c w).2)) (sym value)
