-- ===== src/Credentials/Expiry.antt =====
-- pkg/credentials/credentials.go: the expiration that providers share. A time is the number of its
-- nanoseconds, and the clock that a provider may bring is the argument `now`.
use mefs_sdk_go.Prelude.{◌≡◌, Bool, if◌then◌else◌}
use mefs_sdk_go.Prelude.Int.{ℤ, pos, ◌-ℤ◌, ◌+ℤ◌, ltb_ℤ, int_laws, pos_part}

pub record Expiry : Type 0 where
  pub expiration : ℤ

unfoldable pub set_expiration : ℤ → ℤ → Expiry → Expiry
set_expiration expiration window e =
    if ltb_ℤ (pos 0) window
    then record { expiration = expiration -ℤ window }
    else record { expiration = expiration }

-- `IsExpired`
unfoldable pub is_expired_at : ℤ → Expiry → Bool
is_expired_at now e = ltb_ℤ e.expiration now

-- After an expiration is set, the credentials are expired at a time exactly when it is later than
-- the window before that expiration; a window that is not positive counts as 0.
pub is_expired_at-set_expiration :
    (e : Expiry) (expiration window now : ℤ)
    → is_expired_at now (set_expiration expiration window e)
      ≡ ltb_ℤ expiration (now +ℤ pos (pos_part window))
unfolding is_expired_at set_expiration
is_expired_at-set_expiration e expiration window now = grind int_laws
