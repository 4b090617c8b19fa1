-- ===== src/Credentials/Store.antt =====
-- pkg/credentials/credentials.go: the container `Credentials`. Its mutex makes each method a step of
-- its own; the methods take the provider's state and return it.
pub mod Caching
use mefs_sdk_go.Prelude.{Bool, true, false, ◌||◌, Option, none, some, [], if◌then◌else◌}
use mefs_sdk_go.Prelude.Text.{Text}
use mefs_sdk_go.Credentials.Signature.{signature_default}
use mefs_sdk_go.Credentials.Provider.{Value, Retrieved, Provider}

-- `Value{}`
abbrev pub empty_value : Value
empty_value = record {
  access_key_id = [];
  secret_access_key = [];
  session_token = [];
  signer_type = signature_default;
}

pub record Credentials (W : Type 0) : Type 0 where
  pub creds : Value
  pub force_refresh : Bool
  pub provider : Provider W

module _ {W : Type 0} where
  -- `New`
  unfoldable pub new_credentials : Provider W → Credentials W
  new_credentials p = record { creds = empty_value; force_refresh = true; provider = p }

  -- `isExpired`, and `IsExpired` under the lock
  unfoldable pub is_stale : Credentials W → W → Bool
  is_stale c w = c.force_refresh || c.provider.is_expired w

  -- what `Get` makes of the two results of `Retrieve`
  unfoldable pub refreshed : Credentials W → Value → Option Text → W → Retrieved × Credentials W × W
  refreshed c v none w =
      (record { value = v; error = none }, record c { creds = v; force_refresh = false }, w)
  refreshed c v (some e) w = (record { value = empty_value; error = some e }, c, w)

  unfoldable pub get : Credentials W → W → Retrieved × Credentials W × W
  get c w =
      let (r, w') = c.provider.retrieve w in
      if is_stale c w
      then refreshed c r.value r.error w'
      else (record { value = c.creds; error = none }, c, w)

  unfoldable pub expire : Credentials W → Credentials W
  expire c = record c { force_refresh = true }
