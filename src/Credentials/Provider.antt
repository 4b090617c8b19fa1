-- ===== src/Credentials/Provider.antt =====
-- pkg/credentials/credentials.go: a credentials value, and a provider of it.
use mefs_sdk_go.Prelude.{Bool, Option}
use mefs_sdk_go.Prelude.Text.{Text}
use mefs_sdk_go.Credentials.Signature.{SignatureType}

pub record Value : Type 0 where
  pub access_key_id : Text
  pub secret_access_key : Text
  pub session_token : Text
  pub signer_type : SignatureType

-- The two results of `Retrieve`; an error is its message.
pub record Retrieved : Type 0 where
  pub value : Value
  pub error : Option Text

-- The interface, for providers whose own state, with the clock and the environment, is a `W`.
pub record Provider (W : Type 0) : Type 0 where
  pub retrieve : W → Retrieved × W
  pub is_expired : W → Bool
