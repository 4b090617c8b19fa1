-- ===== src/Credentials/Static.antt =====
-- pkg/credentials/static.go: credentials that never expire.
use mefs_sdk_go.Prelude.{false, ◌||◌, none, [], if◌then◌else◌}
use mefs_sdk_go.Prelude.Text.{Text, text_eq}
use mefs_sdk_go.Credentials.Signature.{SignatureType, signature_anonymous}
use mefs_sdk_go.Credentials.Provider.{Value, Retrieved, Provider}

-- `Value{SignerType: SignatureAnonymous}`
abbrev pub anonymous_value : Value
anonymous_value = record {
  access_key_id = [];
  secret_access_key = [];
  session_token = [];
  signer_type = signature_anonymous;
}

unfoldable pub retrieve_static : Value → Retrieved
retrieve_static v =
    if text_eq v.access_key_id [] || text_eq v.secret_access_key []
    then record { value = anonymous_value; error = none }
    else record { value = v; error = none }

-- `Static` as a provider, and the value of `NewStatic`
unfoldable pub static : {W : Type 0} → Value → Provider W
static v = record { retrieve = λ w. (retrieve_static v, w); is_expired = λ w. false }

unfoldable pub static_value : Text → Text → Text → SignatureType → Value
static_value id secret token signer_type = record {
  access_key_id = id;
  secret_access_key = secret;
  session_token = token;
  signer_type = signer_type;
}
