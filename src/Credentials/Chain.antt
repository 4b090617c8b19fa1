-- ===== src/Credentials/Chain.antt =====
-- pkg/credentials/chain.go: the first provider of a list that has credentials.
pub mod Search
use mefs_sdk_go.Prelude.{Bool, true, false, ◌&&◌, Option, none, some, List, [], ◌∷◌, if◌then◌else◌}
use mefs_sdk_go.Prelude.Text.{Text, text_eq}
use mefs_sdk_go.Credentials.Provider.{Value, Retrieved, Provider}
use mefs_sdk_go.Credentials.Static.{anonymous_value}

pub record Chain (W : Type 0) : Type 0 where
  pub providers : List (Provider W)
  pub curr : Option (Provider W)

-- `creds.AccessKeyID == "" && creds.SecretAccessKey == ""`
unfoldable pub has_no_keys : Value → Bool
has_no_keys v = text_eq v.access_key_id [] && text_eq v.secret_access_key []

module _ {W : Type 0} where
  -- the loop of `Retrieve`, with the provider to cache; errors are dropped
  unfoldable pub retrieve_loop :
      List (Provider W) → Option (Provider W) → W → Value × Option (Provider W) × W
  retrieve_loop [] curr w = (anonymous_value, curr, w)
  retrieve_loop (p ∷ ps) curr w =
      let (r, w') = p.retrieve w in
      let later = retrieve_loop ps curr w' in
      if has_no_keys r.value then later else (r.value, some p, w')

  -- `Retrieve` of a chain, whose error is nil
  unfoldable pub retrieve_chain : Chain W → W → Retrieved × Chain W × W
  retrieve_chain c w =
      let (v, curr, w') = retrieve_loop c.providers c.curr w in
      (record { value = v; error = none }, record c { curr = curr }, w')

  -- `IsExpired` of a chain
  unfoldable pub is_chain_expired : Chain W → W → Bool
  is_chain_expired c w = elim c.curr [ none ↦ true | some p ↦ p.is_expired w ]

  -- A chain as a provider; its state is the chain with that of its providers.
  unfoldable pub chain : Provider (Chain W × W)
  chain = record {
    retrieve = λ s. let (r, c, w) = retrieve_chain s.0 s.1 in (r, (c, w));
    is_expired = λ s. is_chain_expired s.0 s.1;
  }
