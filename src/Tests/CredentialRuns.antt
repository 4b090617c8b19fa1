-- ===== src/Tests/CredentialRuns.antt =====
-- Credentials and the bucket cache: instances.
use mefs_sdk_go.Prelude.{
  leb, ◌+◌, List, [], ◌∷◌, ℕ, suc, ◌≡◌, refl, ◌↔◌, ◌⊎◌, ◌≢◌, true, false, none, some, [], ◌∷◌,
}
use mefs_sdk_go.Prelude.Text.{codes, text_eq}
use mefs_sdk_go.Prelude.Int.{pos, ltb_ℤ}
use mefs_sdk_go.GetOptions.{invalid, set_range}
use mefs_sdk_go.GetOptions.Ranges.{set_range_invalid_iff}
use mefs_sdk_go.Credentials.Signature.{signature_v2, signature_v4}
use mefs_sdk_go.Credentials.Provider.{Value, Provider}
use mefs_sdk_go.Credentials.Static.{anonymous_value, static, retrieve_static}
use mefs_sdk_go.Credentials.Chain.{retrieve_chain, is_chain_expired, has_no_keys}
use mefs_sdk_go.Credentials.Chain.Search.{retrieve_chain_exhausted}
use mefs_sdk_go.Credentials.Store.{new_credentials, get, refreshed, is_stale}
use mefs_sdk_go.Credentials.Store.Caching.{gets, elapsed, replicate, gets_cached}
use mefs_sdk_go.BucketCache.{set_of, delete_of, changed, get_location, get_location-changed}

abbrev without_keys : Value
without_keys = record {
  access_key_id = codes "A";
  secret_access_key = [];
  session_token = [];
  signer_type = signature_v4;
}

abbrev with_keys : Value
with_keys = record {
  access_key_id = codes "A";
  secret_access_key = codes "S";
  session_token = [];
  signer_type = signature_v2;
}

-- a provider that counts its calls
abbrev counting : Provider ℕ
counting = record {
  retrieve = λ w. (record { value = with_keys; error = none }, suc w);
  is_expired = λ w. false;
}

retrieve_chain_exhausted_example :
    ((retrieve_chain (record { providers = static without_keys ∷ []; curr = some counting }) 0).0
      ≡ record { value = anonymous_value; error = none })
    × ((w' : ℕ)
        → is_chain_expired
            ((retrieve_chain
              (record { providers = static without_keys ∷ []; curr = some counting })
              0).1)
            w'
          ≡ is_chain_expired
              (record { providers = static without_keys ∷ []; curr = some counting })
              w')
retrieve_chain_exhausted_example =
    retrieve_chain_exhausted (record { providers = static without_keys ∷ []; curr = some counting })
      0 ((λ w. unfold static retrieve_static has_no_keys text_eq in refl), tt)

-- A provider whose credentials expire when the clock is at 60.
abbrev expiring : Provider ℕ
expiring = record {
  retrieve = λ w. (record { value = with_keys; error = none }, w);
  is_expired = λ w. leb 60 w;
}

abbrev two_calls : List (ℕ → ℕ)
two_calls = (λ w. w + 1) ∷ (λ w. w + 50) ∷ []

gets_cached_example :
    gets two_calls (get (new_credentials expiring) 0).1 (get (new_credentials expiring) 0).2 ≡ (
      replicate 2 (get (new_credentials expiring) 0).0,
      (get (new_credentials expiring) 0).1,
      elapsed two_calls (get (new_credentials expiring) 0).2,
    )
gets_cached_example =
    gets_cached (new_credentials expiring) 0 two_calls
      (unfold get new_credentials is_stale refreshed in refl)
      (unfold get new_credentials is_stale refreshed in (refl, (refl, tt)))

get_location-changed_example :
    get_location
      (changed (
        delete_of (codes "b")
        ∷ set_of (codes "a") (codes "x")
        ∷ set_of (codes "b") (codes "y")
        ∷ []))
      (codes "a")
    ≡ some (codes "x")
unfolding text_eq
get_location-changed_example =
    get_location-changed
      (delete_of (codes "b") ∷ set_of (codes "a") (codes "x") ∷ set_of (codes "b") (codes "y") ∷ [])
      (codes "a")

set_range_invalid_iff_example :
    (set_range [] (pos 5) (pos 3) ≡ invalid)
    ↔ (ltb_ℤ (pos 5) (pos 0) ≡ true)
      ⊎ ((ltb_ℤ (pos 3) (pos 5) ≡ true) × (ltb_ℤ (pos 0) (pos 5) ≡ true) × (pos 3 ≢ pos 0))
set_range_invalid_iff_example = set_range_invalid_iff [] (pos 5) (pos 3)
