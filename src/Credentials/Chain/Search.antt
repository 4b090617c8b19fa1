-- ===== src/Credentials/Chain/Search.antt =====
-- pkg/credentials/chain.go: which credentials a chain finds.
use mefs_sdk_go.Prelude.{
  ◌≡◌, refl, Bool, true, ◌||◌, not, Option, none, List, [], ◌∷◌, map, All, arith, if◌then◌else◌,
  Bool-cases, inl, inr,
}
use mefs_sdk_go.Prelude.Text.{text_eq}
use mefs_sdk_go.Credentials.Provider.{Value, Provider}
use mefs_sdk_go.Credentials.Static.{anonymous_value, static, retrieve_static}
use mefs_sdk_go.Credentials.Chain.{
  Chain, has_no_keys, retrieve_loop, retrieve_chain, is_chain_expired,
}

-- A value has both of its keys, or not.
abbrev is_incomplete : Value → Bool
is_incomplete v = text_eq v.access_key_id [] || text_eq v.secret_access_key []

abbrev pub is_complete : Value → Bool
is_complete v = not (is_incomplete v)

-- The first complete value of a list, and the anonymous one if there is none.
abbrev pub first_complete : List Value → Value
first_complete [] = anonymous_value
first_complete (v ∷ vs) = if is_complete v then v else first_complete vs

static_has_keys : (v : Value) → has_no_keys ((retrieve_static v).value) ≡ not (is_complete v)
unfolding has_no_keys retrieve_static text_eq
static_has_keys v = elim (Bool-cases (is_incomplete v)) [
  | inl missing ↦ rw (missing) refl
  | inr complete ↦ rw (complete) (ground arith)
]

static_value_kept : (v : Value) → is_complete v ≡ true → (retrieve_static v).value ≡ v
unfolding retrieve_static
static_value_kept v h = ground arith

module _ {W : Type 0} where
  loop_static :
      (vs : List Value) (curr : Option (Provider W)) (w : W)
      → (retrieve_loop (map static vs) curr w).0 ≡ first_complete vs
  unfolding retrieve_loop static
  loop_static [] curr w = refl
  loop_static (v ∷ vs) curr w = elim (Bool-cases (is_complete v)) [
    | inl complete ↦ rw (static_has_keys v, complete) (static_value_kept v complete)
    | inr missing ↦ rw (static_has_keys v, missing) (loop_static vs curr w)
  ]

-- A chain of static providers returns the first value of the list that has both of its keys, and
-- the anonymous value if there is none, without an error.
pub retrieve_chain-static :
    {W : Type 0} (vs : List Value) (curr : Option (Provider W)) (w : W)
    → (retrieve_chain (record { providers = map static vs; curr = curr }) w).0
      ≡ record { value = first_complete vs; error = none }
unfolding retrieve_chain
retrieve_chain-static vs curr w = rw (loop_static vs curr w) refl

-- The provider never has keys.
abbrev pub HasNoKeys : {W : Type 0} → Provider W → Type 0
HasNoKeys {W} p = (w : W) → has_no_keys ((p.retrieve w).0.value) ≡ true

module _ {W : Type 0} where
  loop_exhausted :
      (ps : List (Provider W)) (curr : Option (Provider W)) (w : W)
      → All HasNoKeys ps
      → ((retrieve_loop ps curr w).0 ≡ anonymous_value) × ((retrieve_loop ps curr w).1 ≡ curr)
  unfolding retrieve_loop
  loop_exhausted [] curr w h = (refl, refl)
  loop_exhausted (p ∷ ps) curr w h = rw (h.0 w) (loop_exhausted ps curr _ h.1)

-- A chain whose providers all have no keys returns the anonymous value, but it keeps the provider
-- that it found earlier, which goes on to decide whether the anonymous value is expired.
pub retrieve_chain_exhausted :
    {W : Type 0} (c : Chain W) (w : W)
    → All HasNoKeys c.providers
    → ((retrieve_chain c w).0 ≡ record { value = anonymous_value; error = none })
      × ((w' : W) → is_chain_expired (retrieve_chain c w).1 w' ≡ is_chain_expired c w')
unfolding retrieve_chain is_chain_expired
retrieve_chain_exhausted c w h =
    let (v, curr) = loop_exhausted c.providers c.curr w h in (rw (v) refl, λ w'. rw (curr) refl)
