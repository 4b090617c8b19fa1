-- ===== src/Map.antt =====
-- Go maps with string keys: the list of entries, each key once, in the order of insertion.
pub mod Laws
use mefs_sdk_go.Prelude.{ℕ, Bool, Option, none, some, List, [], ◌∷◌, length, if◌then◌else◌}
use mefs_sdk_go.Prelude.Text.{Text, text_eq}

abbrev pub Map {ℓ} : Type ℓ → Type ℓ
Map V = List (Text × V)

module _ {ℓ} {V : Type ℓ} where
  -- `v, ok := m[k]`
  unfoldable pub lookup : Map V → Text → Option V
  lookup [] k = none
  lookup ((j, v) ∷ m) k = if text_eq j k then some v else lookup m k

  -- `m[k] = v`
  unfoldable pub insert : Map V → Text → V → Map V
  insert [] k v = (k, v) ∷ []
  insert ((j, w) ∷ m) k v = if text_eq j k then (j, v) ∷ m else (j, w) ∷ insert m k v

  -- `delete(m, k)`
  unfoldable pub delete : Map V → Text → Map V
  delete [] k = []
  delete ((j, v) ∷ m) k = let rest = delete m k in if text_eq j k then rest else (j, v) ∷ rest

  -- `for k, v := range m { out[k] = g(out[k], v) }`
  unfoldable pub range_insert : (Option V → V → V) → Map V → Map V → Map V
  range_insert g out [] = out
  range_insert g out ((k, v) ∷ m) = range_insert g (insert out k (g (lookup out k) v)) m
