-- ===== src/Map/Laws.antt =====
-- The laws of a Go map with string keys.
use mefs_sdk_go.Prelude.{
  ◌≡◌, refl, Option, none, some, [], ◌∷◌, arith, if◌then◌else◌, Bool-cases, inl, inr,
}
use mefs_sdk_go.Prelude.Text.{Text, text_eq, text_eq_iff, text_eq→eq}
use mefs_sdk_go.Map.{Map, lookup, insert, delete, range_insert}

module _ {ℓ} {V : Type ℓ} where
  pub lookup-insert :
      (m : Map V) (k j : Text) (v : V)
      → lookup (insert m k v) j ≡ (if text_eq k j then some v else lookup m j)
  unfolding lookup insert
  lookup-insert [] k j v = refl
  lookup-insert ((i, w) ∷ m) k j v =
      ground (arith, text_eq_iff k j, text_eq_iff i k, text_eq_iff i j, lookup-insert m k j v)

  pub lookup-delete :
      (m : Map V) (k j : Text) → lookup (delete m k) j ≡ (if text_eq k j then none else lookup m j)
  unfolding lookup delete
  lookup-delete [] k j = ground arith
  lookup-delete ((i, w) ∷ m) k j =
      ground (arith, text_eq_iff k j, text_eq_iff i k, text_eq_iff i j, lookup-delete m k j)

  -- No key stands twice in the list.
  abbrev pub HasDistinctKeys : Map V → Type ℓ
  HasDistinctKeys [] = Unit
  HasDistinctKeys ((k, v) ∷ m) = (lookup m k ≡ none) × HasDistinctKeys m

  pub insert-HasDistinctKeys :
      (m : Map V) (k : Text) (v : V) → HasDistinctKeys m → HasDistinctKeys (insert m k v)
  unfolding lookup insert
  insert-HasDistinctKeys [] k v d = (refl, tt)
  insert-HasDistinctKeys ((j, w) ∷ m) k v d = elim (Bool-cases (text_eq j k)) [
    | inl e ↦ rw e d
    | inr n ↦ rw n (
      rw lookup-insert (ground (arith, d.0, text_eq_iff k j, text_eq_iff j k)),
      insert-HasDistinctKeys m k v d.1,
    )
  ]

  pub delete-HasDistinctKeys :
      (m : Map V) (k : Text) → HasDistinctKeys m → HasDistinctKeys (delete m k)
  unfolding lookup delete
  delete-HasDistinctKeys [] k d = tt
  delete-HasDistinctKeys ((j, w) ∷ m) k d = elim (Bool-cases (text_eq j k)) [
    | inl e ↦ rw e (delete-HasDistinctKeys m k d.1)
    | inr n ↦ rw n (rw lookup-delete (ground (arith, d.0)), delete-HasDistinctKeys m k d.1)
  ]

  pub range_insert-HasDistinctKeys :
      (g : Option V → V → V) (m out : Map V)
      → HasDistinctKeys out
      → HasDistinctKeys (range_insert g out m)
  unfolding range_insert
  range_insert-HasDistinctKeys g [] out d = d
  range_insert-HasDistinctKeys g ((k, v) ∷ m) out d =
      range_insert-HasDistinctKeys g m (insert out k (g (lookup out k) v))
        (insert-HasDistinctKeys out k (g (lookup out k) v) d)

  -- Each key of `m` meets the loop once, with the value that `out` had before.
  abbrev pub inserted : (Option V → V → V) → Option V → Option V → Option V
  inserted g old none = old
  inserted g old (some v) = some (g old v)

  pub lookup-range_insert :
      (g : Option V → V → V) (m out : Map V) (k : Text)
      → HasDistinctKeys m
      → lookup (range_insert g out m) k ≡ inserted g (lookup out k) (lookup m k)
  unfolding range_insert lookup
  lookup-range_insert g [] out k d = refl
  lookup-range_insert g ((j, v) ∷ m) out k d =
      rw (lookup-range_insert g m (insert out j (g (lookup out j) v)) k d.1, lookup-insert)
        (elim (Bool-cases (text_eq j k)) [
          | inl e ↦
              let same = text_eq→eq j k e in
              let absent : lookup m k ≡ none = rw (← same) d.0 in rw (e, absent, same) refl
          | inr n ↦ rw n refl
        ])
