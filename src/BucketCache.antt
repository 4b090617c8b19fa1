-- ===== src/BucketCache.antt =====
-- bucket-cache.go: the cache of bucket locations. Its mutex makes each method a step of its own.
use mefs_sdk_go.Prelude.{◌≡◌, refl, Option, none, some, List, [], ◌∷◌, if◌then◌else◌}
use mefs_sdk_go.Prelude.Text.{Text, text_eq}
use mefs_sdk_go.Map.{Map, lookup, insert, delete}
use mefs_sdk_go.Map.Laws.{lookup-insert, lookup-delete}

pub record BucketLocationCache : Type 0 where
  pub items : Map Text

abbrev pub new_bucket_location_cache : BucketLocationCache
new_bucket_location_cache = record { items = [] }

unfoldable pub get_location : BucketLocationCache → Text → Option Text
get_location r bucket_name = lookup r.items bucket_name

unfoldable pub set_location : BucketLocationCache → Text → Text → BucketLocationCache
set_location r bucket_name location = record { items = insert r.items bucket_name location }

unfoldable pub delete_location : BucketLocationCache → Text → BucketLocationCache
delete_location r bucket_name = record { items = delete r.items bucket_name }

-- A change of the cache, and a list of changes, the first one last.
pub data Change : Type 0 where
  set_of : Text → Text → Change
  delete_of : Text → Change

unfoldable pub changed : List Change → BucketLocationCache
changed [] = new_bucket_location_cache
changed (set_of k v ∷ cs) = set_location (changed cs) k v
changed (delete_of k ∷ cs) = delete_location (changed cs) k

-- What the latest change of a bucket says.
abbrev pub latest : List Change → Text → Option Text
latest [] j = none
latest (set_of k v ∷ cs) j = if text_eq k j then some v else latest cs j
latest (delete_of k ∷ cs) j = if text_eq k j then none else latest cs j

-- After any sequence of `Set` and `Delete` on a new cache, `Get` returns the location that the
-- latest of them for the bucket stored, and nothing if it was a `Delete` or there was none.
pub get_location-changed : (cs : List Change) (j : Text) → get_location (changed cs) j ≡ latest cs j
unfolding get_location changed set_location delete_location lookup
get_location-changed [] j = refl
get_location-changed (set_of k v ∷ cs) j =
    rw (lookup-insert (changed cs).items k j v, get_location-changed cs j) refl
get_location-changed (delete_of k ∷ cs) j =
    rw (lookup-delete (changed cs).items k j, get_location-changed cs j) refl
