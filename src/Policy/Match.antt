-- ===== src/Policy/Match.antt =====
-- pkg/policy/bucket-policy.go: `resourceMatch`, the matcher of resource patterns.
pub mod Glob
pub mod Complete
pub mod Overlap
use mefs_sdk_go.Prelude.{
  ℕ, ◌+◌, Bool, true, false, not, ◌||◌, Option, none, some, List, [], ◌∷◌, length, drop,
  if◌then◌else◌,
}
use mefs_sdk_go.Prelude.Text.{Text, text_eq, has_prefix, has_suffix, index, split}
use mefs_sdk_go.Policy.Statement.{star}

-- The loop over the middle parts and the test of the last one. `parts` are the parts after the
-- first, and there is at least one.
unfoldable pub match_rest : Bool → Text → List Text → Bool
match_rest t_glob resource [] = true
match_rest t_glob resource (last ∷ []) = t_glob || has_suffix resource last
match_rest t_glob resource (part ∷ next ∷ parts) = elim (index resource part) [
  | none ↦ false
  | some i ↦ match_rest t_glob (drop (i + length part) resource) (next ∷ parts)
]

-- what follows the split, by the number of parts
unfoldable pub match_parts : Text → Text → Text × List Text → Bool
match_parts pattern' resource (first, []) = text_eq resource pattern'
match_parts pattern' resource (first, part ∷ parts) =
    if not (has_prefix resource first)
    then false
    else match_rest (has_suffix pattern' star) resource (part ∷ parts)

unfoldable pub resource_match : Text → Text → Bool
resource_match pattern' resource =
    if text_eq pattern' []
    then text_eq resource pattern'
    else if text_eq pattern' star
    then true
    else match_parts pattern' resource (split pattern' b'*')
