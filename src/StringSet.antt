-- ===== src/StringSet.antt =====
-- pkg/set/stringset.go: the type `StringSet`, a Go map with empty values.
-- A set is the list of its keys, each once, in the order in which they were added. Go visits them
-- in an arbitrary order, so that the order of the list means nothing.
pub mod Members
pub mod Keys
pub mod Equality
use mefs_sdk_go.Prelude.{
  ℕ, Bool, true, false, not, ◌&&◌, List, [], ◌∷◌, ◌++◌, length, ◌==◌, if◌then◌else◌,
}
use mefs_sdk_go.Prelude.Text.{Text, text_eq}

abbrev pub StringSet : Type 0
StringSet = List Text

-- `Contains`
unfoldable pub contains : StringSet → Text → Bool
contains [] s = false
contains (k ∷ set) s = if text_eq k s then true else contains set s

abbrev pub new_string_set : StringSet
new_string_set = []

-- `Add`: a key that is there stays where it is
unfoldable pub add : StringSet → Text → StringSet
add set s = if contains set s then set else set ++ s ∷ []

-- `Remove`: the key goes, the others stay
unfoldable pub remove : StringSet → Text → StringSet
remove [] s = []
remove (k ∷ set) s = let rest = remove set s in if text_eq k s then rest else k ∷ rest

unfoldable pub is_empty : StringSet → Bool
is_empty set = length set == 0

-- the loops `for _, k := range l { set.Add(k) }`
unfoldable pub add_all : StringSet → List Text → StringSet
add_all set [] = set
add_all set (k ∷ l) = add_all (add set k) l

-- `for k := range set { if test(k) { nset.Add(k) } }`
unfoldable pub add_where : (Text → Bool) → StringSet → StringSet → StringSet
add_where test nset [] = nset
add_where test nset (k ∷ set) = add_where test (if test k then add nset k else nset) set

unfoldable pub create_string_set : List Text → StringSet
create_string_set sl = add_all new_string_set sl

unfoldable pub copy_string_set : StringSet → StringSet
copy_string_set set = add_all new_string_set set

-- `FuncMatch`
unfoldable pub func_match : StringSet → (Text → Text → Bool) → Text → StringSet
func_match set match_fn match_string = add_where (λ k. match_fn k match_string) new_string_set set

-- `for k := range set { nset.Add(applyFn(k)) }`
unfoldable pub apply_func_loop : (Text → Text) → StringSet → StringSet → StringSet
apply_func_loop apply_fn nset [] = nset
apply_func_loop apply_fn nset (k ∷ set) = apply_func_loop apply_fn (add nset (apply_fn k)) set

-- `ApplyFunc`
unfoldable pub apply_func : StringSet → (Text → Text) → StringSet
apply_func set apply_fn = apply_func_loop apply_fn new_string_set set

-- the loop of `Equals`
unfoldable pub subset : StringSet → StringSet → Bool
subset [] sset = true
subset (k ∷ set) sset = if not (contains sset k) then false else subset set sset

unfoldable pub equals : StringSet → StringSet → Bool
equals set sset = if not (length set == length sset) then false else subset set sset

unfoldable pub intersection : StringSet → StringSet → StringSet
intersection set sset = add_where (λ k. contains sset k) new_string_set set

unfoldable pub difference : StringSet → StringSet → StringSet
difference set sset = add_where (λ k. not (contains sset k)) new_string_set set

unfoldable pub union : StringSet → StringSet → StringSet
union set sset = add_all (add_all new_string_set set) sset
