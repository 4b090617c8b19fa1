-- ===== src/StringSet/Keys.antt =====
-- pkg/set/stringset.go: the keys of a set after each operation.
use mefs_sdk_go.Prelude.{
  Bool, false, not, ◌≡◌, refl, List, [], ◌∷◌, ◌++◌, arith, Bool-cases, inl, inr,
}
use mefs_sdk_go.Prelude.Text.{Text, text_eq, text_eq_iff}
use mefs_sdk_go.StringSet.{
  StringSet, contains, add, remove, add_all, add_where, create_string_set, copy_string_set,
  func_match, apply_func_loop, apply_func, intersection, difference, union,
}
use mefs_sdk_go.StringSet.Members.{contains-append, contains-remove}

-- No key stands twice in the list.
abbrev pub HasDistinctKeys : StringSet → Type 0
HasDistinctKeys [] = Unit
HasDistinctKeys (k ∷ s) = (contains s k ≡ false) × HasDistinctKeys s

append-HasDistinctKeys :
    (s : StringSet) (k : Text)
    → HasDistinctKeys s
    → contains s k ≡ false
    → HasDistinctKeys (s ++ k ∷ [])
unfolding contains
append-HasDistinctKeys [] k d new = (refl, tt)
append-HasDistinctKeys (j ∷ s) k d new = (
  rw contains-append (ground (arith, text_eq_iff j k, text_eq_iff k j)),
  append-HasDistinctKeys s k d.1 (ground arith),
)

pub add-HasDistinctKeys : (s : StringSet) (k : Text) → HasDistinctKeys s → HasDistinctKeys (add s k)
unfolding add
add-HasDistinctKeys s k d = elim (Bool-cases (contains s k)) [
  | inl old ↦ rw old d
  | inr new ↦ rw new (append-HasDistinctKeys s k d new)
]

pub remove-HasDistinctKeys :
    (s : StringSet) (k : Text) → HasDistinctKeys s → HasDistinctKeys (remove s k)
unfolding remove
remove-HasDistinctKeys [] k d = tt
remove-HasDistinctKeys (j ∷ s) k d = elim (Bool-cases (text_eq j k)) [
  | inl e ↦ rw e (remove-HasDistinctKeys s k d.1)
  | inr n ↦ rw n (rw contains-remove (ground arith), remove-HasDistinctKeys s k d.1)
]

pub add_all-HasDistinctKeys :
    (l : List Text) (s : StringSet) → HasDistinctKeys s → HasDistinctKeys (add_all s l)
unfolding add_all
add_all-HasDistinctKeys [] s d = d
add_all-HasDistinctKeys (k ∷ l) s d =
    add_all-HasDistinctKeys l (add s k) (add-HasDistinctKeys s k d)

pub add_where-HasDistinctKeys :
    (test : Text → Bool) (s n : StringSet)
    → HasDistinctKeys n
    → HasDistinctKeys (add_where test n s)
unfolding add_where
add_where-HasDistinctKeys test [] n d = d
add_where-HasDistinctKeys test (k ∷ s) n d = elim (Bool-cases (test k)) [
  | inl e ↦ rw e (add_where-HasDistinctKeys test s (add n k) (add-HasDistinctKeys n k d))
  | inr f ↦ rw f (add_where-HasDistinctKeys test s n d)
]

pub apply_func-HasDistinctKeys :
    (f : Text → Text) (s n : StringSet)
    → HasDistinctKeys n
    → HasDistinctKeys (apply_func_loop f n s)
unfolding apply_func_loop
apply_func-HasDistinctKeys f [] n d = d
apply_func-HasDistinctKeys f (k ∷ s) n d =
    apply_func-HasDistinctKeys f s (add n (f k)) (add-HasDistinctKeys n (f k) d)

pub union-HasDistinctKeys : (s t : StringSet) → HasDistinctKeys (union s t)
unfolding union
union-HasDistinctKeys s t = add_all-HasDistinctKeys t _ (add_all-HasDistinctKeys s [] tt)

pub create-HasDistinctKeys : (l : List Text) → HasDistinctKeys (create_string_set l)
unfolding create_string_set
create-HasDistinctKeys l = add_all-HasDistinctKeys l [] tt

pub copy-HasDistinctKeys : (s : StringSet) → HasDistinctKeys (copy_string_set s)
unfolding copy_string_set
copy-HasDistinctKeys s = add_all-HasDistinctKeys s [] tt

pub intersection-HasDistinctKeys : (s t : StringSet) → HasDistinctKeys (intersection s t)
unfolding intersection
intersection-HasDistinctKeys s t = add_where-HasDistinctKeys (λ k. contains t k) s [] tt

pub difference-HasDistinctKeys : (s t : StringSet) → HasDistinctKeys (difference s t)
unfolding difference
difference-HasDistinctKeys s t = add_where-HasDistinctKeys (λ k. not (contains t k)) s [] tt

pub func_match-HasDistinctKeys :
    (s : StringSet) (f : Text → Text → Bool) (m : Text) → HasDistinctKeys (func_match s f m)
unfolding func_match
func_match-HasDistinctKeys s f m = add_where-HasDistinctKeys (λ k. f k m) s [] tt

-- Every operation makes a set of distinct keys: `Add` and `Remove` from a set of distinct keys, the
-- others from any.
pub operations-HasDistinctKeys :
    (s t : StringSet) (k m : Text) (f : Text → Text) (test : Text → Text → Bool)
    → HasDistinctKeys s
    → HasDistinctKeys (add s k)
      × HasDistinctKeys (remove s k)
      × HasDistinctKeys (union s t)
      × HasDistinctKeys (intersection s t)
      × HasDistinctKeys (difference s t)
      × HasDistinctKeys (func_match s test m)
      × HasDistinctKeys (apply_func s f)
      × HasDistinctKeys (copy_string_set s)
      × HasDistinctKeys (create_string_set t)
unfolding apply_func
operations-HasDistinctKeys s t k m f test d = (
  add-HasDistinctKeys s k d,
  remove-HasDistinctKeys s k d,
  union-HasDistinctKeys s t,
  intersection-HasDistinctKeys s t,
  difference-HasDistinctKeys s t,
  func_match-HasDistinctKeys s test m,
  apply_func-HasDistinctKeys f s [] tt,
  copy-HasDistinctKeys s,
  create-HasDistinctKeys t,
)
