-- ===== src/StringSet/Members.antt =====
-- pkg/set/stringset.go: which strings each operation's result contains.
use mefs_sdk_go.Prelude.{
  Bool, true, false, not, ◌&&◌, ◌||◌, ◌≡◌, refl, List, [], ◌∷◌, ◌++◌, arith, if◌then◌else◌, any,
  Bool-cases, inl, inr,
}
use mefs_sdk_go.Prelude.Text.{Text, text_eq, text_eq_iff, text_eq_refl, text_eq→eq}
use mefs_sdk_go.StringSet.{
  StringSet, contains, add, remove, add_all, add_where, create_string_set, copy_string_set,
  func_match, apply_func_loop, apply_func, is_empty, intersection, difference, union,
}

pub contains-append :
    (s t : StringSet) (x : Text) → contains (s ++ t) x ≡ (contains s x || contains t x)
unfolding contains
contains-append [] t x = refl
contains-append (k ∷ s) t x = ground (arith, contains-append s t x)

pub contains-any : (s : StringSet) (x : Text) → contains s x ≡ any (λ k. text_eq k x) s
unfolding contains
contains-any [] x = refl
contains-any (k ∷ s) x = ground (arith, contains-any s x)

-- `Add` makes its string an element and changes nothing else.
pub contains-add :
    (s : StringSet) (k x : Text) → contains (add s k) x ≡ (text_eq k x || contains s x)
unfolding add
contains-add s k x = elim (Bool-cases (contains s k)) [
  | inl old ↦ rw old (elim (Bool-cases (text_eq k x)) [
    | inl e ↦ rw e (rw (← text_eq→eq k x e) old)
    | inr n ↦ rw n
  ])
  | inr new ↦ rw (new, contains-append) (unfold contains in ground arith)
]

-- `Remove` takes its string out and changes nothing else.
pub contains-remove :
    (s : StringSet) (k x : Text) → contains (remove s k) x ≡ (not (text_eq k x) && contains s x)
unfolding contains remove
contains-remove [] k x = ground arith
contains-remove (j ∷ s) k x =
    ground (arith, contains-remove s k x, text_eq_iff j k, text_eq_iff j x, text_eq_iff k x)

pub contains-add_all :
    (l : List Text) (s : StringSet) (x : Text)
    → contains (add_all s l) x ≡ (contains s x || contains l x)
unfolding add_all contains
contains-add_all [] s x = ground arith
contains-add_all (k ∷ l) s x = ground (arith, contains-add_all l (add s k) x, contains-add s k x)

pub contains-add_where :
    (test : Text → Bool) (s n : StringSet) (x : Text)
    → contains (add_where test n s) x ≡ (contains n x || (test x && contains s x))
unfolding add_where contains
contains-add_where test [] n x = ground arith
contains-add_where test (k ∷ s) n x = elim (Bool-cases (text_eq k x)) [
  | inl e ↦
      let same = text_eq→eq k x e in
      rw (same, contains-add_where test s)
        (rw text_eq_refl (ground (arith, contains-add n x x, text_eq_refl x)))
  | inr ne ↦
      ground
        (arith, contains-add_where test s (if test k then add n k else n) x, contains-add n k x)
]

-- `Union` contains what either set contains.
pub contains-union :
    (s t : StringSet) (x : Text) → contains (union s t) x ≡ (contains s x || contains t x)
unfolding union contains
contains-union s t x = ground (arith, contains-add_all t (add_all [] s) x, contains-add_all s [] x)

pub contains-intersection :
    (s t : StringSet) (x : Text) → contains (intersection s t) x ≡ (contains t x && contains s x)
unfolding intersection contains
contains-intersection s t x = contains-add_where (λ k. contains t k) s [] x

pub contains-difference :
    (s t : StringSet) (x : Text)
    → contains (difference s t) x ≡ (not (contains t x) && contains s x)
unfolding difference contains
contains-difference s t x = contains-add_where (λ k. not (contains t k)) s [] x

pub contains-func_match :
    (s : StringSet) (f : Text → Text → Bool) (m x : Text)
    → contains (func_match s f m) x ≡ (f x m && contains s x)
unfolding func_match contains
contains-func_match s f m x = contains-add_where (λ k. f k m) s [] x

pub contains-create : (l : List Text) (x : Text) → contains (create_string_set l) x ≡ contains l x
unfolding create_string_set contains
contains-create l x = contains-add_all l [] x

pub contains-copy : (s : StringSet) (x : Text) → contains (copy_string_set s) x ≡ contains s x
unfolding copy_string_set contains
contains-copy s x = contains-add_all s [] x

pub contains-apply_func_loop :
    (f : Text → Text) (s n : StringSet) (x : Text)
    → contains (apply_func_loop f n s) x ≡ (contains n x || any (λ k. text_eq (f k) x) s)
unfolding apply_func_loop
contains-apply_func_loop f [] n x = ground arith
contains-apply_func_loop f (k ∷ s) n x =
    ground (arith, contains-apply_func_loop f s (add n (f k)) x, contains-add n (f k) x)

-- `ApplyFunc` contains the image of every element.
pub contains-apply_func :
    (s : StringSet) (f : Text → Text) (x : Text)
    → contains (apply_func s f) x ≡ any (λ k. text_eq (f k) x) s
unfolding apply_func contains
contains-apply_func s f x = contains-apply_func_loop f s [] x

-- An empty set contains nothing.
pub contains_empty : (s : StringSet) (x : Text) → is_empty s ≡ true → contains s x ≡ false
unfolding is_empty contains
contains_empty [] x h = refl
contains_empty (k ∷ s) x h = ground arith

-- A string is an element of a set after `Add`, `Remove`, `Union`, `Intersection`, `Difference`,
-- `FuncMatch`, `ApplyFunc` or a copy exactly when it is one of the set that the operation is named
-- for.
pub contains-operations :
    (s t : StringSet) (k m x : Text) (f : Text → Text) (test : Text → Text → Bool)
    → (contains (add s k) x ≡ (text_eq k x || contains s x))
      × (contains (remove s k) x ≡ (not (text_eq k x) && contains s x))
      × (contains (union s t) x ≡ (contains s x || contains t x))
      × (contains (intersection s t) x ≡ (contains t x && contains s x))
      × (contains (difference s t) x ≡ (not (contains t x) && contains s x))
      × (contains (func_match s test m) x ≡ (test x m && contains s x))
      × (contains (apply_func s f) x ≡ any (λ y. text_eq (f y) x) s)
      × (contains (copy_string_set s) x ≡ contains s x)
contains-operations s t k m x f test = (
  contains-add s k x,
  contains-remove s k x,
  contains-union s t x,
  contains-intersection s t x,
  contains-difference s t x,
  contains-func_match s test m x,
  contains-apply_func s f x,
  contains-copy s x,
)
