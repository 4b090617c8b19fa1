-- ===== src/Tests/SetRuns.antt =====
-- pkg/set: runs and instances.
use mefs_sdk_go.Prelude.{◌≡◌, ◌↔◌, refl, true, not, ◌&&◌, ◌||◌, [], ◌∷◌, ◌++◌, any}
use mefs_sdk_go.Prelude.Text.{codes, text_eq, has_prefix}
use mefs_sdk_go.StringSet.{
  StringSet, contains, add, remove, equals, union, intersection, difference, func_match, apply_func,
  copy_string_set, subset,
}
use mefs_sdk_go.StringSet.Members.{contains-operations}
use mefs_sdk_go.StringSet.Keys.{HasDistinctKeys}
use mefs_sdk_go.StringSet.Equality.{SameElements, equals_iff}

abbrev foo_bar : StringSet
foo_bar = codes "foo" ∷ codes "bar" ∷ []

abbrev bar_foo : StringSet
bar_foo = codes "bar" ∷ codes "foo" ∷ []

foo_bar-HasDistinctKeys : HasDistinctKeys foo_bar
unfolding contains text_eq
foo_bar-HasDistinctKeys = (refl, (refl, tt))

bar_foo-HasDistinctKeys : HasDistinctKeys bar_foo
unfolding contains text_eq
bar_foo-HasDistinctKeys = (refl, (refl, tt))

equals_iff_example : (equals foo_bar bar_foo ≡ true) ↔ SameElements foo_bar bar_foo
equals_iff_example = equals_iff foo_bar bar_foo foo_bar-HasDistinctKeys bar_foo-HasDistinctKeys

equal_sets : equals foo_bar bar_foo ≡ true
unfolding equals subset contains text_eq
equal_sets = refl

contains-operations_example :
    (contains (add foo_bar (codes "x")) (codes "x")
      ≡ (text_eq (codes "x") (codes "x") || contains foo_bar (codes "x")))
    × (contains (remove foo_bar (codes "x")) (codes "x")
        ≡ (not (text_eq (codes "x") (codes "x")) && contains foo_bar (codes "x")))
    × (contains (union foo_bar bar_foo) (codes "x")
        ≡ (contains foo_bar (codes "x") || contains bar_foo (codes "x")))
    × (contains (intersection foo_bar bar_foo) (codes "x")
        ≡ (contains bar_foo (codes "x") && contains foo_bar (codes "x")))
    × (contains (difference foo_bar bar_foo) (codes "x")
        ≡ (not (contains bar_foo (codes "x")) && contains foo_bar (codes "x")))
    × (contains (func_match foo_bar has_prefix (codes "f")) (codes "x")
        ≡ (has_prefix (codes "x") (codes "f") && contains foo_bar (codes "x")))
    × (contains (apply_func foo_bar (λ k. k ++ k)) (codes "x")
        ≡ any (λ y. text_eq (y ++ y) (codes "x")) foo_bar)
    × (contains (copy_string_set foo_bar) (codes "x") ≡ contains foo_bar (codes "x"))
contains-operations_example =
    contains-operations foo_bar bar_foo (codes "x") (codes "f") (codes "x") (λ k. k ++ k) has_prefix
