-- ===== src/Policy/Condition/Merge.antt =====
-- pkg/policy/bucket-policy-condition.go: what the merged conditions require.
use mefs_sdk_go.Prelude.{
  Bool, false, ◌||◌, ◌≡◌, refl, Option, none, some, [], arith, Option-cases, inl, inr,
}
use mefs_sdk_go.Prelude.Text.{Text}
use mefs_sdk_go.Map.{lookup, range_insert}
use mefs_sdk_go.Map.Laws.{
  HasDistinctKeys, lookup-range_insert, range_insert-HasDistinctKeys, inserted,
}
use mefs_sdk_go.StringSet.{StringSet, contains}
use mefs_sdk_go.StringSet.Members.{contains-union, contains-copy}
use mefs_sdk_go.Policy.Condition.{
  ConditionKeyMap, ConditionMap, copied_set, merged_set, copied_map, merged_map,
  copy_condition_key_map, merge_condition_key_map, merge_condition_map,
}

abbrev has_value : Option StringSet → Text → Bool
has_value none x = false
has_value (some v) x = contains v x

abbrev key_values : Option ConditionKeyMap → Text → Option StringSet
key_values none key = none
key_values (some m) key = lookup m key

-- `x` is among the values that the map has at `key`.
unfoldable pub key_has : ConditionKeyMap → Text → Text → Bool
key_has m key x = has_value (lookup m key) x

-- `x` is among the values that the conditions have at the operator `op` and `key`.
unfoldable pub requires : ConditionMap → Text → Text → Text → Bool
requires cond op key x = has_value (key_values (lookup cond op) key) x

-- The keys of the map, and of each map in it, are distinct.
pub record IsConditionMap (cond : ConditionMap) : Type 0 where
  pub operators : HasDistinctKeys cond
  pub keys : (op : Text) (m : ConditionKeyMap) → lookup cond op ≡ some m → HasDistinctKeys m

key_has-copy :
    (m : ConditionKeyMap) (key x : Text)
    → HasDistinctKeys m
    → key_has (copy_condition_key_map m) key x ≡ key_has m key x
unfolding key_has copy_condition_key_map lookup
key_has-copy m key x d =
    rw (lookup-range_insert copied_set m [] key d) (elim (Option-cases (lookup m key)) [
      | inl e ↦ rw e refl
      | inr (v, e) ↦ rw e (contains-copy v x)
    ])

copy-HasDistinctKeys : (m : ConditionKeyMap) → HasDistinctKeys (copy_condition_key_map m)
unfolding copy_condition_key_map
copy-HasDistinctKeys m = range_insert-HasDistinctKeys copied_set m [] tt

has_merged :
    (old new : Option StringSet) (x : Text)
    → has_value (inserted merged_set old new) x ≡ (has_value old x || has_value new x)
has_merged none none x = refl
has_merged (some a) none x = ground arith
has_merged none (some b) x = contains-copy b x
has_merged (some a) (some b) x = contains-union a b x

-- The merged map has at each key the values of both maps.
pub key_has-merge :
    (m1 m2 : ConditionKeyMap) (key x : Text)
    → HasDistinctKeys m1
    → HasDistinctKeys m2
    → key_has (merge_condition_key_map m1 m2) key x ≡ (key_has m1 key x || key_has m2 key x)
unfolding merge_condition_key_map
key_has-merge m1 m2 key x d1 d2 = rw (← key_has-copy m1 key x d1) (
    unfold key_has in
    rw (lookup-range_insert merged_set m2 (copy_condition_key_map m1) key d2)
      (has_merged (lookup (copy_condition_key_map m1) key) (lookup m2 key) x))

key_has_self : (m : ConditionKeyMap) (key x : Text) → has_value (lookup m key) x ≡ key_has m key x
unfolding key_has
key_has_self m key x = refl

-- The keys of the map are distinct, if there is a map.
abbrev KeysOf : Option ConditionKeyMap → Type 0
KeysOf none = Unit
KeysOf (some m) = HasDistinctKeys m

requires_merged :
    (o p : Option ConditionKeyMap) (key x : Text)
    → KeysOf o
    → KeysOf p
    → has_value (key_values (inserted merged_map (inserted copied_map none o) p) key) x
      ≡ (has_value (key_values o key) x || has_value (key_values p key) x)
requires_merged none none key x d e = refl
requires_merged none (some n) key x d e = rw (key_has_self, key_has_self) (key_has-copy n key x e)
requires_merged (some m) none key x d e = simp key_has_self (ground (arith, key_has-copy m key x d))
requires_merged (some m) (some n) key x d e = simp key_has_self (
    ground (
      arith,
      key_has-merge (copy_condition_key_map m) n key x (copy-HasDistinctKeys m) e,
      key_has-copy m key x d,
    ))

keys_of :
    (a : ConditionMap) (op : Text) (o : Option ConditionKeyMap)
    → IsConditionMap a
    → lookup a op ≡ o
    → KeysOf o
keys_of a op none v e = tt
keys_of a op (some m) v e = v.keys op m e

-- The merged conditions require at each operator and key the values that either requires, where no
-- key stands twice in either of them.
pub requires-merge :
    (a b : ConditionMap) (op key x : Text)
    → IsConditionMap a
    → IsConditionMap b
    → requires (merge_condition_map a b) op key x ≡ (requires a op key x || requires b op key x)
unfolding requires merge_condition_map lookup
requires-merge a b op key x va vb =
    rw
      (
        lookup-range_insert merged_map b (range_insert copied_map [] a) op vb.operators,
        lookup-range_insert copied_map a [] op va.operators,
      )
      (requires_merged (lookup a op) (lookup b op) key x (keys_of a op _ va refl)
        (keys_of b op _ vb refl))
