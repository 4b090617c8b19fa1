-- ===== src/Policy/Condition.antt =====
-- pkg/policy/bucket-policy-condition.go: the conditions of a statement. A statement without
-- conditions has a nil map; the maps and sets inside a condition map are never nil.
pub mod Merge
use mefs_sdk_go.Prelude.{
  Bool, true, false, not, ◌&&◌, Option, none, some, List, [], ◌∷◌, length, ◌==◌, if◌then◌else◌,
}
use mefs_sdk_go.Prelude.Text.{Text}
use mefs_sdk_go.Map.{Map, lookup, insert, delete, range_insert}
use mefs_sdk_go.StringSet.{StringSet, is_empty, equals, union, difference, copy_string_set}

abbrev pub ConditionKeyMap : Type 0
ConditionKeyMap = Map StringSet

abbrev pub ConditionMap : Type 0
ConditionMap = Map ConditionKeyMap

-- `ConditionKeyMap.Add`
unfoldable pub add_value : ConditionKeyMap → Text → StringSet → ConditionKeyMap
add_value ckm key value = elim (lookup ckm key) [
  | some v ↦ insert ckm key (union v value)
  | none ↦ insert ckm key (copy_string_set value)
]

-- `delete(ckm, key)` if the value that is now stored there is empty
unfoldable pub drop_if_empty : ConditionKeyMap → Text → ConditionKeyMap
drop_if_empty ckm key = elim (lookup ckm key) [
  | some v ↦ if is_empty v then delete ckm key else ckm
  | none ↦ ckm
]

-- `ConditionKeyMap.Remove`; a nil value is `none`
unfoldable pub remove_value : ConditionKeyMap → Text → Option StringSet → ConditionKeyMap
remove_value ckm key value = elim (lookup ckm key) [
  | some v ↦ elim value [
    | some d ↦ drop_if_empty (insert ckm key (difference v d)) key
    | none ↦ drop_if_empty ckm key
  ]
  | none ↦ ckm
]

-- `ConditionKeyMap.RemoveKey`
unfoldable pub remove_key : ConditionKeyMap → Text → ConditionKeyMap
remove_key ckm key = elim (lookup ckm key) [ some _ ↦ delete ckm key | none ↦ ckm ]

-- what the loop of `CopyConditionKeyMap` stores
abbrev pub copied_set : Option StringSet → StringSet → StringSet
copied_set _ v = copy_string_set v

unfoldable pub copy_condition_key_map : ConditionKeyMap → ConditionKeyMap
copy_condition_key_map cond_key_map = range_insert copied_set [] cond_key_map

-- what the loop of `mergeConditionKeyMap` stores
abbrev pub merged_set : Option StringSet → StringSet → StringSet
merged_set (some ev) v = union ev v
merged_set none v = copy_string_set v

unfoldable pub merge_condition_key_map : ConditionKeyMap → ConditionKeyMap → ConditionKeyMap
merge_condition_key_map m1 m2 = range_insert merged_set (copy_condition_key_map m1) m2

-- `ConditionMap.Add`
unfoldable pub add_condition : ConditionMap → Text → ConditionKeyMap → ConditionMap
add_condition cond cond_key cond_key_map = elim (lookup cond cond_key) [
  | some v ↦ insert cond cond_key (merge_condition_key_map v cond_key_map)
  | none ↦ insert cond cond_key (copy_condition_key_map cond_key_map)
]

-- `ConditionMap.Remove`
unfoldable pub remove_condition : ConditionMap → Text → ConditionMap
remove_condition cond cond_key = elim (lookup cond cond_key) [
  | some _ ↦ delete cond cond_key
  | none ↦ cond
]

-- what the first loop of `mergeConditionMap` stores
abbrev pub copied_map : Option ConditionKeyMap → ConditionKeyMap → ConditionKeyMap
copied_map _ v = copy_condition_key_map v

-- what the second loop of `mergeConditionMap` stores
abbrev pub merged_map : Option ConditionKeyMap → ConditionKeyMap → ConditionKeyMap
merged_map (some ev) v = merge_condition_key_map ev v
merged_map none v = copy_condition_key_map v

unfoldable pub merge_condition_map : ConditionMap → ConditionMap → ConditionMap
merge_condition_map m1 m2 = range_insert merged_map (range_insert copied_map [] m1) m2

-- `reflect.DeepEqual` on two maps: the same number of keys, and equal values at each key
unfoldable pub deep_equal_loop {ℓ} : {V : Type ℓ} → (V → V → Bool) → Map V → Map V → Bool
deep_equal_loop eq [] m2 = true
deep_equal_loop eq ((k, v) ∷ rest) m2 =
    (elim (lookup m2 k) [ some w ↦ eq v w | none ↦ false ]) && deep_equal_loop eq rest m2

unfoldable pub deep_equal_map {ℓ} : {V : Type ℓ} → (V → V → Bool) → Map V → Map V → Bool
deep_equal_map eq m1 m2 = length m1 == length m2 && deep_equal_loop eq m1 m2

-- `reflect.DeepEqual` on condition maps: nil is equal to nil alone
unfoldable pub deep_equal : Option ConditionMap → Option ConditionMap → Bool
deep_equal none none = true
deep_equal (some m1) (some m2) = deep_equal_map (deep_equal_map equals) m1 m2
deep_equal _ _ = false
