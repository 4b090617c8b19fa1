-- ===== src/Policy/Append.antt =====
-- pkg/policy/bucket-policy.go: appending statements to a list of statements.
pub mod Grants
use mefs_sdk_go.Prelude.{
  Bool, true, false, not, ◌&&◌, Option, none, some, List, [], ◌∷◌, if◌then◌else◌,
}
use mefs_sdk_go.Prelude.Text.{Text, text_eq}
use mefs_sdk_go.StringSet.{StringSet, is_empty, equals, union}
use mefs_sdk_go.Policy.Condition.{ConditionMap, deep_equal, merge_condition_map}
use mefs_sdk_go.Policy.Statement.{Statement, has_all}

-- What a round of the loop of `appendStatement` does with the statement at its index: go on to the
-- next one, or return with this one replaced.
pub data Merge : Type 0 where
  continue : Merge
  return : Statement → Merge

-- `s.Conditions != nil && statement.Conditions != nil`, and the merged conditions
unfoldable pub merge_conditions : Statement → Option ConditionMap → Option ConditionMap → Merge
merge_conditions s (some c) (some d) =
    return (record s { conditions = some (merge_condition_map c d) })
merge_conditions s _ _ = continue

unfoldable pub merge_statement : Statement → Statement → Merge
merge_statement s statement =
    let same_effect = text_eq s.effect statement.effect in
    let same_principal = equals s.principal.aws statement.principal.aws in
    let same_conditions = deep_equal s.conditions statement.conditions in
    if equals s.actions statement.actions && same_effect && same_principal && same_conditions
    then return (record s { resources = union s.resources statement.resources })
    else if equals s.resources statement.resources
        && same_effect
        && same_principal
        && same_conditions
    then return (record s { actions = union s.actions statement.actions })
    else if has_all s.resources statement.resources
        && has_all s.actions statement.actions
        && same_effect
        && has_all s.principal.aws statement.principal.aws
    then if same_conditions
      then return s
      else if equals s.resources statement.resources
      then merge_conditions s s.conditions statement.conditions
      else continue
    else continue

-- the list when the loop has ended without a return
unfoldable pub append_new : Statement → List Statement
append_new statement =
    if not (is_empty statement.actions && is_empty statement.resources) then statement ∷ [] else []

-- the end of a round: `rest` is what the later rounds make of the later statements
abbrev pub end_round : Merge → Statement → List Statement → List Statement → List Statement
end_round (return s') s statements rest = s' ∷ statements
end_round continue s statements rest = s ∷ rest

unfoldable pub append_statement : List Statement → Statement → List Statement
append_statement [] statement = append_new statement
append_statement (s ∷ statements) statement =
    end_round (merge_statement s statement) s statements (append_statement statements statement)

unfoldable pub append_statements : List Statement → List Statement → List Statement
append_statements statements [] = statements
append_statements statements (s ∷ more) = append_statements (append_statement statements s) more
