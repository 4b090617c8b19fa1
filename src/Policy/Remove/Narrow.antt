-- ===== src/Policy/Remove/Narrow.antt =====
-- pkg/policy/bucket-policy.go: what the statements permit when some are removed.
use mefs_sdk_go.Prelude.{Bool, true, ◌&&◌, ◌||◌, ◌≡◌, none, some, List, any}
use mefs_sdk_go.Prelude.Text.{Text, text_eq}
use mefs_sdk_go.StringSet.{contains}
use mefs_sdk_go.Policy.Condition.{ConditionMap}
use mefs_sdk_go.Policy.Statement.{Statement}
use mefs_sdk_go.Policy.Remove.{Removal}
use mefs_sdk_go.Policy.Remove.Fewer.{is_relaxed}

-- The statement has the effect `e` on the principal `p` that does the action `a` to the resource
-- `r`, if its conditions are met.
unfoldable pub permits : Statement → Text → Text → Text → Text → Bool
permits s e p a r =
    text_eq s.effect e
    && contains s.principal.aws p
    && contains s.actions a
    && contains s.resources r

-- The conditions of the statement are met, where `holds` tells which conditions are.
unfoldable pub applies : (ConditionMap → Bool) → Statement → Bool
applies holds s = elim s.conditions [ none ↦ true | some c ↦ holds c ]

-- Some statement does so in the circumstances that `holds` describes.
unfoldable pub permitted_when :
    (ConditionMap → Bool) → List Statement → Text → Text → Text → Text → Bool
permitted_when holds statements e p a r = any (λ s. permits s e p a r && applies holds s) statements

-- The statements permit it in the circumstances, or a statement whose conditions are changed does when
-- its conditions are left aside.
unfoldable pub permitted_or_relaxed :
    (ConditionMap → Bool) → Text → Text → List Statement → Text → Text → Text → Text → Bool
permitted_or_relaxed holds bucket_name prefix statements e p a r =
    any (λ s. permits s e p a r && (applies holds s || is_relaxed bucket_name prefix s)) statements

module _ (holds : ConditionMap → Bool) (bucket_name prefix e p a r : Text) where
  -- The statement permits it in the circumstances.
  abbrev after : Statement → Bool
  after s = permits s e p a r && applies holds s

  -- A statement that is there already permits it in the circumstances, or is changed.
  abbrev before : Statement → Bool
  before s = permits s e p a r && (applies holds s || is_relaxed bucket_name prefix s)

  -- What the loop has gathered is permitted already.
  abbrev Within : List Statement → Removal → Type 0
  Within ss st =
      (permitted_when holds st.out e p a r ≡ true → any before ss ≡ true)
      × (permitted_when holds st.read_only_bucket_statements e p a r ≡ true → any before ss ≡ true)
