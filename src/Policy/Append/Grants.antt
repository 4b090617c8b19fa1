-- ===== src/Policy/Append/Grants.antt =====
-- pkg/policy/bucket-policy.go: what the statements grant after one is appended.
use mefs_sdk_go.Prelude.{
  Bool, true, false, ◌&&◌, ◌||◌, ◌≡◌, refl, Option, none, some, List, [], ◌∷◌, arith, any, All,
  Bool-cases, ◌⊎◌, inl, inr,
}
use mefs_sdk_go.Prelude.Text.{Text, text_eq, text_eq→eq}
use mefs_sdk_go.StringSet.{StringSet, contains, is_empty, equals}
use mefs_sdk_go.StringSet.Members.{contains_empty, contains-union}
use mefs_sdk_go.StringSet.Keys.{HasDistinctKeys, union-HasDistinctKeys}
use mefs_sdk_go.StringSet.Equality.{equals→same, intersection-equals_iff}
use mefs_sdk_go.Policy.Condition.{ConditionMap, deep_equal}
use mefs_sdk_go.Policy.Statement.{Statement, has_all}
use mefs_sdk_go.Policy.Append.{
  Merge, continue, return, merge_conditions, merge_statement, append_new, append_statement,
  append_statements,
}

abbrev pub is_none {ℓ} : {A : Type ℓ} → Option A → Bool
is_none none = true
is_none (some _) = false

-- The statement has, without conditions, the effect `e` on the principal `p` that does the action
-- `a` to the resource `r`.
unfoldable pub grants : Statement → Text → Text → Text → Text → Bool
grants s e p a r =
    is_none s.conditions
    && text_eq s.effect e
    && contains s.principal.aws p
    && contains s.actions a
    && contains s.resources r

unfoldable pub granted : List Statement → Text → Text → Text → Text → Bool
granted statements e p a r = any (λ s. grants s e p a r) statements

-- The sets of the statement have distinct keys, as a Go map has.
pub record IsStatement (s : Statement) : Type 0 where
  pub actions : HasDistinctKeys s.actions
  pub principal : HasDistinctKeys s.principal.aws
  pub resources : HasDistinctKeys s.resources

deep_equal-is_none : (c d : Option ConditionMap) → deep_equal c d ≡ true → is_none c ≡ is_none d
unfolding deep_equal
deep_equal-is_none none none h = refl
deep_equal-is_none none (some d) h = cc
deep_equal-is_none (some c) none h = cc
deep_equal-is_none (some c) (some d) h = refl

has_all→contains :
    (s t : StringSet) (x : Text)
    → HasDistinctKeys t
    → has_all s t ≡ true
    → contains t x ≡ true
    → contains s x ≡ true
unfolding has_all
has_all→contains s t x d h m = (intersection-equals_iff s t d).0 h x m

same_elements :
    (s t : StringSet) (x : Text)
    → HasDistinctKeys s
    → HasDistinctKeys t
    → equals s t ≡ true
    → contains s x ≡ contains t x
same_elements s t x ds dt h = equals→same s t ds dt h x

same_text : (s t e : Text) → text_eq s t ≡ true → text_eq s e ≡ text_eq t e
same_text s t e h = rw (text_eq→eq s t h) refl

module _ (s t : Statement) (vs : IsStatement s) (vt : IsStatement t) (e p a r : Text) where
  -- A merged statement grants what the two grant.
  grants-merge_statement :
      (s' : Statement)
      → merge_statement s t ≡ return s'
      → grants s' e p a r ≡ (grants s e p a r || grants t e p a r)
  unfolding merge_statement merge_conditions grants
  grants-merge_statement s' h = ground (
    arith,
    same_elements s.actions t.actions a vs.actions vt.actions,
    same_elements s.resources t.resources r vs.resources vt.resources,
    same_elements s.principal.aws t.principal.aws p vs.principal vt.principal,
    has_all→contains s.actions t.actions a vt.actions,
    has_all→contains s.resources t.resources r vt.resources,
    has_all→contains s.principal.aws t.principal.aws p vt.principal,
    deep_equal-is_none s.conditions t.conditions,
    same_text s.effect t.effect e,
    contains-union s.resources t.resources r,
    contains-union s.actions t.actions a,
  )

merge_statement-IsStatement :
    (s t s' : Statement) → IsStatement s → merge_statement s t ≡ return s' → IsStatement s'
unfolding merge_statement merge_conditions
merge_statement-IsStatement s t s' vs h = record {
  actions = ground (arith, vs.actions, union-HasDistinctKeys s.actions t.actions);
  principal = ground (arith, vs.principal);
  resources = ground (arith, vs.resources, union-HasDistinctKeys s.resources t.resources);
}

Merge-cases : (m : Merge) → (m ≡ continue) ⊎ ((s : Statement) × (m ≡ return s))
Merge-cases continue = inl refl
Merge-cases (return s) = inr (s, refl)

append_new-IsStatement : (t : Statement) → IsStatement t → All IsStatement (append_new t)
unfolding append_new
append_new-IsStatement t v = elim (Bool-cases (is_empty t.actions && is_empty t.resources)) [
  | inl e ↦ rw e tt
  | inr n ↦ rw n (v, tt)
]

pub append_statement-IsStatement :
    (ss : List Statement) (t : Statement)
    → All IsStatement ss
    → IsStatement t
    → All IsStatement (append_statement ss t)
unfolding append_statement
append_statement-IsStatement [] t vs v = append_new-IsStatement t v
append_statement-IsStatement (s ∷ ss) t vs v = elim (Merge-cases (merge_statement s t)) [
  | inl e ↦ rw (e, append_statement) (vs.0, append_statement-IsStatement ss t vs.1 v)
  | inr (s', e) ↦ rw (e, append_statement) (merge_statement-IsStatement s t s' vs.0 e, vs.1)
]

module _ (e p a r : Text) where
  granted-append_new : (t : Statement) → granted (append_new t) e p a r ≡ grants t e p a r
  unfolding granted append_new grants
  granted-append_new t = ground (arith, contains_empty t.actions a, contains_empty t.resources r)

  granted-append_statement :
      (ss : List Statement) (t : Statement)
      → All IsStatement ss
      → IsStatement t
      → granted (append_statement ss t) e p a r ≡ (granted ss e p a r || grants t e p a r)
  unfolding granted append_statement
  granted-append_statement [] t vs v = granted-append_new t
  granted-append_statement (s ∷ ss) t vs v = elim (Merge-cases (merge_statement s t)) [
    | inl c ↦ rw (c, append_statement) (ground (arith, granted-append_statement ss t vs.1 v))
    | inr (s', c) ↦
        rw (c, append_statement) (ground (arith, grants-merge_statement s t vs.0 v e p a r s' c))
  ]

  -- After `appendStatements`, exactly what either list granted without conditions is granted, for
  -- statements whose sets have no key twice.
  pub granted-append_statements :
      (ss more : List Statement)
      → All IsStatement ss
      → All IsStatement more
      → granted (append_statements ss more) e p a r ≡ (granted ss e p a r || granted more e p a r)
  unfolding append_statements
  granted-append_statements ss [] vs vm = unfold granted in ground arith
  granted-append_statements ss (t ∷ more) vs vm =
      rw
        (
          granted-append_statements (append_statement ss t) more
              (append_statement-IsStatement ss t vs vm.0) vm.1,
          granted-append_statement ss t vs vm.0,
        )
        (unfold granted in ground arith)
