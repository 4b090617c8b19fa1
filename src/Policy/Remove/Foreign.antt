-- ===== src/Policy/Remove/Foreign.antt =====
-- pkg/policy/bucket-policy.go: the statements of other buckets when a policy is removed.
use mathlib.Core.List.{
  Mem, Mem-prop, mem-cons, mem-cons_self, mem-append_left, mem-append_right, not-mem-nil,
}
use mathlib.Core.Logic.Or
use mefs_sdk_go.Prelude.{
  Bool, true, false, ◌&&◌, ◌≡◌, refl, List, [], ◌∷◌, ◌++◌, arith, if◌then◌else◌, Bool-cases, ◌⊎◌,
  inl, inr,
}
use mefs_sdk_go.Prelude.Text.{Text, codes, text_eq, text_eq_refl, text_eq→eq, has_prefix}
use mefs_sdk_go.StringSet.{StringSet, contains, is_empty, intersection, func_match}
use mefs_sdk_go.StringSet.Members.{contains_empty, contains-intersection, contains-func_match}
use mefs_sdk_go.StringSet.Keys.{HasDistinctKeys}
use mefs_sdk_go.StringSet.Equality.{intersection-equals_iff}
use mefs_sdk_go.Policy.Statement.{
  Statement, common_bucket_actions, valid_actions, bucket_resource_of, has_all, is_valid_statement,
  allow, star, resource_prefix_of, starts_with_func,
}
use mefs_sdk_go.Policy.Remove.{
  is_public, has_no_conditions, Removal, get_in_use_policy, strip, place, remove_step, remove_loop,
  restore_loop, drop_lone_common, remove_statements,
}

abbrev get_location : Text
get_location = codes "s3:GetBucketLocation"

contains-valid_actions : contains valid_actions get_location ≡ true
unfolding valid_actions
contains-valid_actions = refl

contains-common : contains common_bucket_actions get_location ≡ true
unfolding common_bucket_actions
contains-common = refl

common_distinct : HasDistinctKeys common_bucket_actions
unfolding common_bucket_actions
common_distinct = (refl, tt)

common_shared :
    (s : Statement)
    → has_all s.actions common_bucket_actions ≡ true
    → contains (intersection s.actions valid_actions) get_location ≡ true
unfolding has_all
common_shared s h =
    rw (contains-intersection, contains-valid_actions)
      ((intersection-equals_iff s.actions common_bucket_actions common_distinct).0 h get_location
        contains-common)

no_members : (s : StringSet) → ((x : Text) → contains s x ≡ false) → is_empty s ≡ true
unfolding contains is_empty
no_members [] h = refl
no_members (k ∷ s) h = absurd (let e = h k in ground (arith, text_eq_refl k))

module _ (bucket_name : Text) where
  place-out :
      (st : Removal) (s : Statement)
      → ((place bucket_name st s).out ≡ st.out) ⊎ ((place bucket_name st s).out ≡ st.out ++ s ∷ [])
  unfolding place
  place-out st s = ground arith

  mem-place :
      (x : Statement) (st : Removal) (s : Statement)
      → Mem x st.out
      → Mem x (place bucket_name st s).out
  mem-place x st s m = elim (place-out st s) [
    | inl e ↦ rw e m
    | inr e ↦ rw e (mem-append_left (s ∷ []) m)
  ]

  mem-remove_step :
      (x : Statement) (prefix : Text) (in_use : Bool × Bool) (st : Removal) (s : Statement)
      → Mem x st.out
      → Mem x (remove_step bucket_name prefix in_use st s).out
  unfolding remove_step
  mem-remove_step x prefix in_use st s m = elim (Bool-cases (is_valid_statement s bucket_name)) [
    | inl valid ↦ rw valid (mem-place x st (strip bucket_name prefix in_use s) m)
    | inr foreign ↦ rw foreign (mem-append_left (s ∷ []) m)
  ]

  mem-remove_step_self :
      (x : Statement) (prefix : Text) (in_use : Bool × Bool) (st : Removal)
      → is_valid_statement x bucket_name ≡ false
      → Mem x (remove_step bucket_name prefix in_use st x).out
  unfolding remove_step
  mem-remove_step_self x prefix in_use st foreign =
      rw foreign (mem-append_right st.out mem-cons_self)

  mem-remove_loop_out :
      (x : Statement) (prefix : Text) (in_use : Bool × Bool) (rest : List Statement) (st : Removal)
      → Mem x st.out
      → Mem x (remove_loop bucket_name prefix in_use st rest).out
  unfolding remove_loop
  mem-remove_loop_out x prefix in_use [] st m = m
  mem-remove_loop_out x prefix in_use (s ∷ rest) st m =
      mem-remove_loop_out x prefix in_use rest (remove_step bucket_name prefix in_use st s)
        (mem-remove_step x prefix in_use st s m)

  mem-remove_loop :
      (x : Statement) (prefix : Text) (in_use : Bool × Bool) (rest : List Statement) (st : Removal)
      → is_valid_statement x bucket_name ≡ false
      → Mem x rest
      → Mem x (remove_loop bucket_name prefix in_use st rest).out
  unfolding remove_loop
  mem-remove_loop x prefix in_use [] st foreign m = absurd (not-mem-nil m)
  mem-remove_loop x prefix in_use (s ∷ rest) st foreign m =
      Or.elim Mem-prop (mem-cons.0 m)
        (λ e.
          mem-remove_loop_out x prefix in_use rest (remove_step bucket_name prefix in_use st s)
            (rw (← e) (mem-remove_step_self x prefix in_use st foreign)))
        (λ later.
          mem-remove_loop x prefix in_use rest (remove_step bucket_name prefix in_use st s) foreign
            later)

  mem-if_append :
      (x s : Statement) (b : Bool) (out : List Statement)
      → Mem x out
      → Mem x (if b then out else out ++ s ∷ [])
  mem-if_append x s true out m = m
  mem-if_append x s false out m = mem-append_left (s ∷ []) m

  mem-restore_loop :
      (x : Statement) (skip : Bool) (back out : List Statement)
      → Mem x out
      → Mem x (restore_loop bucket_name skip out back)
  unfolding restore_loop
  mem-restore_loop x skip [] out m = m
  mem-restore_loop x skip (s ∷ back) out m =
      mem-restore_loop x skip back _ (mem-if_append x s _ out m)

  -- The statement that the last test drops is one about this bucket.
  common-valid :
      (s : Statement)
      → contains s.resources (bucket_resource_of bucket_name) ≡ true
      → has_all s.actions common_bucket_actions ≡ true
      → is_public s ≡ true
      → is_valid_statement s bucket_name ≡ true
  unfolding is_valid_statement is_public
  common-valid s r h p =
      ground (
        arith,
        contains_empty (intersection s.actions valid_actions) get_location,
        common_shared s h,
      )

  mem-drop_lone_common :
      (x : Statement) (out : List Statement)
      → is_valid_statement x bucket_name ≡ false
      → Mem x out
      → Mem x (drop_lone_common bucket_name out)
  unfolding drop_lone_common
  mem-drop_lone_common x [] foreign m = m
  mem-drop_lone_common x (s ∷ t ∷ out) foreign m = m
  mem-drop_lone_common x (s ∷ []) foreign m =
      Or.elim Mem-prop (mem-cons.0 m) (λ e. kept (rw (← e) foreign)) (λ n. absurd (not-mem-nil n))
    where
      kept :
          is_valid_statement s bucket_name ≡ false
          → Mem x (
              if contains s.resources (bucket_resource_of bucket_name)
                && has_all s.actions common_bucket_actions
                && is_public s
                && has_no_conditions s
              then []
              else s ∷ [])
      kept f =
          let stays : (contains s.resources (bucket_resource_of bucket_name)
                && has_all s.actions common_bucket_actions
                && is_public s
                && has_no_conditions s)
              ≡ false =
            ground (arith, common-valid s) in
          rw stays m

  mem-remove_statements_refused :
      (x : Statement) (statements : List Statement) (prefix : Text)
      → is_valid_statement x bucket_name ≡ false
      → Mem x statements
      → Mem x (remove_statements statements bucket_name prefix)
  unfolding remove_statements
  mem-remove_statements_refused x statements prefix foreign m = mem-drop_lone_common x _ foreign (
      mem-restore_loop x _ _ _ (
        mem-remove_loop x prefix (get_in_use_policy statements bucket_name prefix) statements _
          foreign m))

  -- A statement that is no grant to everybody, does none of the actions that the program knows, or is
  -- about neither the bucket nor its objects.
  pub data IsForeign (s : Statement) : Type 0 where
    other_effect : ¬ (s.effect ≡ allow) → IsForeign s
    other_principal : contains s.principal.aws star ≡ false → IsForeign s
    other_actions :
        ((a : Text) → contains s.actions a ≡ true → contains valid_actions a ≡ false) → IsForeign s
    other_resources :
        contains s.resources (bucket_resource_of bucket_name) ≡ false
        → ((r : Text)
            → contains s.resources r ≡ true
            → has_prefix r (resource_prefix_of bucket_name) ≡ false)
        → IsForeign s

  IsForeign-refused : (s : Statement) → IsForeign s → is_valid_statement s bucket_name ≡ false
  unfolding is_valid_statement
  IsForeign-refused s (other_effect h) = elim (Bool-cases (text_eq s.effect allow)) [
    | inl e ↦ absurd (h (text_eq→eq s.effect allow e))
    | inr n ↦ ground arith
  ]
  IsForeign-refused s (other_principal h) = ground arith
  IsForeign-refused s (other_actions h) =
      let none : is_empty (intersection s.actions valid_actions) ≡ true =
        no_members _
          (λ a. rw (contains-intersection s.actions valid_actions a) (ground (arith, h a))) in
      ground arith
  IsForeign-refused s (other_resources h k) =
      let none : is_empty (func_match s.resources starts_with_func (resource_prefix_of bucket_name))
          ≡ true =
        no_members _ (λ r.
          rw (contains-func_match s.resources starts_with_func (resource_prefix_of bucket_name) r)
            (unfold starts_with_func in ground (arith, k r))) in
      ground arith

  -- The statements that are left alone: `removeStatements` keeps a statement that does not allow, is not
  -- for everybody, has none of the actions that the program gives, or has neither the bucket nor a
  -- resource in it among its resources, whatever the other statements are.
  pub mem-remove_statements :
      (x : Statement) (statements : List Statement) (prefix : Text)
      → IsForeign x
      → Mem x statements
      → Mem x (remove_statements statements bucket_name prefix)
  mem-remove_statements x statements prefix foreign =
      mem-remove_statements_refused x statements prefix (IsForeign-refused x foreign)
