-- ===== src/Policy/Query/Order.antt =====
-- pkg/policy/bucket-policy.go: the order in which Go visits the resources of a statement, which is
-- arbitrary, and `GetPolicy`.
use mefs_sdk_go.Prelude.{
  ℕ, Bool, true, not, ◌&&◌, ◌||◌, ◌≡◌, refl, sym, ap, subst, ◌∙◌, List, [], ◌∷◌, arith, ◌==◌, ltb,
  leb, length, any, if◌then◌else◌, Bool-cases, Bool-ext, inl, inr,
}
use mefs_sdk_go.Prelude.Text.{Text, text_eq, text_eq_refl, text_eq→eq}
use mefs_sdk_go.StringSet.{StringSet, contains, is_empty}
use mefs_sdk_go.StringSet.Members.{contains-func_match}
use mefs_sdk_go.StringSet.Equality.{SameElements}
use mefs_sdk_go.Policy.Statement.{Statement, object_resource_of, bucket_resource_of}
use mefs_sdk_go.Policy.Query.{
  Found, match_step, match_loop, matched_resources, object_step, bucket_step, policy_loop,
  nothing_found, policy_of, get_policy, get_object_policy, get_bucket_policy,
}
use mefs_sdk_go.Policy.Remove.{is_public, has_no_conditions}

any→contains :
    (p : Text → Bool) (s : StringSet)
    → any p s ≡ true
    → (x : Text) × (contains s x ≡ true) × (p x ≡ true)
unfolding contains
any→contains p [] h = cc
any→contains p (k ∷ s) h = elim (Bool-cases (p k)) [
  | inl y ↦ (k, rw text_eq_refl, y)
  | inr n ↦
      let rest : any p s ≡ true = ground arith in
      let (x, m, q) = any→contains p s rest in (x, ground arith, q)
]

contains→any :
    (p : Text → Bool) (s : StringSet) (x : Text) → contains s x ≡ true → p x ≡ true → any p s ≡ true
unfolding contains
contains→any p [] x m h = cc
contains→any p (k ∷ s) x m h = elim (Bool-cases (text_eq k x)) [
  | inl e ↦ rw (text_eq→eq k x e, h)
  | inr n ↦ ground (arith, contains→any p s x)
]

-- A test of some element does not see the order.
pub any-SameElements : (p : Text → Bool) (s t : StringSet) → SameElements s t → any p s ≡ any p t
any-SameElements p s t same =
    Bool-ext _ _ (λ h. let (x, m, q) = any→contains p s h in contains→any p t x (rw (← same x) m) q)
      (λ h. let (x, m, q) = any→contains p t h in contains→any p s x (rw (same x) m) q)

is_empty-any : (s : StringSet) → is_empty s ≡ not (any (λ _. true) s)
unfolding is_empty
is_empty-any [] = refl
is_empty-any (k ∷ s) = ground arith

is_empty-SameElements : (s t : StringSet) → SameElements s t → is_empty s ≡ is_empty t
is_empty-SameElements s t same =
    is_empty-any s
    ∙ (ap (λ b. not b) (any-SameElements (λ _. true) s t same) ∙ sym (is_empty-any t))

module _ (read_only write_only : Bool) where
  -- The flags after the loop, by the lengths of the resources alone.
  abbrev pub longer : Found → StringSet → Bool
  longer f rs = any (λ r. ltb (length f.matched_resource) (length r)) rs

  abbrev pub as_long : Found → StringSet → Bool
  as_long f rs = any (λ r. length f.matched_resource == length r) rs

  pub match_loop_read_only :
      (rs : StringSet) (f : Found)
      → (match_loop read_only write_only f rs).obj_read_only
        ≡ (if longer f rs then read_only else f.obj_read_only || (as_long f rs && read_only))
  unfolding match_loop match_step
  match_loop_read_only [] f = ground arith
  match_loop_read_only (r ∷ rs) f =
      ground (arith, match_loop_read_only rs (match_step read_only write_only f r))

  match_loop_write_only :
      (rs : StringSet) (f : Found)
      → (match_loop read_only write_only f rs).obj_write_only
        ≡ (if longer f rs then write_only else f.obj_write_only || (as_long f rs && write_only))
  unfolding match_loop match_step
  match_loop_write_only [] f = ground arith
  match_loop_write_only (r ∷ rs) f =
      ground (arith, match_loop_write_only rs (match_step read_only write_only f r))

  match_loop-length :
      (rs : StringSet) (f : Found) (n : ℕ)
      → leb n (length (match_loop read_only write_only f rs).matched_resource)
        ≡ (leb n (length f.matched_resource) || any (λ r. leb n (length r)) rs)
  unfolding match_loop match_step
  match_loop-length [] f n = ground arith
  match_loop-length (r ∷ rs) f n =
      ground (arith, match_loop-length rs (match_step read_only write_only f r) n)

  match_loop_bucket :
      (rs : StringSet) (f : Found)
      → ((match_loop read_only write_only f rs).bucket_common_found ≡ f.bucket_common_found)
        × ((match_loop read_only write_only f rs).bucket_read_only ≡ f.bucket_read_only)
        × ((match_loop read_only write_only f rs).bucket_write_only ≡ f.bucket_write_only)
  unfolding match_loop match_step
  match_loop_bucket [] f = (refl, refl, refl)
  match_loop_bucket (r ∷ rs) f =
      ground (arith, match_loop_bucket rs (match_step read_only write_only f r))

-- The same flags, and matched resources of the same length.
record SameFound (f g : Found) : Type 0 where
  common : f.bucket_common_found ≡ g.bucket_common_found
  bucket_reads : f.bucket_read_only ≡ g.bucket_read_only
  bucket_writes : f.bucket_write_only ≡ g.bucket_write_only
  obj_reads : f.obj_read_only ≡ g.obj_read_only
  obj_writes : f.obj_write_only ≡ g.obj_write_only
  matched : length f.matched_resource ≡ length g.matched_resource

eq_of_leb : (a b : ℕ) → leb a a ≡ leb a b → leb b a ≡ leb b b → a ≡ b
eq_of_leb a b h k = ground arith

module _ (read_only write_only : Bool) (f g : Found) (q : SameFound f g) (s t : StringSet)
    (same : SameElements s t) where
  match_loop-length_same :
      (n : ℕ)
      → leb n (length (match_loop read_only write_only f s).matched_resource)
        ≡ leb n (length (match_loop read_only write_only g t).matched_resource)
  match_loop-length_same n =
      rw
        (match_loop-length read_only write_only s f n, match_loop-length read_only write_only t g n)
        (rw (q.matched, any-SameElements (λ r. leb n (length r)) s t same) refl)

  match_loop-SameFound :
      SameFound (match_loop read_only write_only f s) (match_loop read_only write_only g t)
  match_loop-SameFound =
      let ms = match_loop_bucket read_only write_only s f in
      let mt = match_loop_bucket read_only write_only t g in
      let same_longer : longer read_only write_only f s ≡ longer read_only write_only g t =
        rw q.matched (any-SameElements _ s t same) in
      let same_as_long : as_long read_only write_only f s ≡ as_long read_only write_only g t =
        rw q.matched (any-SameElements _ s t same) in
      record {
        common = ms.0 ∙ (q.common ∙ sym mt.0);
        bucket_reads = ms.1 ∙ (q.bucket_reads ∙ sym mt.1);
        bucket_writes = ms.2 ∙ (q.bucket_writes ∙ sym mt.2);
        obj_reads =
            rw
              (
                match_loop_read_only read_only write_only s f,
                match_loop_read_only read_only write_only t g,
                same_longer,
                same_as_long,
                q.obj_reads,
              )
              refl;
        obj_writes =
            rw
              (
                match_loop_write_only read_only write_only s f,
                match_loop_write_only read_only write_only t g,
                same_longer,
                same_as_long,
                q.obj_writes,
              )
              refl;
        matched = eq_of_leb _ _ (match_loop-length_same _) (match_loop-length_same _);
      }

matched-SameElements :
    (s : Statement) (r : StringSet) (o : Text)
    → SameElements s.resources r
    → SameElements (matched_resources s o) (matched_resources (record s { resources = r }) o)
unfolding matched_resources
matched-SameElements s r o same x = elim (Bool-cases (contains r o)) [
  | inl here ↦ rw (same o, here) refl
  | inr not_here ↦ rw (same o, not_here, contains-func_match, contains-func_match, same x) refl
]

object_step-SameFound :
    (s : Statement) (r : StringSet) (o : Text) (f g : Found)
    → SameElements s.resources r
    → SameFound f g
    → SameFound (object_step o f s) (object_step o g (record s { resources = r }))
unfolding object_step get_object_policy is_public has_no_conditions
object_step-SameFound s r o f g same q =
    let m = matched-SameElements s r o same in
    elim (Bool-cases (is_empty (matched_resources (record s { resources = r }) o))) [
      | inl empty ↦ rw (is_empty-SameElements _ _ m, empty) q
      | inr full ↦
          rw (is_empty-SameElements _ _ m, full)
            (match_loop-SameFound (get_object_policy s).0 (get_object_policy s).1 f g q _ _ m)
    ]

-- `getBucketPolicy` does not read the resources.
get_bucket_policy_by_resources :
    (s : Statement) (r : StringSet) (prefix : Text)
    → get_bucket_policy (record s { resources = r }) prefix ≡ get_bucket_policy s prefix
unfolding get_bucket_policy is_public has_no_conditions
get_bucket_policy_by_resources s r prefix = refl

bucket_step-SameFound :
    (s : Statement) (r : StringSet) (b prefix : Text) (f g : Found)
    → SameElements s.resources r
    → SameFound f g
    → SameFound (bucket_step b prefix f s) (bucket_step b prefix g (record s { resources = r }))
unfolding bucket_step
bucket_step-SameFound s r b prefix f g same q =
    let flags = get_bucket_policy_by_resources s r prefix in
    elim (Bool-cases (contains r b)) [
      | inl here ↦
          rw (same b, here, flags)
            (record {
              common = rw q.common refl;
              bucket_reads = rw q.bucket_reads refl;
              bucket_writes = rw q.bucket_writes refl;
              obj_reads = q.obj_reads;
              obj_writes = q.obj_writes;
              matched = q.matched;
            })
      | inr not_here ↦ rw (same b, not_here) q
    ]

-- The same statements, with the resources of each in any order.
abbrev pub Reordered : List Statement → List Statement → Type 0
Reordered [] [] = Unit
Reordered [] (t ∷ ts) = ⊥
Reordered (s ∷ ss) [] = ⊥
Reordered (s ∷ ss) (t ∷ ts) =
    (t ≡ record s { resources = t.resources })
    × SameElements s.resources t.resources
    × Reordered ss ts

policy_loop-SameFound :
    (bucket_name prefix : Text) (ss ts : List Statement) (f g : Found)
    → Reordered ss ts
    → SameFound f g
    → SameFound (policy_loop bucket_name prefix f ss) (policy_loop bucket_name prefix g ts)
unfolding policy_loop
policy_loop-SameFound bucket_name prefix [] [] f g h q = q
policy_loop-SameFound bucket_name prefix [] (t ∷ ts) f g h q = elim h [ ]
policy_loop-SameFound bucket_name prefix (s ∷ ss) [] f g h q = elim h [ ]
policy_loop-SameFound bucket_name prefix (s ∷ ss) (t ∷ ts) f g h q =
    policy_loop-SameFound bucket_name prefix ss ts _ _ h.2 (
      subst
        (λ u.
          SameFound
            (bucket_step (bucket_resource_of bucket_name) prefix
              (object_step (object_resource_of bucket_name prefix) f s) s)
            (bucket_step (bucket_resource_of bucket_name) prefix
              (object_step (object_resource_of bucket_name prefix) g u) u))
        (sym h.0)
        (bucket_step-SameFound s t.resources _ prefix _ _ h.1
          (object_step-SameFound s t.resources _ f g h.1 q)))

policy_of-SameFound : (f g : Found) → SameFound f g → policy_of f ≡ policy_of g
unfolding policy_of
policy_of-SameFound f g q =
    rw (q.common, q.bucket_reads, q.bucket_writes, q.obj_reads, q.obj_writes) refl

-- `GetPolicy` finds the same policy whatever the order in which the resources are visited.
pub get_policy-Reordered :
    (ss ts : List Statement) (bucket_name prefix : Text)
    → Reordered ss ts
    → get_policy ss bucket_name prefix ≡ get_policy ts bucket_name prefix
unfolding get_policy
get_policy-Reordered ss ts bucket_name prefix h = policy_of-SameFound _ _ (
    policy_loop-SameFound bucket_name prefix ss ts nothing_found nothing_found h (record {
      common = refl;
      bucket_reads = refl;
      bucket_writes = refl;
      obj_reads = refl;
      obj_writes = refl;
      matched = refl;
    }))
