-- ===== src/Policy/Match/Overlap.antt =====
-- pkg/policy/bucket-policy.go: the first part of a pattern, which `resourceMatch` tests and does not
-- skip.
use mefs_sdk_go.Prelude.{
  ℕ, suc, ◌+◌, ◌≤◌, ◌<◌, Bool, true, false, ◌≡◌, refl, [], ◌∷◌, ◌++◌, arith, ◌==◌, if◌then◌else◌,
  length,
}
use mefs_sdk_go.Prelude.Text.{Text, text_eq, has_prefix, split}
use mefs_sdk_go.Prelude.Search.{has_suffix-append}
use mefs_sdk_go.Policy.Statement.{star}
use mefs_sdk_go.Policy.Match.{match_rest, match_parts, resource_match}
use mefs_sdk_go.Policy.Match.Glob.{Glob, finished, literal, leave, take}
use mefs_sdk_go.Policy.Match.Complete.{HasNoAsterisk, split_alone_of_plain}

-- The bytes of a pattern that are no asterisks.
literals : Text → ℕ
literals [] = 0
literals (c ∷ p) = if c == b'*' then literals p else suc (literals p)

literals-le_of_Glob : {p s : Text} → Glob p s → literals p ≤ length s
unfolding literals
literals-le_of_Glob finished = omega arith
literals-le_of_Glob (literal n g) = ground (arith, literals-le_of_Glob g)
literals-le_of_Glob (leave y g) = ground (arith, literals-le_of_Glob g)
literals-le_of_Glob (take {c} {d} {p} {s} y g) =
    let ih : literals (c ∷ p) ≤ length s = literals-le_of_Glob g in omega arith

literals-append : (p q : Text) → literals (p ++ q) ≡ literals p + literals q
unfolding literals
literals-append [] q = omega arith
literals-append (c ∷ p) q = ground (arith, literals-append p q)

literals_of_plain : (t : Text) → HasNoAsterisk t → literals t ≡ length t
unfolding literals
literals_of_plain [] h = refl
literals_of_plain (c ∷ t) h = ground (arith, literals_of_plain t h.1)

literals_of_doubled :
    (t : Text) → HasNoAsterisk t → literals (t ++ (star ++ t)) ≡ length t + length t
literals_of_doubled t h =
    rw (literals-append t (star ++ t), literals_of_plain t h)
      (unfold literals in omega (arith, literals_of_plain t h))

split-doubled :
    (t u : Text) → HasNoAsterisk t → HasNoAsterisk u → split (t ++ (star ++ u)) b'*' ≡ (t, u ∷ [])
unfolding split
split-doubled [] u h k = rw (split_alone_of_plain u k) refl
split-doubled (c ∷ t) u h k = rw (h.0, split-doubled t u h.1 k) refl

has_prefix_self : (t : Text) → has_prefix t t ≡ true
unfolding has_prefix
has_prefix_self [] = refl
has_prefix_self (c ∷ t) = ground (arith, has_prefix_self t)

match_rest_self : (t_glob : Bool) (t : Text) → match_rest t_glob t (t ∷ []) ≡ true
unfolding match_rest
match_rest_self t_glob t = ground (arith, has_suffix-append [] t)

match_parts_doubled : (p t : Text) → match_parts p t (t, t ∷ []) ≡ true
unfolding match_parts
match_parts_doubled p t = rw (has_prefix_self t, match_rest_self) refl

not-text_eq-star : (c : ℕ) (t : Text) → text_eq ((c ∷ t) ++ (star ++ (c ∷ t))) star ≡ false
unfolding text_eq
not-text_eq-star c [] = ground arith
not-text_eq-star c (d ∷ t) = ground arith

resource_match_doubled :
    (t : Text) → HasNoAsterisk t → 0 < length t → resource_match (t ++ (star ++ t)) t ≡ true
unfolding resource_match
resource_match_doubled [] h l = absurd (omega arith)
resource_match_doubled (c ∷ t) h l =
    rw (split-doubled (c ∷ t) (c ∷ t) h h, not-text_eq-star, match_parts_doubled)
      (unfold text_eq in refl)

-- `resourceMatch` accepts `t` for the pattern `t*t`, which `t` alone does not match, for every `t`
-- that is not empty and has no asterisk.
pub resource_match_overlap :
    (t : Text)
    → HasNoAsterisk t
    → 0 < length t
    → (resource_match (t ++ (star ++ t)) t ≡ true) × ¬ Glob (t ++ (star ++ t)) t
resource_match_overlap t h l = (
  resource_match_doubled t h l,
  λ g. omega (arith, literals-le_of_Glob g, literals_of_doubled t h),
)
