-- ===== src/Policy/Match/Complete.antt =====
-- pkg/policy/bucket-policy.go: which resources `resourceMatch` accepts.
use mathlib.Core.List.{append_assoc}
use mefs_sdk_go.Prelude.{
  ℕ, ◌+◌, ◌≤◌, Bool, true, false, ◌≡◌, refl, ap, ◌∙◌, sym, some, List, [], ◌∷◌, ◌++◌, arith, ◌==◌,
  length, drop, length-append, Bool-cases, inl, inr,
}
use mefs_sdk_go.Prelude.Text.{
  Text, text_eq, text_eq_iff, text_eq→eq, has_prefix, has_suffix, index, split,
}
use mefs_sdk_go.Prelude.Search.{has_prefix-append, has_suffix-append, drop-append_le, index-append}
use mefs_sdk_go.Policy.Statement.{star}
use mefs_sdk_go.Policy.Match.{match_rest, match_parts, resource_match}
use mefs_sdk_go.Policy.Match.Glob.{
  Glob, finished, literal, leave, take, HasParts, IsSplit, Glob-IsSplit,
}

-- Skipping the first occurrence of a part leaves at least what follows a later one.
drop_found :
    (i : ℕ) (w p v : Text)
    → i ≤ length w
    → (w' : Text) × (drop (i + length p) (w ++ (p ++ v)) ≡ w' ++ v)
drop_found i w p v h = (
  drop (i + length p) (w ++ p),
  rw (← append_assoc w p v)
      (drop-append_le (i + length p) (w ++ p) v (omega (arith, length-append w p))),
)

match_rest-found :
    (t_glob : Bool) (t part next : Text) (parts : List Text) (i : ℕ)
    → index t part ≡ some i
    → match_rest t_glob t (part ∷ next ∷ parts)
      ≡ match_rest t_glob (drop (i + length part) t) (next ∷ parts)
unfolding match_rest
match_rest-found t_glob t part next parts i found = rw (found, match_rest) refl

match_rest-HasParts :
    (t_glob : Bool) (parts : List Text) (w v : Text)
    → HasParts parts v
    → match_rest t_glob (w ++ v) parts ≡ true
match_rest-HasParts t_glob [] w v h = unfold match_rest in refl
match_rest-HasParts t_glob (last ∷ []) w v (u, e) =
    unfold match_rest in
    rw (e, ← append_assoc w u last, has_suffix-append (w ++ u) last) (ground arith)
match_rest-HasParts t_glob (part ∷ next ∷ parts) w v (u, v', e, h) =
    let (i, found, le) = index-append (w ++ u) part v' in
    let (w', rest) = drop_found i (w ++ u) part v' le in
    rw (e, ← append_assoc w u (part ++ v'))
      (match_rest-found t_glob ((w ++ u) ++ (part ++ v')) part next parts i found
        ∙ rw rest (match_rest-HasParts t_glob (next ∷ parts) w' v' h))

match_parts-IsSplit :
    (pattern' resource : Text) (parts : Text × List Text)
    → (parts.1 ≡ [] → parts.0 ≡ pattern')
    → IsSplit parts resource
    → match_parts pattern' resource parts ≡ true
unfolding match_parts
match_parts-IsSplit pattern' resource (first, []) whole e =
    (text_eq_iff resource pattern').1 (e ∙ whole refl)
match_parts-IsSplit pattern' resource (first, part ∷ parts) whole (t, e, h) =
    rw (e, has_prefix-append first t)
      (match_rest-HasParts (has_suffix pattern' star) (part ∷ parts) first t h)

-- A pattern with no asterisk is its only part.
split_alone : (p : Text) → (split p b'*').1 ≡ [] → (split p b'*').0 ≡ p
unfolding split
split_alone [] h = refl
split_alone (c ∷ p) h = elim (Bool-cases (c == b'*')) [
  | inl y ↦ cc (rw y at h)
  | inr n ↦ rw n (ap (λ u. c ∷ u) (split_alone p (rw n at h)))
]

Glob-empty : {p s : Text} → Glob p s → p ≡ [] → s ≡ []
Glob-empty finished e = refl
Glob-empty (literal n g) e = cc
Glob-empty (leave y g) e = cc
Glob-empty (take y g) e = cc

-- `resourceMatch` accepts every resource that matches the pattern.
pub Glob-resource_match :
    {pattern' resource : Text} → Glob pattern' resource → resource_match pattern' resource ≡ true
unfolding resource_match
Glob-resource_match {pattern'} {resource} g =
    let parts : match_parts pattern' resource (split pattern' b'*') ≡ true =
      match_parts-IsSplit pattern' resource (split pattern' b'*') (split_alone pattern')
        (Glob-IsSplit g) in
    let whole : text_eq pattern' [] ≡ true → text_eq resource pattern' ≡ true = λ h.
      let e = text_eq→eq pattern' [] h in
      (text_eq_iff resource pattern').1 (Glob-empty g e ∙ sym e) in
    ground (arith, parts, whole)

-- The text has no asterisk.
abbrev pub HasNoAsterisk : Text → Type 0
HasNoAsterisk [] = Unit
HasNoAsterisk (c ∷ p) = ((c == b'*') ≡ false) × HasNoAsterisk p

split-trailing : (p : Text) → HasNoAsterisk p → split (p ++ star) b'*' ≡ (p, [] ∷ [])
unfolding split
split-trailing [] h = refl
split-trailing (c ∷ p) h = rw (h.0, split-trailing p h.1) refl

not-text_eq-empty : (p : Text) → text_eq (p ++ star) [] ≡ false
unfolding text_eq
not-text_eq-empty [] = refl
not-text_eq-empty (c ∷ p) = refl

text_eq-star : (p : Text) → text_eq (p ++ star) star ≡ text_eq p []
unfolding text_eq
text_eq-star [] = refl
text_eq-star (c ∷ []) = ground arith
text_eq-star (c ∷ d ∷ p) = ground arith

has_prefix-empty : (s : Text) → has_prefix s [] ≡ true
unfolding has_prefix
has_prefix-empty [] = refl
has_prefix-empty (c ∷ s) = refl

has_prefix_of_empty : (p s : Text) → text_eq p [] ≡ true → has_prefix s p ≡ true
has_prefix_of_empty p s h = rw (text_eq→eq p [] h) (has_prefix-empty s)

match_parts-trailing :
    (p resource : Text) → match_parts (p ++ star) resource (p, [] ∷ []) ≡ has_prefix resource p
unfolding match_parts match_rest
match_parts-trailing p resource = rw has_suffix-append (ground arith)

-- On a pattern that is a prefix without asterisks and then an asterisk, `resourceMatch` is the test
-- of the prefix.
pub resource_match-prefix :
    (p resource : Text)
    → HasNoAsterisk p
    → resource_match (p ++ star) resource ≡ has_prefix resource p
unfolding resource_match
resource_match-prefix p resource h =
    rw (split-trailing p h, match_parts-trailing, not-text_eq-empty, text_eq-star)
      (ground (arith, has_prefix_of_empty p resource))

pub split_alone_of_plain : (p : Text) → HasNoAsterisk p → split p b'*' ≡ (p, [])
unfolding split
split_alone_of_plain [] h = refl
split_alone_of_plain (c ∷ p) h = rw (h.0, split_alone_of_plain p h.1) refl

not-text_eq-star_of_plain : (p : Text) → HasNoAsterisk p → text_eq p star ≡ false
unfolding text_eq
not-text_eq-star_of_plain [] h = refl
not-text_eq-star_of_plain (c ∷ p) h = rw h.0 refl

-- A pattern with no asterisk matches itself alone.
pub resource_match_plain :
    (p resource : Text) → HasNoAsterisk p → resource_match p resource ≡ text_eq resource p
unfolding resource_match match_parts
resource_match_plain p resource h =
    rw (split_alone_of_plain p h, not-text_eq-star_of_plain p h) (ground arith)
