-- ===== src/Policy/Match/Glob.antt =====
-- pkg/policy/bucket-policy.go: what it means for a resource to match a pattern, in which an
-- asterisk stands for any text, and the parts that `strings.Split` makes of a pattern.
use mefs_sdk_go.Prelude.{ℕ, true, false, ◌≡◌, refl, ap, List, [], ◌∷◌, ◌++◌, ◌==◌}
use mefs_sdk_go.Prelude.Text.{Text, split}

pub data Glob : Text → Text → Type 0 where
  finished : Glob [] []
  literal : {c : ℕ} {p s : Text} → (c == b'*') ≡ false → Glob p s → Glob (c ∷ p) (c ∷ s)
  leave : {c : ℕ} {p s : Text} → (c == b'*') ≡ true → Glob p s → Glob (c ∷ p) s
  take : {c d : ℕ} {p s : Text} → (c == b'*') ≡ true → Glob (c ∷ p) s → Glob (c ∷ p) (d ∷ s)

-- The text has the parts in order, with anything before each, and ends in the last.
abbrev pub HasParts : List Text → Text → Type 0
HasParts [] t = Unit
HasParts (last ∷ []) t = (u : Text) × (t ≡ u ++ last)
HasParts (part ∷ next ∷ parts) t =
    (u : Text) × (v : Text) × (t ≡ u ++ (part ++ v)) × HasParts (next ∷ parts) v

-- The text is the first part, or begins with it and has the others in what follows.
abbrev pub IsSplit : Text × List Text → Text → Type 0
IsSplit (first, []) s = s ≡ first
IsSplit (first, part ∷ parts) s = (t : Text) × (s ≡ first ++ t) × HasParts (part ∷ parts) t

HasParts-cons :
    (d : ℕ) (part : Text) (parts : List Text) (t : Text)
    → HasParts (part ∷ parts) t
    → HasParts (part ∷ parts) (d ∷ t)
HasParts-cons d part [] t (u, e) = (d ∷ u, rw e refl)
HasParts-cons d part (next ∷ parts) t (u, v, e, h) = (d ∷ u, v, rw e refl, h)

-- An asterisk before a pattern that the text matches.
star_before :
    (first : Text) (others : List Text) (s : Text)
    → IsSplit (first, others) s
    → HasParts (first ∷ others) s
star_before first [] s e = ([], e)
star_before first (part ∷ parts) s (t, e, h) = ([], t, e, h)

IsSplit-literal :
    (c : ℕ) (first : Text) (others : List Text) (s : Text)
    → IsSplit (first, others) s
    → IsSplit (c ∷ first, others) (c ∷ s)
IsSplit-literal c first [] s e = ap (λ t. c ∷ t) e
IsSplit-literal c first (part ∷ parts) s (t, e, h) = (t, ap (λ u. c ∷ u) e, h)

IsSplit-take :
    (d : ℕ) (first : Text) (others : List Text) (s : Text)
    → IsSplit ([], first ∷ others) s
    → IsSplit ([], first ∷ others) (d ∷ s)
IsSplit-take d first others s (t, e, h) =
    (d ∷ t, ap (λ u. d ∷ u) e, HasParts-cons d first others t h)

-- A text that matches a pattern has its parts.
pub Glob-IsSplit : {p s : Text} → Glob p s → IsSplit (split p b'*') s
unfolding split
Glob-IsSplit finished = refl
Glob-IsSplit (literal {c} {p} {s} n g) =
    rw n (IsSplit-literal c (split p b'*').0 (split p b'*').1 s (Glob-IsSplit g))
Glob-IsSplit (leave {c} {p} {s} y g) =
    rw y (s, refl, star_before (split p b'*').0 (split p b'*').1 s (Glob-IsSplit g))
Glob-IsSplit (take {c} {d} {p} {s} y g) =
    let ih : IsSplit ([], (split p b'*').0 ∷ (split p b'*').1) s = rw y at (Glob-IsSplit g) in
    rw y (IsSplit-take d (split p b'*').0 (split p b'*').1 s ih)
