-- ===== src/Prelude/Search.antt =====
-- The laws of the functions of package `strings`.
use mefs_sdk_go.Prelude.Tests.{Bool-cases}
use mefs_sdk_go.Prelude.Lists.{length, drop, length-append, drop-append}
use mefs_sdk_go.Prelude.Text.{Text, text_eq_refl, has_prefix, has_suffix, index}
use Prim.Native.Nat.{ℕ, zero, suc, ◌-◌, ◌≤◌}
use mathlib.Core.Path.{◌≡◌, refl}
use mathlib.Core.Logic.{inl, inr}
use mathlib.Core.Bool.{true}
use mathlib.Core.Option.{some}
use mathlib.Core.List.{[], ◌∷◌, ◌++◌}
use native.Mathlib.Omega.{arith}

pub has_prefix-append : (p t : Text) → has_prefix (p ++ t) p ≡ true
unfolding has_prefix
has_prefix-append [] [] = refl
has_prefix-append [] (x ∷ t) = refl
has_prefix-append (a ∷ p) t = ground (arith, has_prefix-append p t)

-- What follows a prefix.
pub has_prefix→append : (s p : Text) → has_prefix s p ≡ true → (t : Text) × (s ≡ p ++ t)
unfolding has_prefix
has_prefix→append s [] h = (s, refl)
has_prefix→append [] (b ∷ p) h = cc
has_prefix→append (a ∷ s) (b ∷ p) h =
    let (t, e) = has_prefix→append s p (ground arith) in
    let same : a ≡ b = ground arith in (t, cc (same, e))

pub has_suffix-append : (t p : Text) → has_suffix (t ++ p) p ≡ true
unfolding has_suffix
has_suffix-append t p =
    let n : length (t ++ p) - length p ≡ length t = omega (arith, length-append t p) in
    rw (n, drop-append t p, text_eq_refl) (ground (arith, length-append t p))

pub drop-append_le : (n : ℕ) (s t : Text) → n ≤ length s → drop n (s ++ t) ≡ drop n s ++ t
drop-append_le zero s t h = refl
drop-append_le (suc n) [] t h = absurd (omega arith)
drop-append_le (suc n) (a ∷ s) t h = drop-append_le n s t (omega arith)

-- `Index` finds a text that is there, and no later than where it is known to be.
pub index-append : (w p v : Text) → (i : ℕ) × (index (w ++ (p ++ v)) p ≡ some i) × (i ≤ length w)
unfolding index has_prefix
index-append [] [] [] = (0, refl, omega arith)
index-append [] [] (x ∷ v) = (0, refl, omega arith)
index-append [] (b ∷ p) v = (0, rw (has_prefix-append (b ∷ p) v) refl, omega arith)
index-append (a ∷ w) p v =
    let (i, e, h) = index-append w p v in
    elim (Bool-cases (has_prefix (a ∷ (w ++ (p ++ v))) p)) [
      | inl here ↦ (0, rw here refl, omega arith)
      | inr later ↦ (suc i, rw (later, e) refl, omega arith)
    ]
