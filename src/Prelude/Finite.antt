-- ===== src/Prelude/Finite.antt =====
-- A test on every number below a bound.
use Prim.Native.Nat.{ℕ, zero, suc, ◌<◌}
use mathlib.Core.Path.{◌≡◌, subst}
use mathlib.Core.Bool.{Bool, true, ◌&&◌}
use native.Mathlib.Omega.{arith}
use native.Mathlib.Decide.{ℕ_discrete}

-- The test holds for every number below `n`.
unfoldable pub all_below : ℕ → (ℕ → Bool) → Bool
all_below zero p = true
all_below (suc n) p = p n && all_below n p

and-both : (a b : Bool) → (a && b) ≡ true → (a ≡ true) × (b ≡ true)
and-both a b h = (ground (arith, h), ground (arith, h))

pub all_below-each : (n : ℕ) (p : ℕ → Bool) → all_below n p ≡ true → (m : ℕ) → m < n → p m ≡ true
unfolding all_below
all_below-each zero p h m l = absurd (omega arith)
all_below-each (suc n) p h m l =
    let (last, earlier) = and-both (p n) (all_below n p) h in
    elim (ℕ_discrete n m) [
      | yes e ↦ subst (λ x. p x ≡ true) e last
      | no e ↦ all_below-each n p earlier m (omega arith)
    ]
