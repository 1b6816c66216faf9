-- ===== src/Prelude/Pow.antt =====
-- Powers of two by recursion, for the shifts `1 << k`.
use Prim.Native.Nat.{ℕ, zero, suc, ◌*◌, ◌≤◌, ◌<◌}
use native.Mathlib.Omega.{arith}

unfoldable pub pow2 : ℕ → ℕ
pow2 zero = 1
pow2 (suc k) = 2 * pow2 k

pub pow2-pos : (k : ℕ) → 0 < pow2 k
unfolding pow2
pow2-pos zero = omega arith
pow2-pos (suc k) = omega (arith, pow2-pos k)

pub pow2-le-pow2 : (a b : ℕ) → a ≤ b → pow2 a ≤ pow2 b
unfolding pow2
pow2-le-pow2 zero b h = pow2-pos b
pow2-le-pow2 (suc a) zero h = absurd (omega arith)
pow2-le-pow2 (suc a) (suc b) h = omega (arith, pow2-le-pow2 a b)
