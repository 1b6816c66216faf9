-- ===== src/Tlogx/Edge/Powers.antt =====
-- What `maxpow2` of internal/tlogx/tlogx.go returns, and where it does not return.
use native.Mathlib.Decide.{dec_lt}
use litetlog.Prelude.{
  ℕ, zero, suc, ◌+◌, ◌*◌, ◌^◌, ◌≤◌, ◌<◌, ◌≡◌, refl, true, Option, none, some, arith, ltb,
  Bool-cases, inl, inr, ℤ, pos, ltb_ℤ, pow2, pow2-le-pow2,
}
use litetlog.Tlogx.Edge.{shl_one, maxpow2_from, maxpow2}

shl_one_pos : (k : ℕ) → k < 63 → shl_one k ≡ pos (pow2 k)
unfolding shl_one
shl_one_pos k h = ground arith

shl_one-ltb : (k m : ℕ) → k < 63 → ltb_ℤ (shl_one k) (pos m) ≡ ltb (pow2 k) m
unfolding shl_one
shl_one-ltb k m h = ground arith

pow2_62 : pow2 62 ≡ 2 ^ 62
unfolding pow2
pow2_62 = refl

-- The exponent of a power of two below a number of at most 2^62.
pub exponent_lt : (l m : ℕ) → pow2 l < m → m ≤ 2 ^ 62 → l < 62
exponent_lt l m lo hi = elim (dec_lt l 62) [
  | yes h ↦ h
  | no h ↦ absurd (omega (arith, pow2-le-pow2 62 l (omega arith), pow2_62))
]

-- `maxpow2` has returned the largest power of two below `m`, with its exponent.
pub record IsLargestBelow (m : ℕ) (r : Option (ℤ × ℕ)) : Type 0 where
  pub exponent : ℕ
  pub returns : r ≡ some (pos (pow2 exponent), exponent)
  pub below : pow2 exponent < m
  pub largest : m ≤ 2 * pow2 exponent

maxpow2_from-IsLargestBelow :
    (f l m : ℕ) → 62 ≤ l + f → pow2 l < m → m ≤ 2 ^ 62 → IsLargestBelow m (maxpow2_from f (pos m) l)
unfolding maxpow2_from pow2
maxpow2_from-IsLargestBelow zero l m hf lo hi = absurd (omega (arith, exponent_lt l m lo hi))
maxpow2_from-IsLargestBelow (suc f) l m hf lo hi =
    let small : suc l < 63 = omega (arith, exponent_lt l m lo hi) in
    elim (Bool-cases (ltb (pow2 (suc l)) m)) [
      | inl more ↦
          rw (shl_one-ltb (suc l) m small, more)
            (maxpow2_from-IsLargestBelow f (suc l) m (omega arith) (ground arith) hi)
      | inr stop ↦
          rw (shl_one-ltb (suc l) m small, stop, shl_one_pos l (omega arith))
            (record { exponent = l; returns = refl; below = lo; largest = ground arith })
    ]

-- For every number from 2 to 2^62 maxpow2 returns, and it returns the largest power of two below
-- the number, with its exponent.
pub maxpow2-IsLargestBelow : (m : ℕ) → 2 ≤ m → m ≤ 2 ^ 62 → IsLargestBelow m (maxpow2 (pos m))
unfolding maxpow2
maxpow2-IsLargestBelow m lo hi = maxpow2_from-IsLargestBelow 63 0 m (omega arith) lo hi

shl_one_lt : (m k : ℕ) → 2 ^ 62 < m → ltb_ℤ (shl_one k) (pos m) ≡ true
unfolding shl_one
shl_one_lt m k h = ground (arith, pow2-le-pow2 k 62, pow2_62)

-- For a number above 2^62 the loop of maxpow2 does not end in any number of rounds that keeps its
-- counter, an int, below 2^63: every such fuel runs out.
pub maxpow2_diverges : (f l m : ℕ) → 2 ^ 62 < m → f + l < 2 ^ 63 → maxpow2_from f (pos m) l ≡ none
unfolding maxpow2_from
maxpow2_diverges zero l m h fits = refl
maxpow2_diverges (suc f) l m h fits =
    rw (shl_one_lt m (suc l) h) (maxpow2_diverges f (suc l) m h (omega (arith, fits)))
