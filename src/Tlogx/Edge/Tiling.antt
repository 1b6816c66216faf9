-- ===== src/Tlogx/Edge/Tiling.antt =====
-- `RightEdge` of internal/tlogx/tlogx.go, and the subtrees that it names.
use native.Mathlib.Nat.{mul-div_cancel}
use native.Mathlib.Decide.{dec_lt}
use litetlog.Prelude.{
  sym, ◌∙◌, ℕ, zero, suc, ◌+◌, ◌-◌, ◌*◌, ◌/◌, ◌^◌, ◌≤◌, ◌<◌, ◌≡◌, refl, ap, true, false, Option,
  some, arith, List, [], ◌∷◌, ℤ, pos, ltb_ℤ, add_sub64, pow2, pow2-pos, pow2-le-pow2,
}
use litetlog.Tlogx.Edge.{shr, maxpow2, right_edge_from, right_edge}
use litetlog.Tlogx.Edge.Powers.{maxpow2-IsLargestBelow}

-- Full subtrees, each a level and a position at it, cover the records from `lo` to `n` without a
-- gap, and their levels fall and stay below `b`.
abbrev pub Tiles : ℕ → ℕ → ℕ → List (ℕ × ℕ) → Type 0
Tiles b lo n [] = lo ≡ n
Tiles b lo n ((level, i) ∷ ts) =
    (level < b) × (i * pow2 level ≡ lo) × Tiles level (lo + pow2 level) n ts

abbrev Divides : ℕ → ℕ → Type 0
Divides d n = (q : ℕ) × (q * d ≡ n)

Divides-pow2 : (b l n : ℕ) → l ≤ b → Divides (pow2 b) n → Divides (pow2 l) n
unfolding pow2
Divides-pow2 zero zero n h d = d
Divides-pow2 zero (suc l) n h d = absurd (omega arith)
Divides-pow2 (suc b) l n h (q, e) = elim (dec_lt l (suc b)) [
  | yes below ↦ Divides-pow2 b l n (omega arith) (q * 2, grind arith)
  | no above ↦ let same : suc b ≡ l = omega arith in (q, ap (λ k. q * pow2 k) (sym same) ∙ e)
]

div-mul_of_multiple : (q d n : ℕ) → 0 < d → q * d ≡ n → n / d * d ≡ n
div-mul_of_multiple q d n h e = rw (← e, mul-div_cancel q h)

add_sub64_pos :
    (a b c r : ℕ) → r + c ≡ a + b → a + b < 2 ^ 63 → add_sub64 (pos a) (pos b) (pos c) ≡ pos r
unfolding add_sub64
add_sub64_pos a b c r h k = ground arith

lt_of_pow2-lt : (l b : ℕ) → pow2 l < pow2 b → l < b
lt_of_pow2-lt l b h = elim (dec_lt l b) [
  | yes p ↦ p
  | no p ↦ absurd (omega (arith, pow2-le-pow2 b l (omega arith)))
]

Divides-shift : (d n : ℕ) → Divides d n → Divides d (n + d)
Divides-shift d n (q, e) = (q + 1, grind arith)

module _ (stored_hash_index : ℕ → ℤ → ℤ) where
  abbrev pub indexes : List (ℕ × ℕ) → List ℤ
  indexes [] = []
  indexes ((level, i) ∷ ts) = stored_hash_index level (pos i) ∷ indexes ts

  -- What the loop returns from `lo` on.
  record Covers (b lo n : ℕ) (r : Option (List ℤ)) : Type 0 where
    subtrees : List (ℕ × ℕ)
    returns : r ≡ some (indexes subtrees)
    tiles : Tiles b lo n subtrees

  right_edge_round :
      (f b lo n l : ℕ)
      → lo < n
      → n < 2 ^ 62
      → Divides (pow2 l) lo
      → maxpow2 (pos (n + 1 - lo)) ≡ some (pos (pow2 l), l)
      → pow2 l < n + 1 - lo
      → l < b
      → Covers l (lo + pow2 l) n (right_edge_from stored_hash_index f (pos n) (pos (lo + pow2 l)))
      → Covers b lo n (right_edge_from stored_hash_index (suc f) (pos n) (pos lo))
  unfolding right_edge_from shr
  right_edge_round f b lo n l lt hi (q, d) m below lb c =
      let test : ltb_ℤ (pos lo) (pos n) ≡ true = ground arith in
      let left = add_sub64_pos n 1 lo (n + 1 - lo) (omega arith) (omega arith) in
      let next = add_sub64_pos lo (pow2 l) 0 (lo + pow2 l) (omega arith) (omega arith) in
      rw (test, left, m, next, c.returns)
        (record {
          subtrees = (l, lo / pow2 l) ∷ c.subtrees;
          returns = refl;
          tiles = (lb, div-mul_of_multiple q (pow2 l) lo (pow2-pos l) d, c.tiles);
        })

  right_edge_from-Covers :
      (f b lo n : ℕ)
      → b < f
      → lo ≤ n
      → n < 2 ^ 62
      → n < lo + pow2 b
      → Divides (pow2 b) lo
      → Covers b lo n (right_edge_from stored_hash_index f (pos n) (pos lo))
  right_edge_from-Covers zero b lo n hf le hi room d = absurd (omega arith)
  right_edge_from-Covers (suc f) b lo n hf le hi room d = elim (dec_lt lo n) [
    | yes more ↦
        let top = maxpow2-IsLargestBelow (n + 1 - lo) (omega arith) (omega arith) in
        let l = top.exponent in
        let lb : l < b = lt_of_pow2-lt l b (omega (arith, top.below)) in
        let d' = Divides-pow2 b l lo (omega arith) d in
        right_edge_round f b lo n l more hi d' top.returns top.below lb (
          right_edge_from-Covers f l (lo + pow2 l) n (omega arith) (omega (arith, top.below)) hi
            (omega (arith, top.largest)) (Divides-shift (pow2 l) lo d'))
    | no stop ↦
        let test : ltb_ℤ (pos lo) (pos n) ≡ false = ground arith in
        unfold right_edge_from in
        rw test (record { subtrees = []; returns = refl; tiles = omega arith })
  ]

  -- For a tree of fewer than 2^62 records RightEdge returns, and what it returns is the stored
  -- hash indexes of full subtrees that tile the tree from left to right, each of a lower level
  -- than the one before.
  pub right_edge-Tiles :
      (n : ℕ)
      → n < 2 ^ 62
      → (ts : List (ℕ × ℕ)) × (right_edge stored_hash_index (pos n) ≡ some (indexes ts))
        × Tiles 62 0 n ts
  unfolding right_edge pow2
  right_edge-Tiles n h =
      let c =
        right_edge_from-Covers 64 62 0 n (omega arith) (omega arith) h (omega arith)
          (0, omega arith) in
      (c.subtrees, c.returns, c.tiles)
