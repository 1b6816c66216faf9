-- ===== src/Tlogx/Edge.antt =====
-- internal/tlogx/tlogx.go: `RightEdge` and `maxpow2`. An int64 is a ℤ whose sums wrap around.
-- `tlog.StoredHashIndex` of golang.org/x/mod is a parameter.
pub mod Powers
pub mod Tiling
pub mod Reference
use litetlog.Prelude.{
  ℕ, zero, suc, ◌/◌, ◌-◌, ◌^◌, Option, none, some, List, [], ◌∷◌, ltb, ◌==◌, if◌then◌else◌, ◌>>=◌,
  ℤ, pos, negsuc, ltb_ℤ, add_sub64, pow2,
}

-- `1 << k` at type int64.
pub shl_one : ℕ → ℤ
shl_one k = if ltb k 63 then pos (pow2 k) else if k == 63 then negsuc (2 ^ 63 - 1) else pos 0

-- `a >> k` at type int64.
shr : ℤ → ℕ → ℤ
shr (pos a) k = pos (a / pow2 k)
shr (negsuc a) k = negsuc (a / pow2 k)

-- The loop of `maxpow2` from `l` on; `none` means that the fuel ran out. The counter `l` is an int in
-- Go: this is the loop as long as it does not reach 2^63.
pub maxpow2_from : ℕ → ℤ → ℕ → Option (ℤ × ℕ)
maxpow2_from zero n l = none
maxpow2_from (suc f) n l =
    let more = maxpow2_from f n (suc l) in
    if ltb_ℤ (shl_one (suc l)) n then more else some (shl_one l, l)

unfoldable pub maxpow2 : ℤ → Option (ℤ × ℕ)
unfolding maxpow2_from shl_one pow2
maxpow2 n = maxpow2_from 63 n 0

module _ (stored_hash_index : ℕ → ℤ → ℤ) where
  -- The loop of `RightEdge` from `lo` on.
  right_edge_from : ℕ → ℤ → ℤ → Option (List ℤ)
  right_edge_from zero n lo = none
  right_edge_from (suc f) n lo =
      let more = (do
        (k, level) ← maxpow2 (add_sub64 n (pos 1) lo)
        idx ← right_edge_from f n (add_sub64 lo k (pos 0))
        some (stored_hash_index level (shr lo level) ∷ idx)) in
      if ltb_ℤ lo n then more else some []

  unfoldable pub right_edge : ℤ → Option (List ℤ)
  unfolding right_edge_from maxpow2 shr
  right_edge n = right_edge_from 64 n (pos 0)
