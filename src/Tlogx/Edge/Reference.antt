-- ===== src/Tlogx/Edge/Reference.antt =====
-- `RightEdge` of internal/tlogx/tlogx.go against the binary digits of the size.
use native.Mathlib.Nat.{div-eq_of_lt-le, mul-div_cancel}
use native.Mathlib.Decide.{dec_lt}
use litetlog.Prelude.{
  ℕ, zero, suc, ◌+◌, ◌*◌, ◌/◌, ◌%◌, ◌^◌, ◌≤◌, ◌<◌, ◌≡◌, refl, sym, ap, subst, ◌∙◌, ◌⊎◌, inl, inr,
  some, arith, List, [], ◌∷◌, ◌==◌, if◌then◌else◌, length, pos, ℤ, pow2, pow2-pos, pow2-le-pow2,
}
use litetlog.Tlogx.Edge.{right_edge}
use litetlog.Tlogx.Edge.Tiling.{Tiles, indexes, right_edge-Tiles}

-- A subtree for every 1 among the lowest `b` binary digits of `n`, from the highest.
unfoldable pub digits : ℕ → ℕ → List (ℕ × ℕ)
digits zero n = []
digits (suc b) n =
    let rest = digits b n in if n / pow2 b % 2 == 1 then (b, n / pow2 (suc b) * 2) ∷ rest else rest

Tiles-le : (b lo n : ℕ) (ts : List (ℕ × ℕ)) → Tiles b lo n ts → lo ≤ n
Tiles-le b lo n [] h = omega (arith, h)
Tiles-le b lo n ((level, i) ∷ ts) (lt, e, h) =
    omega (arith, Tiles-le level (lo + pow2 level) n ts h)

pow2_double : (k : ℕ) → pow2 (suc k) ≡ pow2 k + pow2 k
unfolding pow2
pow2_double k = omega arith

Tiles-lt : (b lo n : ℕ) (ts : List (ℕ × ℕ)) → Tiles b lo n ts → n < lo + pow2 b
Tiles-lt b lo n [] h = omega (arith, h, pow2-pos b)
Tiles-lt zero lo n ((level, i) ∷ ts) (lt, e, h) = absurd (omega (arith, lt))
Tiles-lt (suc b) lo n ((level, i) ∷ ts) (lt, e, h) =
    let double = pow2-le-pow2 (suc level) (suc b) (omega (arith, lt)) in
    omega (arith, Tiles-lt level (lo + pow2 level) n ts h, double, pow2_double level)

digits_none : (b n : ℕ) → n / pow2 b % 2 ≡ 0 → digits (suc b) n ≡ digits b n
unfolding digits
digits_none b n h = rw h

digits_some :
    (b n : ℕ) → n / pow2 b % 2 ≡ 1 → digits (suc b) n ≡ (b, n / pow2 (suc b) * 2) ∷ digits b n
unfolding digits
digits_some b n h = rw h

div_pow2 : (b q n : ℕ) → q * pow2 b ≤ n → n < q * pow2 b + pow2 b → n / pow2 b ≡ q
div_pow2 b q n lo hi = div-eq_of_lt-le (pow2 b) lo (grind (arith, hi))

-- The subtree of the highest level is there, or it is not.
top_tile :
    (b lo n : ℕ) (ts : List (ℕ × ℕ))
    → Tiles (suc b) lo n ts
    → Tiles b lo n ts
      ⊎ ((i : ℕ) × (rest : List (ℕ × ℕ)) × (ts ≡ (b, i) ∷ rest)
          × (i * pow2 b ≡ lo)
          × Tiles b (lo + pow2 b) n rest)
top_tile b lo n [] h = inl h
top_tile b lo n ((level, i) ∷ ts) (lt, e, h) = elim (dec_lt level b) [
  | yes below ↦ inl (below, e, h)
  | no above ↦
      let same : level ≡ b = omega (arith, lt, above) in
      inr (
        i,
        ts,
        ap (λ l. (l, i) ∷ ts) same,
        ap (λ l. i * pow2 l) (sym same) ∙ e,
        subst (λ l. Tiles l (lo + pow2 l) n ts) same h,
      )
]

twice : (q b : ℕ) → q * 2 * pow2 b ≡ q * pow2 (suc b)
unfolding pow2
twice q b = grind arith

once_more : (q b : ℕ) → (q * 2 + 1) * pow2 b ≡ q * pow2 (suc b) + pow2 b
unfolding pow2
once_more q b = grind arith

mul_cancel : (i j b : ℕ) → i * pow2 b ≡ j * pow2 b → i ≡ j
mul_cancel i j b e =
    sym (mul-div_cancel i (pow2-pos b)) ∙ (ap (λ x. x / pow2 b) e ∙ mul-div_cancel j (pow2-pos b))

pair_eq : (b i j : ℕ) (xs ys : List (ℕ × ℕ)) → i ≡ j → xs ≡ ys → (b, i) ∷ xs ≡ (b, j) ∷ ys
pair_eq b i j xs ys e f = cc

pub Tiles-digits : (b q n : ℕ) (ts : List (ℕ × ℕ)) → Tiles b (q * pow2 b) n ts → ts ≡ digits b n
unfolding digits
Tiles-digits zero q n [] h = refl
Tiles-digits zero q n ((level, i) ∷ ts) (lt, e, h) = absurd (omega (arith, lt))
Tiles-digits (suc b) q n ts h = elim (top_tile b (q * pow2 (suc b)) n ts h) [
  | inl below ↦
      let low : Tiles b (q * 2 * pow2 b) n ts =
        subst (λ lo. Tiles b lo n ts) (sym (twice q b)) below in
      let digit = div_pow2 b (q * 2) n (Tiles-le b _ n ts low) (Tiles-lt b _ n ts low) in
      Tiles-digits b (q * 2) n ts low ∙ sym (digits_none b n (rw digit (omega arith)))
  | inr (i, rest, e, at, high) ↦
      let low : Tiles b ((q * 2 + 1) * pow2 b) n rest =
        subst (λ lo. Tiles b lo n rest) (sym (once_more q b)) high in
      let digit = div_pow2 b (q * 2 + 1) n (Tiles-le b _ n rest low) (Tiles-lt b _ n rest low) in
      let whole = div_pow2 (suc b) q n (Tiles-le (suc b) _ n ts h) (Tiles-lt (suc b) _ n ts h) in
      let index : i ≡ q * 2 = mul_cancel i (q * 2) b (at ∙ sym (twice q b)) in
      e
      ∙ (pair_eq b i (n / pow2 (suc b) * 2) rest (digits b n) (index ∙ ap (λ x. x * 2) (sym whole))
            (Tiles-digits b (q * 2 + 1) n rest low)
          ∙ sym (digits_some b n (rw digit (omega arith))))
]

module _ (stored_hash_index : ℕ → ℤ → ℤ) where
  -- For a tree of fewer than 2^62 records RightEdge returns the stored hash indexes of one subtree
  -- for every 1 among the binary digits of the size, from the highest, each at the index that the
  -- digits above it give.
  pub right_edge-digits :
      (n : ℕ)
      → n < 2 ^ 62
      → right_edge stored_hash_index (pos n) ≡ some (indexes stored_hash_index (digits 62 n))
  unfolding pow2
  right_edge-digits n h =
      let (ts, returns, tiles) = right_edge-Tiles stored_hash_index n h in
      returns ∙ ap (λ x. some (indexes stored_hash_index x)) (Tiles-digits 62 0 n ts tiles)

  length-indexes : (ts : List (ℕ × ℕ)) → length (indexes stored_hash_index ts) ≡ length ts
  length-indexes [] = refl
  length-indexes ((level, i) ∷ ts) = omega (arith, length-indexes ts)

-- Fewer digits are 1 than there are digits.
length-digits : (b n : ℕ) → length (digits b n) ≤ b
unfolding digits
length-digits zero n = omega arith
length-digits (suc b) n = ground (arith, length-digits b n)

-- The digits above the size are 0.
length-digits_above : (m l n : ℕ) → n < pow2 l → length (digits m n) ≤ l
unfolding digits
length-digits_above zero l n h = omega arith
length-digits_above (suc m) l n h = elim (dec_lt m l) [
  | yes few ↦ omega (arith, length-digits (suc m) n)
  | no many ↦
      let high = pow2-le-pow2 l m (omega arith) in
      let digit = div_pow2 m 0 n (omega arith) (omega (arith, high)) in
      rw (digits_none m n (rw digit (omega arith))) (length-digits_above m l n h)
]

module _ (stored_hash_index : ℕ → ℤ → ℤ) where
  -- For a tree of fewer than 2^62 records and fewer than 2^l, RightEdge returns at most l indexes.
  pub length-right_edge :
      (l n : ℕ)
      → n < 2 ^ 62
      → n < pow2 l
      → (idx : List ℤ) × (right_edge stored_hash_index (pos n) ≡ some idx) × (length idx ≤ l)
  length-right_edge l n fits small = (
    indexes stored_hash_index (digits 62 n),
    right_edge-digits stored_hash_index n fits,
    omega (arith, length-indexes stored_hash_index (digits 62 n), length-digits_above 62 l n small),
  )
