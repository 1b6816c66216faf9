-- ===== src/Std/Strconv.antt =====
-- Package strconv: `FormatInt(n, 10)` for n ≥ 0, and `ParseInt(s, 10, 64)`.

use litetlog.Prelude.{
  ℕ, zero, suc, ◌+◌, ◌-◌, ◌*◌, ◌/◌, ◌%◌, ◌^◌, ◌≤◌, ◌<◌, ◌≡◌, ◌≢◌, ◌⊎◌, Bool, ◌&&◌, Option, none,
  some, [], ◌∷◌, arith, ltb, leb, ◌==◌, if◌then◌else◌, ◌>>=◌, Bytes, ℤ, pos, negsuc, Lacks, All,
  Bool-cases, true, length, inl, inr,
}

-- The decimal digits of `n` in front of `out`; the fuel is above the number of digits.
unfoldable pub digits_onto : ℕ → ℕ → Bytes → Bytes
digits_onto zero n out = out
digits_onto (suc f) n out =
    let more = digits_onto f (n / 10) ((b'0' + n % 10) ∷ out) in
    if ltb n 10 then (b'0' + n) ∷ out else more

unfoldable pub format_int : ℕ → Bytes
unfolding digits_onto
format_int n = digits_onto (suc n) n []

is_digit : ℕ → Bool
is_digit c = leb b'0' c && leb c b'9'

-- The number that decimal digits spell behind `n`.
unfoldable pub scan : Bytes → ℕ → Option ℕ
unfolding is_digit
scan [] n = some n
scan (c ∷ s) n = let rest = scan s (n * 10 + (c - b'0')) in if is_digit c then rest else none

parse_digits : Bytes → Option ℕ
unfolding scan
parse_digits [] = none
parse_digits (c ∷ s) = scan (c ∷ s) 0

parse_pos : Bytes → Option ℤ
unfolding parse_digits
parse_pos s = do n ← parse_digits s; if ltb n (2 ^ 63) then some (pos n) else none

parse_neg : Bytes → Option ℤ
unfolding parse_digits
parse_neg s = do
  n ← parse_digits s
  if n == 0 then some (pos 0) else if leb n (2 ^ 63) then some (negsuc (n - 1)) else none

-- `none` stands for a syntax or a range error.
unfoldable pub parse_int : Bytes → Option ℤ
unfolding parse_pos parse_neg
parse_int [] = none
parse_int (c ∷ s) =
    if c == b'+' then parse_pos s else if c == b'-' then parse_neg s else parse_pos (c ∷ s)

scan-digits_onto : (f n : ℕ) (out : Bytes) → n < f → scan (digits_onto f n out) 0 ≡ scan out n
unfolding scan digits_onto
scan-digits_onto zero n out h = absurd (omega arith)
scan-digits_onto (suc f) n out h =
    ground (arith, scan-digits_onto f (n / 10) ((b'0' + n % 10) ∷ out))

All-digits_onto {κ} :
    (P : ℕ → Type κ)
    → ((d : ℕ) → d < 10 → P (b'0' + d))
    → (f n : ℕ) (out : Bytes) → All P out
    → All P (digits_onto f n out)
unfolding digits_onto
All-digits_onto P p zero n out h = h
All-digits_onto P p (suc f) n out h = elim (Bool-cases (ltb n 10)) [
  | inl small ↦ rw small (p n (ground arith), h)
  | inr large ↦ rw large (All-digits_onto P p f (n / 10) _ (p (n % 10) (omega arith), h))
]

-- A decimal number starts with a digit.
abbrev HasDigit : Bytes → Type 0
HasDigit [] = ⊥
HasDigit (c ∷ s) = (b'0' ≤ c) × (c ≤ b'9')

digits_onto-HasDigit :
    (f n : ℕ) (out : Bytes) → (n < f) ⊎ HasDigit out → HasDigit (digits_onto f n out)
unfolding digits_onto
digits_onto-HasDigit zero n out (inl lt) = absurd (omega arith)
digits_onto-HasDigit zero n out (inr h) = h
digits_onto-HasDigit (suc f) n out h = elim (Bool-cases (ltb n 10)) [
  | inl small ↦ rw small (ground arith)
  | inr large ↦ rw large (digits_onto-HasDigit f (n / 10) _ (inr (omega arith)))
]

parse_int-HasDigit :
    (s : Bytes)
    → HasDigit s
    → parse_int s ≡ (do n ← scan s 0; if ltb n (2 ^ 63) then some (pos n) else none)
unfolding parse_int scan
parse_int-HasDigit [] h = absurd h
parse_int-HasDigit (c ∷ s) h = ground arith

format_int-HasDigit : (n : ℕ) → HasDigit (format_int n)
unfolding format_int
format_int-HasDigit n = digits_onto-HasDigit (suc n) n [] (inl (omega arith))

-- A decimal print is read back.
pub parse_int-format_int : (n : ℕ) → n < 2 ^ 63 → parse_int (format_int n) ≡ some (pos n)
unfolding format_int scan
parse_int-format_int n h =
    rw (parse_int-HasDigit _ (format_int-HasDigit n), scan-digits_onto (suc n) n [] (omega arith))
      (ground arith)

-- A print holds digits only.
pub format_int-Lacks : (n b : ℕ) → b < b'0' → Lacks b (format_int n)
unfolding format_int
format_int-Lacks n b h = All-digits_onto (λ c. c ≢ b) (λ d k. omega arith) (suc n) n [] tt

-- What is read fits in an int64.
pub parse_int-lt : (s : Bytes) {n : ℕ} → parse_int s ≡ some (pos n) → n < 2 ^ 63
unfolding parse_int
parse_int-lt [] h = cc
parse_int-lt (c ∷ s) {n} h = ground arith

abbrev pub IsDigit : ℕ → Type 0
IsDigit c = (b'0' ≤ c) × (c ≤ b'9')

pub format_int-IsDigit : (n : ℕ) → All IsDigit (format_int n)
unfolding format_int
format_int-IsDigit n = All-digits_onto IsDigit (λ d k. (omega arith, omega arith)) (suc n) n [] tt

some_digit : (s : Bytes) → HasDigit s → s ≢ []
some_digit [] h e = h
some_digit (c ∷ s) h e = cc e

pub format_int_not_empty : (n : ℕ) → format_int n ≢ []
format_int_not_empty n = some_digit (format_int n) (format_int-HasDigit n)

length-digits_onto :
    (w f n : ℕ) (out : Bytes) → n < 10 ^ suc w → length (digits_onto f n out) ≤ suc w + length out
unfolding digits_onto
length-digits_onto w zero n out h = omega arith
length-digits_onto zero (suc f) n out h =
    let small : ltb n 10 ≡ true = ground (arith, h) in rw small (omega arith)
length-digits_onto (suc w) (suc f) n out h = elim (Bool-cases (ltb n 10)) [
  | inl small ↦ rw small (omega arith)
  | inr large ↦
      rw large
        (omega (arith, length-digits_onto w f (n / 10) ((b'0' + n % 10) ∷ out) (omega (arith, h))))
]

pub length-format_int : (n : ℕ) → n < 2 ^ 63 → length (format_int n) ≤ 19
unfolding format_int
length-format_int n h = omega (arith, length-digits_onto 18 (suc n) n [] (omega (arith, h)))
