-- ===== src/Std/Hex.antt =====
-- Hexadecimal numbers: `ParseUint(s, 16, 32)` of strconv, `%08x` of fmt, and `DecodeString` of
-- encoding/hex.
use litetlog.Prelude.{
  ℕ, ◌+◌, ◌-◌, ◌*◌, ◌/◌, ◌%◌, ◌^◌, ◌<◌, ◌≡◌, ◌≢◌, refl, ◌&&◌, Option, none, some, [], ◌∷◌, arith,
  ltb, leb, if◌then◌else◌, ◌>>=◌, Bytes, Lacks, true, All,
}
use litetlog.Std.Base64.{IsByte}

unfoldable pub hex_value : ℕ → Option ℕ
hex_value c =
    if leb b'0' c && leb c b'9'
    then some (c - b'0')
    else if leb b'a' c && leb c b'f'
    then some (c - b'a' + 10)
    else if leb b'A' c && leb c b'F'
    then some (c - b'A' + 10)
    else none

unfoldable pub scan_hex : Bytes → ℕ → Option ℕ
unfolding hex_value
scan_hex [] n = some n
scan_hex (c ∷ s) n = do d ← hex_value c; scan_hex s (n * 16 + d)

parse_hex_digits : Bytes → Option ℕ
unfolding scan_hex
parse_hex_digits [] = none
parse_hex_digits (c ∷ s) = scan_hex (c ∷ s) 0

-- `none` stands for a syntax or a range error.
unfoldable pub parse_uint32 : Bytes → Option ℕ
unfolding parse_hex_digits
parse_uint32 s = do n ← parse_hex_digits s; if ltb n (2 ^ 32) then some n else none

-- `hex.DecodeString`.
unfoldable pub decode_hex : Bytes → Option Bytes
unfolding hex_value
decode_hex [] = some []
decode_hex (a ∷ []) = none
decode_hex (a ∷ b ∷ s) = do
  hi ← hex_value a
  lo ← hex_value b
  rest ← decode_hex s
  some ((hi * 16 + lo) ∷ rest)

unfoldable pub hex_digit : ℕ → ℕ
hex_digit d = if ltb d 10 then b'0' + d else b'a' + (d - 10)

unfoldable pub format_hex8 : ℕ → Bytes
unfolding hex_digit
format_hex8 n =
    hex_digit (n / 16 / 16 / 16 / 16 / 16 / 16 / 16 % 16)
    ∷ hex_digit (n / 16 / 16 / 16 / 16 / 16 / 16 % 16)
    ∷ hex_digit (n / 16 / 16 / 16 / 16 / 16 % 16)
    ∷ hex_digit (n / 16 / 16 / 16 / 16 % 16)
    ∷ hex_digit (n / 16 / 16 / 16 % 16)
    ∷ hex_digit (n / 16 / 16 % 16)
    ∷ hex_digit (n / 16 % 16)
    ∷ hex_digit (n % 16)
    ∷ []

hex_value-hex_digit : (d : ℕ) → d < 16 → hex_value (hex_digit d) ≡ some d
unfolding hex_value hex_digit
hex_value-hex_digit d h = ground arith

scan_hex-hex_digit :
    (q : ℕ) (s : Bytes) (n : ℕ) → n ≡ q / 16 → scan_hex (hex_digit (q % 16) ∷ s) n ≡ scan_hex s q
unfolding scan_hex
scan_hex-hex_digit q s n e =
    let same : n * 16 + q % 16 ≡ q = omega arith in
    rw (hex_value-hex_digit (q % 16) (omega arith), same)

pub parse_uint32-format_hex8 : (n : ℕ) → n < 2 ^ 32 → parse_uint32 (format_hex8 n) ≡ some n
unfolding parse_uint32 parse_hex_digits format_hex8
parse_uint32-format_hex8 n h =
    let fits : ltb n (2 ^ 32) ≡ true = ground arith in
    rw (
      scan_hex-hex_digit (n / 16 / 16 / 16 / 16 / 16 / 16 / 16) _ 0 (omega arith),
      scan_hex-hex_digit (n / 16 / 16 / 16 / 16 / 16 / 16) _ _ refl,
      scan_hex-hex_digit (n / 16 / 16 / 16 / 16 / 16) _ _ refl,
      scan_hex-hex_digit (n / 16 / 16 / 16 / 16) _ _ refl,
      scan_hex-hex_digit (n / 16 / 16 / 16) _ _ refl,
      scan_hex-hex_digit (n / 16 / 16) _ _ refl,
      scan_hex-hex_digit (n / 16) _ _ refl,
      scan_hex-hex_digit n [] _ refl,
      scan_hex,
      fits,
    )

hex_digit_ne : (d b : ℕ) → b < b'0' → hex_digit d ≢ b
unfolding hex_digit
hex_digit_ne d b h e = ground arith

pub format_hex8-Lacks : (n b : ℕ) → b < b'0' → Lacks b (format_hex8 n)
unfolding format_hex8
format_hex8-Lacks n b h = (
  hex_digit_ne _ b h,
  (
    hex_digit_ne _ b h,
    (
      hex_digit_ne _ b h,
      (
        hex_digit_ne _ b h,
        (hex_digit_ne _ b h, (hex_digit_ne _ b h, (hex_digit_ne _ b h, (hex_digit_ne _ b h, tt)))),
      ),
    ),
  ),
)

-- `%x` of bytes.
unfoldable pub encode_hex : Bytes → Bytes
unfolding hex_digit
encode_hex [] = []
encode_hex (c ∷ s) = hex_digit (c / 16) ∷ hex_digit (c % 16) ∷ encode_hex s

-- `DecodeString` gives back what `%x` was given.
pub decode_hex-encode_hex : (s : Bytes) → All IsByte s → decode_hex (encode_hex s) ≡ some s
unfolding decode_hex encode_hex
decode_hex-encode_hex [] h = refl
decode_hex-encode_hex (c ∷ s) (b, h) =
    let same : c / 16 * 16 + c % 16 ≡ c = omega arith in
    rw (
      hex_value-hex_digit (c / 16) (omega (arith, b)),
      hex_value-hex_digit (c % 16) (omega arith),
      decode_hex-encode_hex s h,
      same,
    )

pub encode_hex-Lacks : (b : ℕ) (s : Bytes) → b < b'0' → Lacks b (encode_hex s)
unfolding encode_hex
encode_hex-Lacks b [] h = tt
encode_hex-Lacks b (c ∷ s) h = (hex_digit_ne _ b h, (hex_digit_ne _ b h, encode_hex-Lacks b s h))

pub encode_hex-All {κ} :
    (P : ℕ → Type κ)
    → ((d : ℕ) → d < 16 → P (hex_digit d))
    → (s : Bytes) → All IsByte s
    → All P (encode_hex s)
unfolding encode_hex
encode_hex-All P p [] h = tt
encode_hex-All P p (c ∷ s) (b, h) =
    (p (c / 16) (omega (arith, b)), (p (c % 16) (omega arith), encode_hex-All P p s h))

pub format_hex8-All {κ} :
    (P : ℕ → Type κ) → ((d : ℕ) → d < 16 → P (hex_digit d)) → (n : ℕ) → All P (format_hex8 n)
unfolding format_hex8
format_hex8-All P p n = (
  p _ (omega arith),
  (
    p _ (omega arith),
    (
      p _ (omega arith),
      (
        p _ (omega arith),
        (p _ (omega arith), (p _ (omega arith), (p _ (omega arith), (p _ (omega arith), tt)))),
      ),
    ),
  ),
)

pub hex_digit-graphic : (d : ℕ) → d < 16 → (32 < hex_digit d) × (hex_digit d < 127)
unfolding hex_digit
hex_digit-graphic d h = (ground arith, ground arith)
