-- ===== src/Std/Base64.antt =====
-- Package encoding/base64: `StdEncoding`, which is padded, skips line ends and does not check the
-- unused bits behind the last byte.
use litetlog.Prelude.{
  ℕ, ◌+◌, ◌-◌, ◌*◌, ◌/◌, ◌%◌, ◌≤◌, ◌<◌, ◌≡◌, ◌≢◌, refl, Bool, false, ◌||◌, ◌&&◌, Option, none, some,
  [], ◌∷◌, arith, ltb, leb, ◌==◌, if◌then◌else◌, ◌>>=◌, >>=-eq-some, Bytes, Lacks, All, is_empty,
  length, Bool-cases, inl, inr,
}

-- The character for six bits, and back.
symbol : ℕ → ℕ
symbol v =
    if ltb v 26
    then b'A' + v
    else if ltb v 52
    then b'a' + (v - 26)
    else if ltb v 62
    then b'0' + (v - 52)
    else if v == 62
    then b'+'
    else b'/'

value : ℕ → Option ℕ
value c =
    if leb b'A' c && leb c b'Z'
    then some (c - b'A')
    else if leb b'a' c && leb c b'z'
    then some (c - b'a' + 26)
    else if leb b'0' c && leb c b'9'
    then some (c - b'0' + 52)
    else if c == b'+'
    then some 62
    else if c == b'/'
    then some 63
    else none

unfoldable pub encode : Bytes → Bytes
unfolding symbol
encode [] = []
encode (a ∷ []) = symbol (a / 4) ∷ symbol (a % 4 * 16) ∷ b'=' ∷ b'=' ∷ []
encode (a ∷ b ∷ []) =
    symbol (a / 4) ∷ symbol (a % 4 * 16 + b / 16) ∷ symbol (b % 16 * 4) ∷ b'=' ∷ []
encode (a ∷ b ∷ c ∷ s) =
    symbol (a / 4)
    ∷ symbol (a % 4 * 16 + b / 16)
    ∷ symbol (b % 16 * 4 + c / 64)
    ∷ symbol (c % 64)
    ∷ encode s

is_line_end : ℕ → Bool
is_line_end c = c == b'\n' || c == b'\r'

strip : Bytes → Bytes
unfolding is_line_end
strip [] = []
strip (c ∷ s) = let rest = strip s in if is_line_end c then rest else c ∷ rest

-- The last four characters, with one or two bytes in front of the padding.
decode_one : ℕ → ℕ → Bytes → Option Bytes
decode_one x y s = if is_empty s then some ((x * 4 + y / 16) ∷ []) else none

decode_two : ℕ → ℕ → ℕ → Bytes → Option Bytes
decode_two x y z s =
    if is_empty s then some ((x * 4 + y / 16) ∷ (y % 16 * 16 + z / 4) ∷ []) else none

decode_three : ℕ → ℕ → ℕ → ℕ → Option Bytes → Option Bytes
decode_three x y z w rest = do
  s ← rest
  some ((x * 4 + y / 16) ∷ (y % 16 * 16 + z / 4) ∷ (z % 4 * 64 + w) ∷ s)

-- Four characters, the ones behind them, and what those decode to.
decode_quad : ℕ → ℕ → ℕ → ℕ → Bytes → Option Bytes → Option Bytes
unfolding value decode_one decode_two decode_three
decode_quad a b c d s rest = do
  x ← value a
  y ← value b
  if c == b'=' then (if d == b'=' then decode_one x y s else none) else do
    z ← value c
    if d == b'=' then decode_two x y z s else do w ← value d; decode_three x y z w rest

decode_quads : Bytes → Option Bytes
decode_quads [] = some []
decode_quads (a ∷ b ∷ c ∷ d ∷ s) = decode_quad a b c d s (decode_quads s)
decode_quads _ = none

-- `DecodeString`.
unfoldable pub decode : Bytes → Option Bytes
unfolding decode_quads decode_quad strip
decode s = decode_quads (strip s)

pub decode_nothing : decode [] ≡ some []
unfolding decode
decode_nothing = refl

value-symbol : (v : ℕ) → v < 64 → value (symbol v) ≡ some v
unfolding value symbol
value-symbol v h = ground arith

symbol-ne-pad : (v : ℕ) → v < 64 → (symbol v == b'=') ≡ false
unfolding symbol
symbol-ne-pad v h = ground arith

abbrev pub IsByte : ℕ → Type 0
IsByte c = c < 256

symbol-plain : (v : ℕ) → v < 64 → (is_line_end (symbol v) ≡ false) × (symbol v ≢ b'\n')
unfolding symbol is_line_end
symbol-plain v h = (ground arith, ground arith)

strip-symbol : (v : ℕ) (s : Bytes) → v < 64 → strip (symbol v ∷ s) ≡ symbol v ∷ strip s
unfolding strip
strip-symbol v s h = rw (symbol-plain v h).0

strip-encode : (s : Bytes) → All IsByte s → strip (encode s) ≡ encode s
unfolding encode
strip-encode [] h = unfold strip in refl
strip-encode (a ∷ []) h =
    rw (strip-symbol (a / 4) _ (omega arith), strip-symbol (a % 4 * 16) _ (omega arith))
      (unfold strip in refl)
strip-encode (a ∷ b ∷ []) h =
    rw
      (
        strip-symbol (a / 4) _ (omega arith),
        strip-symbol (a % 4 * 16 + b / 16) _ (omega arith),
        strip-symbol (b % 16 * 4) _ (omega arith),
      )
      (unfold strip in refl)
strip-encode (a ∷ b ∷ c ∷ s) h = rw (
  strip-symbol (a / 4) _ (omega arith),
  strip-symbol (a % 4 * 16 + b / 16) _ (omega arith),
  strip-symbol (b % 16 * 4 + c / 64) _ (omega arith),
  strip-symbol (c % 64) _ (omega arith),
  strip-encode s h.1.1.1,
)

decode_quad_symbols :
    (x y z w : ℕ) (s r : Bytes)
    → x < 64
    → y < 64
    → z < 64
    → w < 64
    → decode_quad (symbol x) (symbol y) (symbol z) (symbol w) s (some r)
      ≡ some ((x * 4 + y / 16) ∷ (y % 16 * 16 + z / 4) ∷ (z % 4 * 64 + w) ∷ r)
unfolding decode_quad
decode_quad_symbols x y z w s r hx hy hz hw = rw (
  value-symbol x hx,
  value-symbol y hy,
  symbol-ne-pad z hz,
  value-symbol z hz,
  symbol-ne-pad w hw,
  value-symbol w hw,
)

decode_quad_two :
    (x y z : ℕ)
    → x < 64
    → y < 64
    → z < 64
    → decode_quad (symbol x) (symbol y) (symbol z) b'=' [] (some [])
      ≡ some ((x * 4 + y / 16) ∷ (y % 16 * 16 + z / 4) ∷ [])
unfolding decode_quad
decode_quad_two x y z hx hy hz =
    rw (value-symbol x hx, value-symbol y hy, symbol-ne-pad z hz, value-symbol z hz)

decode_quad_one :
    (x y : ℕ)
    → x < 64
    → y < 64
    → decode_quad (symbol x) (symbol y) b'=' b'=' [] (some []) ≡ some ((x * 4 + y / 16) ∷ [])
unfolding decode_quad
decode_quad_one x y hx hy = rw (value-symbol x hx, value-symbol y hy)

module _ (a b : ℕ) (ha : IsByte a) (hb : IsByte b) where
  regroup_first : a / 4 * 4 + (a % 4 * 16 + b / 16) / 16 ≡ a
  regroup_first = omega arith

  regroup_second : (c : ℕ) → c < 4 → (a % 4 * 16 + b / 16) % 16 * 16 + (b % 16 * 4 + c) / 4 ≡ b
  regroup_second c h = omega arith

decode_quads-encode : (s : Bytes) → All IsByte s → decode_quads (encode s) ≡ some s
unfolding encode decode_quads
decode_quads-encode [] h = refl
decode_quads-encode (a ∷ []) h =
    let e : a / 4 * 4 + a % 4 * 16 / 16 ≡ a = omega arith in
    rw e at (decode_quad_one (a / 4) (a % 4 * 16) (omega arith) (omega arith))
decode_quads-encode (a ∷ b ∷ []) h =
    let e : (a % 4 * 16 + b / 16) % 16 * 16 + b % 16 * 4 / 4 ≡ b = omega arith in
    rw (regroup_first a b h.0 h.1.0, e) at
      (decode_quad_two (a / 4) (a % 4 * 16 + b / 16) (b % 16 * 4) (omega arith) (omega arith)
        (omega arith))
decode_quads-encode (a ∷ b ∷ c ∷ s) h =
    let e : (b % 16 * 4 + c / 64) % 4 * 64 + c % 64 ≡ c = omega arith in
    rw (decode_quads-encode s h.1.1.1) (
      rw (regroup_first a b h.0 h.1.0, regroup_second a b h.0 h.1.0 (c / 64) (omega arith), e) at
        (decode_quad_symbols (a / 4) (a % 4 * 16 + b / 16) (b % 16 * 4 + c / 64) (c % 64) (encode s)
          s (omega arith) (omega arith) (omega arith) (omega arith)))

-- `DecodeString` gives back what `EncodeToString` was given.
pub decode-encode : (s : Bytes) → All IsByte s → decode (encode s) ≡ some s
unfolding decode
decode-encode s h = rw (strip-encode s h) (decode_quads-encode s h)

-- An encoding is symbols and padding.
encode-All {κ} :
    (P : ℕ → Type κ)
    → ((v : ℕ) → v < 64 → P (symbol v))
    → P b'='
    → (s : Bytes) → All IsByte s
    → All P (encode s)
unfolding encode
encode-All P p pad [] h = tt
encode-All P p pad (a ∷ []) h =
    (p (a / 4) (omega arith), (p (a % 4 * 16) (omega arith), (pad, (pad, tt))))
encode-All P p pad (a ∷ b ∷ []) h = (
  p (a / 4) (omega arith),
  (p (a % 4 * 16 + b / 16) (omega arith), (p (b % 16 * 4) (omega arith), (pad, tt))),
)
encode-All P p pad (a ∷ b ∷ c ∷ s) h = (
  p (a / 4) (omega arith),
  (
    p (a % 4 * 16 + b / 16) (omega arith),
    (
      p (b % 16 * 4 + c / 64) (omega arith),
      (p (c % 64) (omega arith), encode-All P p pad s h.1.1.1),
    ),
  ),
)

-- An encoding has no line end.
pub encode-Lacks : (s : Bytes) → All IsByte s → Lacks b'\n' (encode s)
encode-Lacks s h = encode-All (λ c. c ≢ b'\n') (λ v lt. (symbol-plain v lt).1) (omega arith) s h

symbol-visible : (v : ℕ) → v < 64 → (32 < symbol v) × (symbol v < 127)
unfolding symbol
symbol-visible v h = (ground arith, ground arith)

pub encode-visible : (s : Bytes) → All IsByte s → All (λ c. (32 < c) × (c < 127)) (encode s)
encode-visible s h =
    encode-All (λ c. (32 < c) × (c < 127)) symbol-visible (omega arith, omega arith) s h

-- Four characters for every three bytes.
pub length-encode : (s : Bytes) → length (encode s) ≤ 4 * ((length s + 2) / 3)
unfolding encode
length-encode [] = omega arith
length-encode (a ∷ []) = omega arith
length-encode (a ∷ b ∷ []) = omega arith
length-encode (a ∷ b ∷ c ∷ s) = omega (arith, length-encode s)

value-lt : (c : ℕ) {v : ℕ} → value c ≡ some v → v < 64
unfolding value
value-lt c h = ground arith

-- What is decoded are bytes, at most three for every four characters.
record IsDecoded (s : Bytes) (r : Bytes) : Type 0 where
  bytes : All IsByte r
  short : 4 * ((length r + 2) / 3) ≤ length s

decode_last-IsDecoded :
    (a b c d x y : ℕ) (s : Bytes) {r : Bytes}
    → x < 64
    → y < 64
    → (if d == b'=' then decode_one x y s else none) ≡ some r
    → IsDecoded (a ∷ b ∷ c ∷ d ∷ s) r
unfolding decode_one
decode_last-IsDecoded a b c d x y s hx hy e = ground arith

decode_full-IsDecoded :
    (a b c d x y z : ℕ) (s : Bytes) (rest : Option Bytes) {r : Bytes}
    → x < 64
    → y < 64
    → z < 64
    → ((t : Bytes) → rest ≡ some t → IsDecoded s t)
    → (if d == b'=' then decode_two x y z s else (value d >>= λ w. decode_three x y z w rest))
      ≡ some r
    → IsDecoded (a ∷ b ∷ c ∷ d ∷ s) r
unfolding decode_two decode_three
decode_full-IsDecoded a b c d x y z s rest hx hy hz h e = elim (Bool-cases (d == b'=')) [
  | inl pad ↦ ground arith
  | inr digit ↦
      let (w, ew, e') = >>=-eq-some (value d) (λ w. decode_three x y z w rest) (rw digit at e) in
      let (t, et, e'') = >>=-eq-some rest _ e' in ground (arith, value-lt d ew, h t et)
]

decode_tail-IsDecoded :
    (a b c d x y : ℕ) (s : Bytes) (rest : Option Bytes) {r : Bytes}
    → x < 64
    → y < 64
    → ((t : Bytes) → rest ≡ some t → IsDecoded s t)
    → (if c == b'='
        then (if d == b'=' then decode_one x y s else none)
        else (value c >>= λ z.
            if d == b'=' then decode_two x y z s else (value d >>= λ w. decode_three x y z w rest)))
      ≡ some r
    → IsDecoded (a ∷ b ∷ c ∷ d ∷ s) r
decode_tail-IsDecoded a b c d x y s rest hx hy h e = elim (Bool-cases (c == b'=')) [
  | inl pad ↦ decode_last-IsDecoded a b c d x y s hx hy (rw pad at e)
  | inr digit ↦
      let (z, ez, e') = >>=-eq-some (value c) _ (rw digit at e) in
      decode_full-IsDecoded a b c d x y z s rest hx hy (value-lt c ez) h e'
]

decode_quad-IsDecoded :
    (a b c d : ℕ) (s : Bytes) (rest : Option Bytes) {r : Bytes}
    → ((t : Bytes) → rest ≡ some t → IsDecoded s t)
    → decode_quad a b c d s rest ≡ some r
    → IsDecoded (a ∷ b ∷ c ∷ d ∷ s) r
unfolding decode_quad
decode_quad-IsDecoded a b c d s rest h e =
    let (x, ex, e1) = >>=-eq-some (value a) _ e in
    let (y, ey, e2) = >>=-eq-some (value b) _ e1 in
    decode_tail-IsDecoded a b c d x y s rest (value-lt a ex) (value-lt b ey) h e2

decode_quads-IsDecoded : (s r : Bytes) → decode_quads s ≡ some r → IsDecoded s r
unfolding decode_quads
decode_quads-IsDecoded [] r e = ground arith
decode_quads-IsDecoded (a ∷ []) r e = cc
decode_quads-IsDecoded (a ∷ b ∷ []) r e = cc
decode_quads-IsDecoded (a ∷ b ∷ c ∷ []) r e = cc
decode_quads-IsDecoded (a ∷ b ∷ c ∷ d ∷ s) r e =
    decode_quad-IsDecoded a b c d s (decode_quads s) (decode_quads-IsDecoded s) e

length-strip : (s : Bytes) → length (strip s) ≤ length s
unfolding strip
length-strip [] = omega arith
length-strip (c ∷ s) = ground (arith, length-strip s)

-- `DecodeString` returns bytes.
pub decode-IsByte : (s : Bytes) {r : Bytes} → decode s ≡ some r → All IsByte r
unfolding decode
decode-IsByte s {r} e = (decode_quads-IsDecoded (strip s) r e).bytes

-- No text is shorter than the encoding of what it decodes to.
pub length-decode :
    (s : Bytes) {r : Bytes} → decode s ≡ some r → 4 * ((length r + 2) / 3) ≤ length s
unfolding decode
length-decode s {r} e = omega (arith, (decode_quads-IsDecoded (strip s) r e).short, length-strip s)
