-- ===== src/Std/Binary.antt =====
-- Package encoding/binary: `BigEndian` for uint32 and uint64.
use litetlog.Prelude.{
  ℕ, ◌+◌, ◌*◌, ◌/◌, ◌%◌, ◌^◌, ◌<◌, ◌≡◌, Option, none, some, [], ◌∷◌, ◌++◌, arith, length, Bytes,
}

-- `BigEndian.AppendUint64(nil, t)`.
unfoldable pub append_uint64 : ℕ → Bytes
append_uint64 t =
    t / 256 / 256 / 256 / 256 / 256 / 256 / 256 % 256
    ∷ t / 256 / 256 / 256 / 256 / 256 / 256 % 256
    ∷ t / 256 / 256 / 256 / 256 / 256 % 256
    ∷ t / 256 / 256 / 256 / 256 % 256
    ∷ t / 256 / 256 / 256 % 256
    ∷ t / 256 / 256 % 256
    ∷ t / 256 % 256
    ∷ t % 256
    ∷ []

-- `BigEndian.Uint64` and the bytes behind it; on fewer than eight bytes it panics.
unfoldable pub uint64 : Bytes → Option (ℕ × Bytes)
uint64 (a ∷ b ∷ c ∷ d ∷ e ∷ f ∷ g ∷ h ∷ s) =
    some ((((((((a * 256 + b) * 256 + c) * 256 + d) * 256 + e) * 256 + f) * 256 + g) * 256 + h), s)
uint64 _ = none

-- `BigEndian.Uint32` of a digest, which has 32 bytes; on fewer than four bytes it would panic.
unfoldable pub uint32 : Bytes → ℕ
uint32 (a ∷ b ∷ c ∷ d ∷ s) = ((a * 256 + b) * 256 + c) * 256 + d
uint32 _ = 0

join_byte : (q : ℕ) → q / 256 * 256 + q % 256 ≡ q
join_byte q = omega arith

pub uint64-append_uint64 :
    (t : ℕ) (s : Bytes) → t < 2 ^ 64 → uint64 (append_uint64 t ++ s) ≡ some (t, s)
unfolding uint64 append_uint64
uint64-append_uint64 t s h =
    let top : t / 256 / 256 / 256 / 256 / 256 / 256 / 256 % 256
        ≡ t / 256 / 256 / 256 / 256 / 256 / 256 / 256 =
      omega arith in
    rw (
      top,
      join_byte (t / 256 / 256 / 256 / 256 / 256 / 256),
      join_byte (t / 256 / 256 / 256 / 256 / 256),
      join_byte (t / 256 / 256 / 256 / 256),
      join_byte (t / 256 / 256 / 256),
      join_byte (t / 256 / 256),
      join_byte (t / 256),
      join_byte t,
    )

pub length-append_uint64 : (t : ℕ) (s : Bytes) → length (append_uint64 t ++ s) ≡ 8 + length s
unfolding append_uint64
length-append_uint64 t s = omega arith
