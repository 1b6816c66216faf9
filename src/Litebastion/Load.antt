-- ===== src/Litebastion/Load.antt =====
-- Which backends a file of cmd/litebastion/litebastion.go lists.
use litetlog.Prelude.{
  ℕ, ◌<◌, ◌/◌, ◌%◌, ◌≡◌, ◌≢◌, refl, ap, ◌∙◌, ◌||◌, Bool, true, false, some, List, [], ◌∷◌, length,
  Bytes, bytes_eq, All, map, arith,
}
use litetlog.Std.Base64.{IsByte}
use litetlog.Std.Strings.{split}
use litetlog.Std.Trim.{IsVisible, trim_space}
use litetlog.Std.Lines.{unlines, IsLine, split-unlines, visible-IsLine}
use litetlog.Std.Hex.{hex_digit, encode_hex, decode_hex-encode_hex, encode_hex-All}
use litetlog.Litebastion.{
  Backends, no_backends, add_backend, read_backend, read_backends, load_backends,
}

-- A SHA-256 hash.
abbrev pub IsKeyHash : Bytes → Type 0
IsKeyHash h = All IsByte h × (length h ≡ 32)

abbrev pub listed : Bytes → List Bytes → Bool
listed j [] = false
listed j (h ∷ hashes) = bytes_eq j h || listed j hashes

-- The file of a list of hashes, one in hexadecimal on each line.
abbrev pub backends_file : List Bytes → Bytes
backends_file hashes = unlines (map encode_hex hashes)

read_backend-encode_hex : (h : Bytes) → IsKeyHash h → read_backend (encode_hex h) ≡ some h
unfolding read_backend
read_backend-encode_hex h (bytes, size) = rw (decode_hex-encode_hex h bytes, size) refl

or_false : (a : Bool) → (a || false) ≡ a
or_false true = refl
or_false false = refl

either_order : (a b c : Bool) → (b || (a || c)) ≡ ((a || b) || c)
either_order true true c = refl
either_order true false c = refl
either_order false true c = refl
either_order false false c = refl

read_backends-encode_hex :
    (hashes : List Bytes) (backends : Backends)
    → All IsKeyHash hashes
    → (loaded : Backends) × (read_backends (map encode_hex hashes) backends ≡ some loaded)
      × ((j : Bytes) → loaded j ≡ (listed j hashes || backends j))
unfolding read_backends
read_backends-encode_hex [] backends h = (backends, refl, λ j. refl)
read_backends-encode_hex (x ∷ hashes) backends (h, more) =
    let (loaded, reads, at) = read_backends-encode_hex hashes (add_backend x backends) more in
    (
      loaded,
      rw (read_backend-encode_hex x h) reads,
      λ j. at j ∙ either_order (bytes_eq j x) (listed j hashes) (backends j),
    )

hex_digit-IsVisible : (d : ℕ) → d < 16 → IsVisible (hex_digit d)
unfolding hex_digit
hex_digit-IsVisible d h = (ground arith, ground arith)

encode_hex_not_empty : (h : Bytes) → h ≢ [] → encode_hex h ≢ []
unfolding encode_hex
encode_hex_not_empty [] ne = ne
encode_hex_not_empty (c ∷ s) ne = λ e. cc e

encode_hex-IsLine : (h : Bytes) → IsKeyHash h → IsLine (encode_hex h)
encode_hex-IsLine h (bytes, size) =
    visible-IsLine (encode_hex h)
      (encode_hex-All IsVisible (λ d lt. hex_digit-IsVisible d lt) h bytes)
      (encode_hex_not_empty h λ e. absurd (omega (arith, ap (length {A = ℕ}) e, size)))

encode_hex-lines : (hashes : List Bytes) → All IsKeyHash hashes → All IsLine (map encode_hex hashes)
encode_hex-lines [] h = tt
encode_hex-lines (x ∷ hashes) (h, more) = (encode_hex-IsLine x h, encode_hex-lines hashes more)

split-backends_file :
    (x : Bytes) (hashes : List Bytes)
    → IsKeyHash x
    → All IsKeyHash hashes
    → split b'\n' (trim_space (backends_file (x ∷ hashes))) ≡ map encode_hex (x ∷ hashes)
unfolding encode_hex
split-backends_file [] hashes (bytes, size) h = absurd (omega (arith, size))
split-backends_file (c ∷ s) hashes ((b, bytes), size) h =
    split-unlines (hex_digit (c / 16)) (hex_digit (c % 16) ∷ encode_hex s) (map encode_hex hashes)
      (hex_digit-IsVisible (c / 16) (omega (arith, b)))
      (encode_hex-IsLine (c ∷ s) ((b, bytes), size), encode_hex-lines hashes h)

-- The file of a list of hashes of 32 bytes, of which there is at least one, written in hexadecimal
-- with a newline behind each, is loaded as the list that admits those hashes and no others.
pub load_backends-backends_file :
    (x : Bytes) (hashes : List Bytes)
    → All IsKeyHash (x ∷ hashes)
    → (loaded : Backends) × (load_backends (some (backends_file (x ∷ hashes))) ≡ some loaded)
      × ((j : Bytes) → loaded j ≡ listed j (x ∷ hashes))
unfolding load_backends
load_backends-backends_file x hashes (h, more) =
    let (loaded, reads, at) = read_backends-encode_hex (x ∷ hashes) no_backends (h, more) in
    (
      loaded,
      ap (λ lines. read_backends lines no_backends) (split-backends_file x hashes h more) ∙ reads,
      λ j. at j ∙ or_false (listed j (x ∷ hashes)),
    )
