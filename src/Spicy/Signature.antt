-- ===== src/Spicy/Signature.antt =====
-- The signature files of cmd/spicy/spicy.go: as the program reads them, and as it writes them.
pub mod RoundTrip
use litetlog.Prelude.{
  ℕ, zero, suc, Bool, not, Option, none, some, List, [], ◌∷◌, ◌++◌, ◌>>=◌, if◌then◌else◌, is_empty,
  length, Bytes, codes, ℤ,
}
use litetlog.Std.Strings.{cut, cut_prefix}
use litetlog.Std.Strconv.{parse_int, format_int}
use litetlog.Tlogx.Checkpoint.{newline}
use litetlog.Spicy.Library.{Library}

abbrev pub spicy : Bytes
spicy = codes ".spicy"

pub record Signature : Type 0 where
  pub index : ℤ
  pub proof : List Bytes
  pub checkpoint : Bytes

module _ (lib : Library) where
  -- The loop over the lines of the proof: the hashes, and the text behind the empty line. The fuel
  -- is the length of the text.
  unfoldable pub read_proof : ℕ → Bytes → Option (List Bytes × Bytes)
  read_proof zero s = none
  read_proof (suc f) s =
      let p = cut newline s in
      let later = (do
        h ← lib.parse_hash p.before
        (proof, rest) ← read_proof f p.after
        some (h ∷ proof, rest)) in
      if not p.found then none else if is_empty p.before then some ([], p.after) else later

  unfoldable pub read_signature : Bytes → Option Signature
  unfolding read_proof
  read_signature sig = do
    s ← cut_prefix (codes "index ") sig
    let p = cut newline s
    index ← (if p.found then parse_int p.before else none)
    (proof, rest) ← read_proof (suc (length p.after)) p.after
    some (record { index = index; proof = proof; checkpoint = rest })

  -- The hashes, one on a line.
  unfoldable pub hash_lines : List Bytes → Bytes
  hash_lines [] = []
  hash_lines (h ∷ hashes) = lib.hash_text h ++ (newline ∷ hash_lines hashes)

  unfoldable pub format_signature : ℕ → List Bytes → Bytes → Bytes
  unfolding hash_lines
  format_signature n proof checkpoint =
      codes "index " ++ (format_int n ++ (newline ∷ (hash_lines proof ++ (newline ∷ checkpoint))))
