-- ===== src/Spicy/Edge.antt =====
-- The file of the tree's right edge in cmd/spicy/spicy.go.
pub mod RoundTrip
use litetlog.Prelude.{
  ℕ, Option, none, some, List, [], ◌∷◌, ◌++◌, ◌==◌, if◌then◌else◌, length, Bytes, codes, ℤ, pos,
}
use litetlog.Std.Strings.{split, cut_prefix}
use litetlog.Std.Strconv.{parse_int, format_int}
use litetlog.Std.Trim.{trim_space}
use litetlog.Tlogx.Checkpoint.{newline}
use litetlog.Tlogx.Edge.{right_edge}
use litetlog.Witness.Process.{zero_hash}
use litetlog.Spicy.Library.{Library, Hashes, no_hashes, eq_ℤ, put_hash}
use litetlog.Spicy.Signature.{hash_lines}
use litetlog.Spicy.Disk.{
  malformed_edge, size_mismatch, count_mismatch, Command, ◌>>=◌, pure, stop, some_or, require, ends,
}

abbrev pub size_prefix : Bytes
size_prefix = codes "size "

-- A hash that is missing in the map is the zero value.
abbrev pub hash_at : Hashes → ℤ → Bytes
hash_at hashes id = elim (hashes id) [ some h ↦ h | none ↦ zero_hash ]

abbrev pub hashes_at : Hashes → List ℤ → List Bytes
hashes_at hashes [] = []
hashes_at hashes (id ∷ idx) = hash_at hashes id ∷ hashes_at hashes idx

module _ (lib : Library) where
  -- The hashes of the lines go to the indexes, of which there are as many.
  unfoldable pub load_hashes : List ℤ → List Bytes → Hashes → Command Hashes
  load_hashes (id ∷ idx) (line ∷ lines) hashes = do
    h ← some_or malformed_edge (lib.parse_hash line)
    load_hashes idx lines (put_hash id h hashes)
  load_hashes _ _ hashes = pure hashes

  unfoldable pub load_lines : ℕ → List Bytes → Command Hashes
  unfolding load_hashes
  load_lines size [] = stop malformed_edge
  load_lines size (first ∷ lines) = do
    text ← some_or malformed_edge (cut_prefix size_prefix first)
    n ← some_or malformed_edge (parse_int text)
    _ ← require size_mismatch (eq_ℤ n (pos size))
    idx ← ends (right_edge lib.stored_hash_index (pos size))
    _ ← require count_mismatch (length idx == length lines)
    load_hashes idx lines no_hashes

  unfoldable pub load_edge : ℕ → Bytes → Command Hashes
  unfolding load_lines
  load_edge size edge = load_lines size (split newline (trim_space edge))

  unfoldable pub format_edge : ℕ → List ℤ → Hashes → Bytes
  format_edge size idx hashes =
      size_prefix ++ (format_int size ++ (newline ∷ hash_lines lib (hashes_at hashes idx)))
