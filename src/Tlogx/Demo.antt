-- ===== src/Tlogx/Demo.antt =====
-- Checkpoints and trees of internal/tlogx, as examples.
mod Keys
use litetlog.Prelude.{
  ℕ, ◌+◌, ◌^◌, ◌≡◌, refl, none, some, List, [], ◌≤◌, length, pow2, replicate, Bytes, codes, arith,
  bytes_eq, ℤ, pos,
}
use litetlog.Std.Base64.{encode, decode}
use litetlog.Std.Strings.{cut, split_n, count, ends_with}
use litetlog.Std.Strconv.{format_int, digits_onto, parse_int, scan}
use litetlog.Tlogx.Edge.{maxpow2, maxpow2_from, right_edge}
use litetlog.Tlogx.Edge.Powers.{IsLargestBelow, maxpow2-IsLargestBelow, maxpow2_diverges}
use litetlog.Tlogx.Edge.Reference.{digits, right_edge-digits, length-right_edge}
use litetlog.Tlogx.Edge.Tiling.{Tiles, indexes, right_edge-Tiles}
use litetlog.Tlogx.Checkpoint.{Checkpoint, parse_checkpoint, format_checkpoint}
use litetlog.Tlogx.Checkpoint.Extension.{IsExtension, line}
use litetlog.Tlogx.Checkpoint.RoundTrip.{IsCheckpoint, parse-format}
use litetlog.Tlogx.Checkpoint.Parse.{Spells, parse-Spells, parse-format-parse}

abbrev demo_checkpoint : Checkpoint
demo_checkpoint = record {
  origin = codes "log";
  size = 27;
  hash = replicate 32 0;
  extension = codes "x\ny\n";
}

demo_IsCheckpoint : IsCheckpoint demo_checkpoint
unfolding format_checkpoint format_int digits_onto encode
demo_IsCheckpoint = record {
  origin_line = (
    λ e. absurd (omega (arith, e)),
    (λ e. absurd (omega (arith, e)), (λ e. absurd (omega (arith, e)), tt)),
  );
  size_fits = omega arith;
  hash_bytes = ground arith;
  hash_length = refl;
  extension_lines =
      line (codes "x") (codes "y\n") refl (λ e. cc e) (λ e. absurd (omega (arith, e)), tt)
        (line (codes "y") [] refl (λ e. cc e) (λ e. absurd (omega (arith, e)), tt)
          (IsExtension.none refl));
  text_fits = omega arith;
}

parse-format_example : parse_checkpoint (format_checkpoint demo_checkpoint) ≡ some demo_checkpoint
parse-format_example = parse-format demo_checkpoint demo_IsCheckpoint

abbrev pub demo_text : Bytes
demo_text = codes "log\n27\nAAAAAAAAAAAAAAAAAAAAAAAAAAAAAAAAAAAAAAAAAAA=\nx\ny\n"

pub demo_text_parses : parse_checkpoint demo_text ≡ some demo_checkpoint
unfolding parse_checkpoint parse_int format_int scan decode count ends_with split_n cut bytes_eq
demo_text_parses = refl

parse-Spells_example : Spells demo_text demo_checkpoint
parse-Spells_example = parse-Spells demo_text demo_text_parses

parse-format-parse_example :
    parse_checkpoint (format_checkpoint demo_checkpoint) ≡ some demo_checkpoint
parse-format-parse_example = parse-format-parse demo_text demo_text_parses

maxpow2-IsLargestBelow_example : IsLargestBelow 100 (maxpow2 (pos 100))
maxpow2-IsLargestBelow_example = maxpow2-IsLargestBelow 100 (omega arith) (omega arith)

maxpow2_diverges_example : maxpow2_from 1000 (pos (2 ^ 62 + 1)) 0 ≡ none
maxpow2_diverges_example = maxpow2_diverges 1000 0 (2 ^ 62 + 1) (omega arith) (omega arith)

-- The index of a subtree, in place of `tlog.StoredHashIndex`.
abbrev demo_index : ℕ → ℤ → ℤ
demo_index level i = i

right_edge-Tiles_example :
    (ts : List (ℕ × ℕ)) × (right_edge demo_index (pos 13) ≡ some (indexes demo_index ts))
    × Tiles 62 0 13 ts
right_edge-Tiles_example = right_edge-Tiles demo_index 13 (omega arith)

right_edge-digits_example :
    right_edge demo_index (pos 13) ≡ some (indexes demo_index (digits 62 13))
right_edge-digits_example = right_edge-digits demo_index 13 (omega arith)

length-right_edge_example :
    (idx : List ℤ) × (right_edge demo_index (pos 13) ≡ some idx) × (length idx ≤ 4)
unfolding pow2
length-right_edge_example = length-right_edge demo_index 4 13 (omega arith) (omega arith)
