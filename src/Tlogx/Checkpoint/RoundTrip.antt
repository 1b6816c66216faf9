-- ===== src/Tlogx/Checkpoint/RoundTrip.antt =====
-- `ParseCheckpoint` after `FormatCheckpoint`, of internal/tlogx/checkpoint.go.
use litetlog.Prelude.{
  ℕ, ◌^◌, ◌≤◌, ◌<◌, ◌≡◌, ap, ◌∙◌, true, some, [], ◌∷◌, ◌++◌, arith, length, Bytes, All, Lacks,
  bytes_eq_refl,
}
use litetlog.Std.Strings.{
  count, count-append, count-cons_self, ends_with, ends_with-append, split_n, split_n-four,
}
use litetlog.Std.Strconv.{format_int, parse_int-format_int, format_int-Lacks}
use litetlog.Std.Base64.{IsByte, encode, decode-encode, encode-Lacks}
use litetlog.Tlogx.Checkpoint.{
  newline, max_checkpoint_size, hash_size, Checkpoint, parse_size, parse_hash, parse_lines,
  parse_checkpoint, format_checkpoint,
}
use litetlog.Tlogx.Checkpoint.Extension.{
  IsExtension, check_extension_complete, ends_with-IsExtension,
}

-- The checkpoints that have a text: one line of origin, an int64 size, a hash of 32 bytes, an
-- extension of whole lines that are not empty, and at most a million bytes in all.
pub record IsCheckpoint (c : Checkpoint) : Type 0 where
  pub origin_line : Lacks newline c.origin
  pub size_fits : c.size < 2 ^ 63
  pub hash_bytes : All IsByte c.hash
  pub hash_length : length c.hash ≡ hash_size
  pub extension_lines : IsExtension c.extension
  pub text_fits : length (format_checkpoint c) ≤ max_checkpoint_size

pub parse_size-format_int : (n : ℕ) → n < 2 ^ 63 → parse_size (format_int n) ≡ some n
unfolding parse_size
parse_size-format_int n h = rw (parse_int-format_int n h, bytes_eq_refl (format_int n))

pub parse_hash-encode :
    (h : Bytes) → All IsByte h → length h ≡ hash_size → parse_hash (encode h) ≡ some h
unfolding parse_hash
parse_hash-encode h b e = rw (decode-encode h b, e)

-- The tests on the whole text.
pub parse_checkpoint-parse_lines :
    (text : Bytes)
    → 3 ≤ count newline text
    → length text ≤ max_checkpoint_size
    → ends_with newline text ≡ true
    → parse_checkpoint text ≡ parse_lines (split_n newline 4 text)
unfolding parse_checkpoint
parse_checkpoint-parse_lines text lines fits ends = rw ends (ground arith)

count-format : (c : Checkpoint) → 3 ≤ count newline (format_checkpoint c)
unfolding format_checkpoint
count-format c =
    let last = newline ∷ c.extension in
    let middle = newline ∷ (encode c.hash ++ last) in
    omega (
      arith,
      count-append newline c.origin (newline ∷ (format_int c.size ++ middle)),
      count-append newline (format_int c.size) middle,
      count-append newline (encode c.hash) last,
      count-cons_self newline c.extension,
      count-cons_self newline (encode c.hash ++ last),
      count-cons_self newline (format_int c.size ++ middle),
    )

ends_with-format :
    (c : Checkpoint) → IsExtension c.extension → ends_with newline (format_checkpoint c) ≡ true
unfolding format_checkpoint
ends_with-format c h = ends_with-append newline c.origin _ (
    ends_with-append newline (newline ∷ format_int c.size) _
      (ends_with-append newline (newline ∷ encode c.hash) _ (ends_with-IsExtension h)))

split_n-format :
    (c : Checkpoint)
    → IsCheckpoint c
    → split_n newline 4 (format_checkpoint c)
      ≡ c.origin ∷ format_int c.size ∷ encode c.hash ∷ c.extension ∷ []
unfolding format_checkpoint
split_n-format c h =
    split_n-four newline c.origin (format_int c.size) (encode c.hash) c.extension h.origin_line
      (format_int-Lacks c.size newline (omega arith)) (encode-Lacks c.hash h.hash_bytes)

parse_lines-format :
    (c : Checkpoint)
    → IsCheckpoint c
    → parse_lines (c.origin ∷ format_int c.size ∷ encode c.hash ∷ c.extension ∷ []) ≡ some c
unfolding parse_lines
parse_lines-format c h = rw (
  parse_size-format_int c.size h.size_fits,
  parse_hash-encode c.hash h.hash_bytes h.hash_length,
  check_extension_complete (length c.extension) (omega arith) h.extension_lines,
)

-- ParseCheckpoint reads back the text that FormatCheckpoint makes of every well-formed checkpoint:
-- one line of origin, an int64 size, a hash of 32 bytes, an extension of whole lines that are not
-- empty, at most a million bytes in all.
pub parse-format :
    (c : Checkpoint) → IsCheckpoint c → parse_checkpoint (format_checkpoint c) ≡ some c
parse-format c h =
    parse_checkpoint-parse_lines _ (count-format c) h.text_fits
      (ends_with-format c h.extension_lines)
    ∙ ap parse_lines (split_n-format c h)
    ∙ parse_lines-format c h
