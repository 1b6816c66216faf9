-- ===== src/Tlogx/Checkpoint/Parse.antt =====
-- What `ParseCheckpoint` of internal/tlogx/checkpoint.go accepts, and what it returns.
use litetlog.Prelude.{
  ℕ, ◌+◌, ◌^◌, ◌≤◌, ◌<◌, ◌≡◌, sym, ap, ◌∙◌, true, none, some, [], ◌∷◌, ◌++◌, arith, if◌then◌else◌,
  >>=-eq-some, length, length-append, Bytes, Lacks, bytes_eq, bytes_eq_iff, ℤ, pos, negsuc,
}
use litetlog.Std.Strings.{Parts, cut, cut-append, count, split_n, split_n-Pieces}
use litetlog.Std.Strconv.{parse_int, format_int, parse_int-lt}
use litetlog.Std.Base64.{encode, decode, decode-IsByte, length-decode, length-encode}
use litetlog.Tlogx.Checkpoint.{
  newline, max_checkpoint_size, hash_size, Checkpoint, parse_size, parse_hash, check_extension,
  parse_lines, parse_checkpoint, format_checkpoint,
}
use litetlog.Tlogx.Checkpoint.Extension.{IsExtension, check_extension_sound}
use litetlog.Tlogx.Checkpoint.RoundTrip.{IsCheckpoint, parse-format}

-- The text spells the checkpoint: its origin line, the canonical decimal size, a base64 line of its
-- hash, and its extension, whose lines are whole and not empty.
pub record Spells (text : Bytes) (c : Checkpoint) : Type 0 where
  pub hash_line : Bytes
  pub text_is :
      text
      ≡ c.origin
        ++ (newline ∷ (format_int c.size ++ (newline ∷ (hash_line ++ (newline ∷ c.extension)))))
  pub decodes : decode hash_line ≡ some c.hash
  pub hash_length : length c.hash ≡ hash_size
  pub size_fits : c.size < 2 ^ 63
  pub origin_line : Lacks newline c.origin
  pub extension_lines : IsExtension c.extension
  pub text_fits : length text ≤ max_checkpoint_size

parse_size_sound :
    (line : Bytes) {n : ℕ} → parse_size line ≡ some n → (line ≡ format_int n) × (n < 2 ^ 63)
unfolding parse_size
parse_size_sound line {n} h =
    let (z, read, e) = >>=-eq-some (parse_int line) _ h in canonical z read e
  where
    canonical :
        (z : ℤ)
        → parse_int line ≡ some z
        → elim z [ pos n ↦ if bytes_eq line (format_int n) then some n else none | negsuc _ ↦ none ]
          ≡ some n
        → (line ≡ format_int n) × (n < 2 ^ 63)
    canonical (pos m) read e =
        ground (arith, bytes_eq_iff line (format_int m), parse_int-lt line read)
    canonical (negsuc m) read e = cc

parse_hash_sound :
    (line : Bytes) {h : Bytes}
    → parse_hash line ≡ some h
    → (decode line ≡ some h) × (length h ≡ hash_size)
unfolding parse_hash
parse_hash_sound line {h} e = ground arith

record Lines (l0 l1 l2 l3 : Bytes) (c : Checkpoint) : Type 0 where
  origin : l0 ≡ c.origin
  size : parse_size l1 ≡ some c.size
  hash : parse_hash l2 ≡ some c.hash
  rest : l3 ≡ c.extension
  checked : check_extension (length l3) l3 ≡ true

parse_lines-Lines :
    (l0 l1 l2 l3 : Bytes) {c : Checkpoint}
    → parse_lines (l0 ∷ l1 ∷ l2 ∷ l3 ∷ []) ≡ some c
    → Lines l0 l1 l2 l3 c
unfolding parse_lines
parse_lines-Lines l0 l1 l2 l3 h = ground arith

parse_checkpoint_tests :
    (text : Bytes) {c : Checkpoint}
    → parse_checkpoint text ≡ some c
    → (3 ≤ count newline text)
      × (length text ≤ max_checkpoint_size)
      × (parse_lines (split_n newline 4 text) ≡ some c)
unfolding parse_checkpoint
parse_checkpoint_tests text h = ground arith

-- ParseCheckpoint accepts only texts that spell the checkpoint which it returns: the origin
-- without a newline, the size in its one decimal form and below 2^63, a base64 text of the 32
-- bytes of the hash, and the extension, which is lines that are not empty, in at most a million
-- bytes.
pub parse-Spells : (text : Bytes) {c : Checkpoint} → parse_checkpoint text ≡ some c → Spells text c
parse-Spells text {c} h =
    let (lines, fits, e) = parse_checkpoint_tests text h in
    let p = split_n-Pieces newline text lines in
    let l = parse_lines-Lines p.first p.second p.third p.rest (ap parse_lines (sym p.splits) ∙ e) in
    let (size_line, size_fits) = parse_size_sound p.second l.size in
    let (decodes, hash_length) = parse_hash_sound p.third l.hash in
    record {
      hash_line = p.third;
      text_is = rw (← l.origin, ← size_line, ← l.rest) p.spells;
      decodes = decodes;
      hash_length = hash_length;
      size_fits = size_fits;
      origin_line = rw (← l.origin) p.first_lacks;
      extension_lines = rw (← l.rest) (check_extension_sound _ p.rest l.checked);
      text_fits = fits;
    }

-- The origin is the first line of the text.
pub first_line-origin :
    (text : Bytes) {c : Checkpoint}
    → parse_checkpoint text ≡ some c
    → ((cut newline text).found ≡ true) × ((cut newline text).before ≡ c.origin)
first_line-origin text {c} h =
    let s = parse-Spells text h in
    let e = ap (cut newline) s.text_is ∙ cut-append newline c.origin _ s.origin_line in
    (ap (λ (p : Parts). p.found) e, ap (λ (p : Parts). p.before) e)

three_lines :
    (a b c d : Bytes)
    → length (a ++ (newline ∷ (b ++ (newline ∷ (c ++ (newline ∷ d))))))
      ≡ length a + length b + length c + length d + 3
three_lines a b c d = omega (
  arith,
  length-append {0} a (newline ∷ (b ++ (newline ∷ (c ++ (newline ∷ d))))),
  length-append {0} b (newline ∷ (c ++ (newline ∷ d))),
  length-append {0} c (newline ∷ d),
)

length-format :
    (text : Bytes) (c : Checkpoint) → Spells text c → length (format_checkpoint c) ≤ length text
unfolding format_checkpoint
length-format text c s = omega (
  arith,
  ap (length {A = ℕ}) s.text_is,
  three_lines c.origin (format_int c.size) s.hash_line c.extension,
  three_lines c.origin (format_int c.size) (encode c.hash) c.extension,
  length-encode c.hash,
  length-decode s.hash_line s.decodes,
  s.hash_length,
)

-- A checkpoint that was parsed is well-formed.
pub parse-IsCheckpoint :
    (text : Bytes) {c : Checkpoint} → parse_checkpoint text ≡ some c → IsCheckpoint c
parse-IsCheckpoint text {c} h =
    let s = parse-Spells text h in
    record {
      origin_line = s.origin_line;
      size_fits = s.size_fits;
      hash_bytes = decode-IsByte s.hash_line s.decodes;
      hash_length = s.hash_length;
      extension_lines = s.extension_lines;
      text_fits = omega (arith, length-format text c s, s.text_fits);
    }

-- Formatting a checkpoint that was parsed gives a text that is parsed to the same checkpoint.
pub parse-format-parse :
    (text : Bytes) {c : Checkpoint}
    → parse_checkpoint text ≡ some c
    → parse_checkpoint (format_checkpoint c) ≡ some c
parse-format-parse text {c} h = parse-format c (parse-IsCheckpoint text h)
