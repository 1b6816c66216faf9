-- ===== src/Tlogx/Checkpoint.antt =====
-- internal/tlogx/checkpoint.go: `Checkpoint`, `ParseCheckpoint` and `FormatCheckpoint`.
-- Every error is the same, "malformed checkpoint", so the result is an `Option`.
pub mod Extension
pub mod Parse
pub mod RoundTrip
use litetlog.Prelude.{
  ℕ, zero, suc, Bool, true, false, not, ◌&&◌, ◌||◌, Option, none, some, List, [], ◌∷◌, ◌++◌, ltb,
  ◌==◌, if◌then◌else◌, ◌>>=◌, length, is_empty, Bytes, bytes_eq, ℤ, pos, negsuc,
}
use litetlog.Std.Strings.{cut, count, split_n, ends_with}
use litetlog.Std.Strconv.{parse_int, format_int}
use litetlog.Std.Base64.{encode, decode}

abbrev pub newline : ℕ
newline = b'\n'

-- `const maxCheckpointSize = 1e6`.
abbrev pub max_checkpoint_size : ℕ
max_checkpoint_size = 1_000_000

-- `tlog.HashSize`.
abbrev pub hash_size : ℕ
hash_size = 32

-- A tree size is an int64 that is never negative: `ParseCheckpoint` refuses the others.
pub record Checkpoint : Type 0 where
  pub origin : Bytes
  pub size : ℕ
  pub hash : Bytes
  pub extension : Bytes

-- `lines[1]`.
pub parse_size : Bytes → Option ℕ
parse_size line = do
  n ← parse_int line
  elim n [ pos n ↦ if bytes_eq line (format_int n) then some n else none | negsuc _ ↦ none ]

-- `lines[2]`.
unfoldable pub parse_hash : Bytes → Option Bytes
parse_hash line = do h ← decode line; if length h == hash_size then some h else none

-- The loop over `rest`; the fuel is its length.
pub check_extension : ℕ → Bytes → Bool
check_extension f [] = true
check_extension zero (c ∷ s) = false
check_extension (suc f) (c ∷ s) =
    let line = cut newline (c ∷ s) in
    let later = check_extension f line.after in
    if is_empty line.before || not line.found then false else later

-- `SplitN` makes four lines of a text with three newlines (`split_n-four`).
pub parse_lines : List Bytes → Option Checkpoint
parse_lines (origin ∷ size ∷ hash ∷ rest ∷ []) = do
  n ← parse_size size
  h ← parse_hash hash
  if check_extension (length rest) rest
      then some (record { origin = origin; size = n; hash = h; extension = rest })
      else none
parse_lines _ = none

unfoldable pub parse_checkpoint : Bytes → Option Checkpoint
unfolding parse_lines parse_size parse_hash check_extension
parse_checkpoint text =
    if ltb (count newline text) 3 || ltb max_checkpoint_size (length text)
    then none
    else if not (ends_with newline text)
    then none
    else parse_lines (split_n newline 4 text)

unfoldable pub format_checkpoint : Checkpoint → Bytes
format_checkpoint c =
    c.origin
    ++ (newline ∷ (format_int c.size ++ (newline ∷ (encode c.hash ++ (newline ∷ c.extension)))))
