-- ===== src/Spicy/Verify.antt =====
-- `spicy -verify` of cmd/spicy/spicy.go.
pub mod Sound
use litetlog.Prelude.{
  ℕ, zero, suc, Bool, not, Option, none, some, List, [], ◌∷◌, ◌++◌, if◌then◌else◌, is_empty, length,
  Bytes, codes, bytes_eq, ℤ,
}
use litetlog.Std.Strings.{cut, cut_prefix}
use litetlog.Std.Strconv.{parse_int}
use litetlog.Tlogx.Cosignature.{NoteVerifier}
use litetlog.Tlogx.Checkpoint.{newline, Checkpoint, parse_checkpoint}
use litetlog.Spicy.Library.{Library}
use litetlog.Spicy.Signature.{spicy, read_signature}
use litetlog.Spicy.Disk.{
  Outcome, no_files, bad_public_key, unreadable, malformed_signature, unverified_checkpoint,
  bad_checkpoint, other_log, not_included, Command, ◌>>=◌, pure, stop, some_or, require, read,
}

module _ (lib : Library) where
  unfoldable pub verify_file : NoteVerifier → Bytes → Command (Unit {0})
  verify_file vkey path = do
    f ← read unreadable path
    sig ← read unreadable (path ++ spicy)
    s ← some_or malformed_signature (read_signature lib sig)
    text ← some_or unverified_checkpoint (lib.open_note s.checkpoint vkey)
    c ← some_or bad_checkpoint (parse_checkpoint text)
    _ ← require other_log (bytes_eq c.origin vkey.name)
    require not_included (lib.check_record s.proof c.size c.hash s.index (lib.record_hash f))

  unfoldable pub verify_files : NoteVerifier → List Bytes → Command (Unit {0})
  unfolding verify_file
  verify_files vkey [] = pure tt
  verify_files vkey (path ∷ paths) = do _ ← verify_file vkey path; verify_files vkey paths

  unfoldable pub verify : Bytes → List Bytes → Command (Unit {0})
  unfolding verify_files
  verify key [] = stop no_files
  verify key (path ∷ paths) = do
    vkey ← some_or bad_public_key (lib.new_verifier key)
    verify_files vkey (path ∷ paths)
