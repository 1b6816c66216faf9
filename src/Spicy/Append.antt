-- ===== src/Spicy/Append.antt =====
-- `spicy` of cmd/spicy/spicy.go, which appends files to the log. The sizes are sums on ℕ: they stay
-- below 2^63, since `RightEdge` has returned for the size of the log, which is then at most 2^62.
pub mod Paths
pub mod Laws
pub mod Files
pub mod Signed
pub mod Present
pub mod Load
pub mod Saved
pub mod Opened
pub mod Proven
pub mod Stages
pub mod Whole
pub mod Torn
use litetlog.Prelude.{
  ℕ, zero, suc, ◌+◌, ◌⊎◌, inl, inr, not, Option, none, some, List, [], ◌∷◌, ◌++◌, length, Bytes, ℤ,
  pos,
}
use litetlog.Std.Path.{join}
use litetlog.Std.Trim.{trim_space}
use litetlog.Std.Strconv.{format_int}
use litetlog.Tlogx.Checkpoint.{Checkpoint, parse_checkpoint, format_checkpoint}
use litetlog.Tlogx.Cosignature.{NoteVerifier}
use litetlog.Tlogx.Edge.{right_edge}
use litetlog.Tlogx.Note.{new_verifier_from_signer}
use litetlog.Witness.Library.{Signer}
use litetlog.Spicy.Library.{Library, Hashes, read_hashes, put_hashes}
use litetlog.Spicy.Signature.{spicy, format_signature}
use litetlog.Spicy.Edge.{load_edge, format_edge}
use litetlog.Spicy.Init.{latest_path, edge_path}
use litetlog.Spicy.Disk.{
  no_files, unreadable_key, bad_key, no_verifier, unreadable_latest, unverified_latest, bad_latest,
  unreadable_edge, already_signed, unreadable_file, not_appended, not_copied, no_tree_hash,
  no_proof, unsigned_checkpoint, unwritten_latest, unwritten_edge, unwritten_signature, Command,
  ◌>>=◌, pure, stop, some_or, require, ends, read, exists, write,
}

-- The name of an entry's file.
abbrev pub entry_path : Bytes → ℕ → Bytes
entry_path assets n = join assets (format_int n)

abbrev pub right_of : Bytes ⊎ NoteVerifier → Option NoteVerifier
right_of (inl message) = none
right_of (inr v) = some v

-- The log as it is loaded.
pub record Log : Type 0 where
  pub signer : Signer
  pub checkpoint : Checkpoint
  pub hashes : Hashes

module _ (lib : Library) where
  unfoldable pub load_log : Bytes → Bytes → Command Log
  load_log key_path assets = do
    skey ← read unreadable_key key_path
    signer ← some_or bad_key (lib.new_signer (trim_space skey))
    verifier ←
        some_or no_verifier (right_of (new_verifier_from_signer lib.crypto (trim_space skey)))
    checkpoint ← read unreadable_latest (latest_path assets)
    text ← some_or unverified_latest (lib.open_note checkpoint verifier)
    c ← some_or bad_latest (parse_checkpoint text)
    edge ← read unreadable_edge (edge_path assets)
    hashes ← load_edge lib c.size edge
    pure (record { signer = signer; checkpoint = c; hashes = hashes })

  -- The file becomes entry `n`.
  unfoldable pub append_file : Bytes → ℕ → Bytes → Hashes → Command Hashes
  append_file assets n path hashes = do
    found ← exists (path ++ spicy)
    _ ← require already_signed (not found)
    f ← read unreadable_file path
    hh ← some_or not_appended (lib.stored_hashes n f (read_hashes hashes))
    _ ← write not_copied (entry_path assets n) f
    pure (put_hashes (lib.stored_hash_index 0 (pos n)) 0 hh hashes)

  unfoldable pub append_files : Bytes → ℕ → List Bytes → Hashes → Command Hashes
  unfolding append_file
  append_files assets n [] hashes = pure hashes
  append_files assets n (path ∷ paths) hashes = do
    hashes' ← append_file assets n path hashes
    append_files assets (suc n) paths hashes'

  -- The new checkpoint is signed, and goes to its file before the edge does.
  unfoldable pub save : Bytes → Signer → Bytes → ℕ → Hashes → Command Bytes
  save assets signer origin size hashes = do
    hash ← some_or no_tree_hash (lib.tree_hash size (read_hashes hashes))
    checkpoint ← some_or unsigned_checkpoint (
        lib.sign_note
          (format_checkpoint (record { origin = origin; size = size; hash = hash; extension = [] }))
          signer)
    idx ← ends (right_edge lib.stored_hash_index (pos size))
    _ ← write unwritten_latest (latest_path assets) checkpoint
    _ ← write unwritten_edge (edge_path assets) (format_edge lib size idx hashes)
    pure checkpoint

  unfoldable pub write_signatures : ℕ → Bytes → Hashes → ℕ → List Bytes → Command (Unit {0})
  write_signatures size checkpoint hashes n [] = pure tt
  write_signatures size checkpoint hashes n (path ∷ paths) = do
    proof ← some_or no_proof (lib.prove_record size n (read_hashes hashes))
    _ ← write unwritten_signature (path ++ spicy) (format_signature lib n proof checkpoint)
    write_signatures size checkpoint hashes (suc n) paths

  unfoldable pub append : Bytes → Bytes → List Bytes → Command (Unit {0})
  unfolding load_log append_files save write_signatures
  append key_path assets [] = stop no_files
  append key_path assets (path ∷ paths) = do
    l ← load_log key_path assets
    let c = l.checkpoint
    hashes ← append_files assets c.size (path ∷ paths) l.hashes
    let size = c.size + length (path ∷ paths)
    checkpoint ← save assets l.signer c.origin size hashes
    write_signatures size checkpoint hashes c.size (path ∷ paths)
