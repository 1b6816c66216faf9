-- ===== src/Spicy/Init.antt =====
-- `spicy -init` of cmd/spicy/spicy.go.
pub mod Made
pub mod Fresh
use litetlog.Prelude.{ℕ, not, Option, List, [], Bytes, codes, replicate}
use litetlog.Std.Path.{join}
use litetlog.Tlogx.Checkpoint.{Checkpoint, format_checkpoint}
use litetlog.Witness.Process.{zero_hash}
use litetlog.Spicy.Library.{Library}
use litetlog.Spicy.Disk.{
  already_initialized, no_key_generated, no_signer, unsigned_checkpoint, unwritten_key,
  unwritten_latest, unwritten_edge, Command, ◌>>=◌, pure, some_or, require, exists, write,
}

abbrev pub latest_path : Bytes → Bytes
latest_path assets = join assets (codes "latest")

abbrev pub edge_path : Bytes → Bytes
edge_path assets = join assets (codes "edge")

abbrev pub empty_checkpoint : Bytes → Checkpoint
empty_checkpoint name = record { origin = name; size = 0; hash = zero_hash; extension = [] }

-- A file that must not be there.
unfoldable pub unused : Bytes → Command (Unit {0})
unused path = do found ← exists path; require already_initialized (not found)

unfoldable pub none_used : Bytes → Bytes → Command (Unit {0})
unfolding unused
none_used key_path assets = do
  _ ← unused (latest_path assets)
  _ ← unused (edge_path assets)
  unused key_path

unfoldable pub store_log : Bytes → Bytes → Bytes → Bytes → Command (Unit {0})
store_log key_path assets skey checkpoint = do
  _ ← write unwritten_key key_path skey
  _ ← write unwritten_latest (latest_path assets) checkpoint
  write unwritten_edge (edge_path assets) (codes "size 0\n")

module _ (lib : Library) where
  -- The public key, which is printed.
  unfoldable pub init : Bytes → Bytes → Bytes → Command Bytes
  unfolding none_used store_log
  init name key_path assets = do
    _ ← none_used key_path assets
    (skey, vkey) ← some_or no_key_generated (lib.generate_key name)
    signer ← some_or no_signer (lib.new_signer skey)
    checkpoint ←
        some_or unsigned_checkpoint
          (lib.sign_note (format_checkpoint (empty_checkpoint name)) signer)
    _ ← store_log key_path assets skey checkpoint
    pure vkey
