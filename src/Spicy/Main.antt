-- ===== src/Spicy/Main.antt =====
-- `main` of cmd/spicy/spicy.go: which of its three commands runs.
use litetlog.Prelude.{List, Bytes, is_empty, if◌then◌else◌}
use litetlog.Spicy.Library.{Library}
use litetlog.Spicy.Disk.{Command, ◌>>=◌, pure}
use litetlog.Spicy.Verify.{verify}
use litetlog.Spicy.Init.{init}
use litetlog.Spicy.Append.{append}

-- A flag that is not set is empty.
pub record Flags : Type 0 where
  pub verify_key : Bytes
  pub key_path : Bytes
  pub init_name : Bytes
  pub assets : Bytes

unfoldable pub main : Library → Flags → List Bytes → Command (Unit {0})
main lib flags args =
    if is_empty flags.verify_key
    then if is_empty flags.init_name
      then append lib flags.key_path flags.assets args
      else (do _ ← init lib flags.init_name flags.key_path flags.assets; pure tt)
    else verify lib flags.verify_key args
