-- ===== src/Witness/Demo/Races.antt =====
-- Three requests of the demonstration race in internal/witness/witness.go.
use litetlog.Prelude.{◌≡◌, refl, some, [], ◌∷◌, replicate, codes, arith, bytes_eq}
use litetlog.Witness.Db.{exec, exec_on, find_log}
use litetlog.Witness.Process.{row_head, read_hash, get_log, check_head, check_consistency}
use litetlog.Witness.Process.Rollback.{Follows}
use litetlog.Std.Base64.{encode, decode}
use litetlog.Tlogx.Checkpoint.{parse_hash}
use litetlog.Witness.Library.{IsHash}
use litetlog.Witness.Race.{Attempt, Passes}
use litetlog.Witness.Race.Lost.{Split, race-Split}
use litetlog.Witness.Race.Safe.{race-Follows}
use litetlog.Witness.Demo.{demo, demo_origin, demo_row, demo_db, demo_proof}
use litetlog.Witness.Demo.Laws.{demo-TreeLaws, demo-IsUnique}

abbrev first : Attempt
first = record {
  origin = demo_origin;
  old_size = 1;
  new_size = 2;
  new_hash = replicate 32 0;
  proof = demo_proof ∷ [];
}

abbrev second : Attempt
second = record first { new_size = 3; new_hash = replicate 32 1 }

abbrev third : Attempt
third = record first { origin = codes "other"; old_size = 5; new_size = 6 }

zeros-IsHash : IsHash (replicate 32 0)
zeros-IsHash = (ground arith, refl)

ones-IsHash : IsHash (replicate 32 1)
ones-IsHash = (ground arith, refl)

first-Passes : Passes demo first demo_db
unfolding check_consistency check_head get_log row_head read_hash exec exec_on find_log bytes_eq
    encode decode parse_hash
first-Passes = refl

second-Passes : Passes demo second demo_db
unfolding check_consistency check_head get_log row_head read_hash exec exec_on find_log bytes_eq
    encode decode parse_hash
second-Passes = refl

third-Passes : Passes demo third demo_db
unfolding check_consistency check_head get_log row_head read_hash exec exec_on find_log bytes_eq
    encode decode parse_hash
third-Passes = refl

demo_row_known : find_log demo_origin demo_db.logs ≡ some demo_row
unfolding find_log bytes_eq
demo_row_known = refl

split : Split demo demo_db first second
split =
    race-Split demo demo_db first second third demo-IsUnique first-Passes second-Passes third-Passes
      zeros-IsHash ones-IsHash zeros-IsHash refl (λ e. cc e) (omega arith)

race-Split_example : Split demo demo_db first second
race-Split_example =
    race-Split demo demo_db first second third demo-IsUnique first-Passes second-Passes third-Passes
      zeros-IsHash ones-IsHash zeros-IsHash refl (λ e. cc e) (omega arith)

race-Follows_example : Follows demo demo_row (find_log demo_origin split.system.db.logs)
race-Follows_example =
    race-Follows demo demo-TreeLaws demo_db demo_origin demo_row split.reach demo_row_known
