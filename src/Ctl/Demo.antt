-- ===== src/Ctl/Demo.antt =====
-- Logs that cmd/witnessctl/witnessctl.go adds to the database of the demonstration.
use litetlog.Prelude.{◌≡◌, refl, inr, none, some, [], ◌∷◌, replicate, Bytes, codes, bytes_eq}
use litetlog.Std.Base64.{encode}
use litetlog.Witness.Library.{ok, err, unknown_log}
use litetlog.Witness.Db.{World, quiet, find_log, find_keys}
use litetlog.Witness.Process.{get_keys}
use litetlog.Witness.Demo.{demo, demo_db}
use litetlog.Ctl.{Keys, add_log}
use litetlog.Ctl.AddLog.{Added, Known, add_log-Added, add_log-Known, add_log_keyless}

abbrev demo_keys : Keys
demo_keys = record {
  empty_hash = replicate 32 0;
  hash_bytes = λ key. key;
  verifier_key = λ origin key. inr key;
}

abbrev new_origin : Bytes
new_origin = codes "new"

abbrev new_key : Bytes
new_key = codes "k"

is_new : find_log new_origin demo_db.logs ≡ none
unfolding find_log bytes_eq
is_new = refl

has_no_keys : find_keys new_origin demo_db.keys ≡ []
unfolding find_keys bytes_eq
has_no_keys = refl

add_log-Added_example :
    Added (codes "log") demo_db (add_log demo_keys (codes "log") new_key (quiet demo_db)).1.db
add_log-Added_example = add_log-Added demo_keys (codes "log") new_key (quiet demo_db)

add_log-Known_example :
    ((add_log demo_keys new_origin new_key (quiet demo_db)).0 ≡ ok tt)
    × Known demo_keys new_origin new_key demo_db
        (add_log demo_keys new_origin new_key (quiet demo_db)).1.db
add_log-Known_example = add_log-Known demo_keys new_origin new_key new_key demo_db is_new refl

abbrev full_disk : World
full_disk = record { db = demo_db; faults = none ∷ some (codes "disk full") ∷ [] }

add_log_keyless_example :
    ((add_log demo_keys new_origin new_key full_disk).0 ≡ ok tt)
    × (find_log new_origin (add_log demo_keys new_origin new_key full_disk).1.db.logs
        ≡ some (record { origin = new_origin; tree_size = 0; tree_hash = encode (replicate 32 0) }))
    × ((get_keys demo new_origin (add_log demo_keys new_origin new_key full_disk).1).0
        ≡ err unknown_log)
add_log_keyless_example =
    add_log_keyless demo_keys new_origin new_key new_key demo_db is_new refl demo
      (codes "disk full") has_no_keys
