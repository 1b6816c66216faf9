-- ===== src/Ctl.antt =====
-- cmd/witnessctl/witnessctl.go: the commands that add a log to the database of a witness.
-- `log.Fatal` ends the program, as an error does here.
pub mod AddLog
pub mod Demo
use litetlog.Prelude.{◌⊎◌, inl, inr, ◌∷◌, [], ◌++◌, Option, none, some, Bytes, codes}
use litetlog.Std.Base64.{encode}
use litetlog.Std.Hex.{encode_hex}
use litetlog.Witness.Library.{ok}
use litetlog.Witness.Db.{LogRow, KeyRow, Db, Action, ◌>>=◌, ◌>>◌, pure, lift, exec, find_log}

-- `merkle.HashEmptyTree` and `HashBytes` of sigsum-go, and `note.NewEd25519VerifierKey`.
pub record Keys : Type 0 where
  pub empty_hash : Bytes
  pub hash_bytes : Bytes → Bytes
  pub verifier_key : Bytes → Bytes → Bytes ⊎ Bytes

-- A statement that a constraint can refuse.
abbrev pub try_insert : (Db → Bytes ⊎ Db) → Db → (Bytes ⊎ Unit {0}) × Db
try_insert insert db = elim (insert db) [
  | inl message ↦ (inl message, db)
  | inr db' ↦ (inr tt, db')
]

abbrev pub exec_insert : (Db → Bytes ⊎ Db) → Action (Unit {0})
exec_insert insert = do done ← exec (try_insert insert); lift done

-- `origin TEXT PRIMARY KEY`
unfoldable pub insert_log : Bytes → Bytes → Db → Bytes ⊎ Db
insert_log origin hash db = elim (find_log origin db.logs) [
  | some _ ↦ inl (codes "UNIQUE constraint failed: log.origin")
  | none ↦ inr (record db {
    logs = db.logs ++ (record { origin = origin; tree_size = 0; tree_hash = hash } ∷ []);
  })
]

-- `FOREIGN KEY(origin) REFERENCES log(origin)`
unfoldable pub insert_key : Bytes → Bytes → Db → Bytes ⊎ Db
insert_key origin key db = elim (find_log origin db.logs) [
  | none ↦ inl (codes "FOREIGN KEY constraint failed")
  | some _ ↦ inr (record db { keys = db.keys ++ (record { origin = origin; key = key } ∷ []) })
]

-- A statement whose error is dropped.
abbrev pub ignore_error : Action (Unit {0}) → Action (Unit {0})
ignore_error m w = (ok tt, (m w).1)

module _ (keys : Keys) where
  -- The `if` around the second INSERT tests the error of `NewEd25519VerifierKey` again.
  unfoldable pub add_log : Bytes → Bytes → Action (Unit {0})
  add_log origin key = do
    exec_insert (insert_log origin (encode keys.empty_hash))
    k ← lift (keys.verifier_key origin key)
    ignore_error (exec_insert (insert_key origin k))

  unfoldable pub sigsum_origin : Bytes → Bytes
  sigsum_origin key = codes "sigsum.org/v1/tree/" ++ encode_hex (keys.hash_bytes key)

  unfoldable pub add_sigsum_log : Bytes → Action (Unit {0})
  add_sigsum_log key = add_log (sigsum_origin key) key
