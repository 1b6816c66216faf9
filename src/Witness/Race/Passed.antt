-- ===== src/Witness/Race/Passed.antt =====
-- An attempt that has passed `checkConsistency` of internal/witness/witness.go, and its UPDATE.
use litetlog.Prelude.{◌≤◌, ◌≡◌, ◌≢◌, ◌⊎◌, subst, ◌∙◌, true, some, arith, ◌==◌, Bytes, bytes_eq_ne}
use litetlog.Witness.Library.{Library}
use litetlog.Witness.Db.{LogRow, Db, quiet, find_log, count_rows}
use litetlog.Witness.Db.Laws.{IsUnique, find_log-set_rows, count_rows-find_log}
use litetlog.Witness.Process.{read_hash}
use litetlog.Witness.Process.Check.{IsConsistent, check_consistency-ok}
use litetlog.Witness.Race.{Attempt, Passes, update_by}

module _ (lib : Library) where
  -- The row that the attempt was checked against is that of its log.
  pub record Passed (a : Attempt) (db : Db) : Type 0 where
    pub row : LogRow
    pub known : find_log a.origin db.logs ≡ some row
    pub at_old : row.tree_size ≡ a.old_size
    pub grows : a.old_size ≤ a.new_size
    pub consistent :
        (a.old_size ≡ 0)
        ⊎ (lib.check_tree a.proof a.new_size a.new_hash a.old_size (read_hash lib row.tree_hash)
            ≡ true)

  pub Passes-Passed : (a : Attempt) (db : Db) → Passes lib a db → Passed a db
  Passes-Passed a db p =
      let (grows, found) =
        check_consistency-ok lib a.origin a.old_size a.new_size a.new_hash a.proof (quiet db) p in
      let (known, read, consistent) = found in
      let (row, here, e) = read in
      let checked =
        subst (IsConsistent lib a.old_size a.new_size a.new_hash a.proof) e consistent in
      record { row = row; known = here; at_old = checked.0; grows = grows; consistent = checked.1 }

  -- Its UPDATE would change one row now.
  pub Passed-count :
      (a : Attempt) (db : Db)
      → IsUnique db.logs
      → Passed a db
      → count_rows a.origin a.old_size db.logs ≡ 1
  Passed-count a db u p =
      let test : (p.row.tree_size == a.old_size) ≡ true = ground (arith, p.at_old) in
      rw (count_rows-find_log a.origin a.old_size db.logs u, p.known, test)

  -- The UPDATE of another log leaves it as it is.
  pub find_log-other :
      (a : Attempt) (j : Bytes) (db : Db)
      → j ≢ a.origin
      → find_log j (update_by lib a db).logs ≡ find_log j db.logs
  find_log-other a j db ne = rw (
    find_log-set_rows a.origin a.old_size a.new_size (lib.hash_text a.new_hash) j db.logs,
    bytes_eq_ne j a.origin ne,
  )

  pub Passed-other :
      (a b : Attempt) (db : Db) → a.origin ≢ b.origin → Passed a db → Passed a (update_by lib b db)
  Passed-other a b db ne p = record {
    row = p.row;
    known = find_log-other b a.origin db ne ∙ p.known;
    at_old = p.at_old;
    grows = p.grows;
    consistent = p.consistent;
  }
