-- ===== src/Witness/Process/Persist.antt =====
-- `persistTreeHead` of internal/witness/witness.go.
use litetlog.Prelude.{ℕ, ◌≡◌, ◌≢◌, ◌⊎◌, sym, ap, ◌∙◌, arith, if◌then◌else◌, Bytes, bytes_eq}
use litetlog.Witness.Library.{ok, conflict, Library}
use litetlog.Witness.Db.{Db, World, Action, ◌>>=◌, exec, find_log, raise, update_log, count_rows}
use litetlog.Witness.Db.Laws.{moved, find_log-set_rows}
use litetlog.Witness.Process.{get_log, check_changes, persist_tree_head}
use litetlog.Witness.Process.Bind.{>>=-eq-ok, >>=-keeps, exec-ok, exec-db}
use litetlog.Witness.Process.Check.{get_log-db}

module _ (lib : Library) (origin : Bytes) (old_size new_size : ℕ) (new_hash : Bytes) where
  abbrev pub update : Db → Db
  update = update_log origin old_size new_size (lib.hash_text new_hash)

  refuse : Action (Unit {0})
  refuse = do known ← get_log lib origin; raise (conflict known.size)

  refuse-db : (w : World) → (refuse w).1.db ≡ w.db
  unfolding refuse
  refuse-db w =
      >>=-keeps (λ (v : World). v.db ≡ w.db) (get_log lib origin)
        (λ known. raise (conflict known.size)) w (get_log-db lib origin w)
        λ known _. get_log-db lib origin w

  refuse-ne-ok : (w : World) → (refuse w).0 ≢ ok tt
  unfolding refuse
  refuse-ne-ok w h =
      let b = >>=-eq-ok (get_log lib origin) (λ known. raise (conflict known.size)) w h in
      cc b.second

  check_changes-db : (w : World) → (check_changes lib origin w).1.db ≡ w.db
  unfolding check_changes refuse
  check_changes-db w = ground (arith, refuse-db w)

  check_changes-ok : (w : World) → (check_changes lib origin w).0 ≡ ok tt → w.db.changes ≡ 1
  unfolding check_changes refuse
  check_changes-ok w h = ground (arith, refuse-ne-ok w)

  abbrev run : Db → Unit {0} × Db
  run db = (tt, update db)

  -- The UPDATE is all that it does to the tables, and it may fail with nothing done.
  pub persist_tree_head-db :
      (w : World)
      → ((persist_tree_head lib origin old_size new_size new_hash w).1.db ≡ w.db)
        ⊎ ((persist_tree_head lib origin old_size new_size new_hash w).1.db ≡ update w.db)
  unfolding persist_tree_head
  persist_tree_head-db w =
      >>=-keeps (λ (v : World). (v.db ≡ w.db) ⊎ (v.db ≡ update w.db)) (exec run)
        (λ _. check_changes lib origin) w (exec-db run w) λ _ _. rw check_changes-db (exec-db run w)

  -- It succeeds only if the UPDATE changed exactly one row.
  pub persist_tree_head-ok :
      (w : World)
      → (persist_tree_head lib origin old_size new_size new_hash w).0 ≡ ok tt
      → ((persist_tree_head lib origin old_size new_size new_hash w).1.db ≡ update w.db)
        × (count_rows origin old_size w.db.logs ≡ 1)
  unfolding persist_tree_head
  persist_tree_head-ok w h =
      let b = >>=-eq-ok (exec run) (λ _. check_changes lib origin) w h in
      let e = (exec-ok run w b.first).1 in
      (
        ap (λ (v : World). v.db) b.world ∙ (check_changes-db (exec run w).1 ∙ e),
        sym (ap (λ (db : Db). db.changes) e) ∙ check_changes-ok (exec run w).1 b.second,
      )

  -- The rows that an UPDATE leaves: the log's own moves from the old size, all others stay.
  pub find_log-update :
      (db : Db) (j : Bytes)
      → find_log j (update db).logs ≡ (
          if bytes_eq j origin
          then moved old_size new_size (lib.hash_text new_hash) (find_log j db.logs)
          else find_log j db.logs)
  find_log-update db j =
      find_log-set_rows origin old_size new_size (lib.hash_text new_hash) j db.logs
