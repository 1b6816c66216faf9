-- ===== src/Witness/Race/Lost.antt =====
-- The race on `Changes` in internal/witness/witness.go.
use litetlog.Prelude.{◌≡◌, ◌≢◌, refl, sym, ap, ◌∙◌, true, false, some, arith, ◌==◌, bytes_eq_refl}
use litetlog.Witness.Library.{IsHash, ok, Library}
use litetlog.Witness.Db.{LogRow, Db, World, find_log}
use litetlog.Witness.Db.Laws.{IsUnique, find_log-set_rows, set_rows-IsUnique}
use litetlog.Witness.Process.{check_changes}
use litetlog.Witness.Race.{
  Attempt, idle, checked, updated, accepted, set_phase, System, start, Passes, update_by, check,
  update, accept, Reach, here, next,
}
use litetlog.Witness.Race.Passed.{Passed, Passes-Passed, Passed-count, Passed-other, find_log-other}

-- Two heads of one log are accepted from the same old head, and only the first is stored.
pub record Split (lib : Library) (db : Db) (a b : Attempt) : Type 0 where
  pub system : System
  pub reach : Reach lib (start db) system
  pub first : system.phase 0 ≡ accepted a
  pub second : system.phase 1 ≡ accepted b
  pub row : LogRow
  pub known : find_log a.origin db.logs ≡ some row
  pub stored :
      find_log a.origin system.db.logs
      ≡ some (record row { tree_size = a.new_size; tree_hash = lib.hash_text a.new_hash })

check_changes-one :
    (lib : Library) (a : Attempt) (w : World)
    → w.db.changes ≡ 1
    → (check_changes lib a.origin w).0 ≡ ok tt
unfolding check_changes
check_changes-one lib a w e = rw e

module _ (lib : Library) (db : Db) (a b c : Attempt) (unique : IsUnique db.logs)
    (pa : Passes lib a db) (pb : Passes lib b db) (pc : Passes lib c db) (la : IsHash a.new_hash)
    (lb : IsHash b.new_hash) (lc : IsHash c.new_hash) (same : b.origin ≡ a.origin)
    (other : c.origin ≢ a.origin) (moves : a.new_size ≢ a.old_size) where
  after_a : Db
  after_a = update_by lib a db

  after_b : Db
  after_b = update_by lib b after_a

  after_c : Db
  after_c = update_by lib c after_b

  c_changes : after_c.changes ≡ 1
  unfolding after_a after_b after_c
  c_changes =
      let first = Passed-other lib c a db other (Passes-Passed lib c db pc) in
      let second = Passed-other lib c b (update_by lib a db) (λ e. other (e ∙ same)) first in
      let keys =
        set_rows-IsUnique a.origin a.old_size a.new_size (lib.hash_text a.new_hash) db.logs
          unique in
      Passed-count lib c after_b
        (set_rows-IsUnique b.origin b.old_size b.new_size (lib.hash_text b.new_hash) _ keys) second

  same_old : Passed lib a db → Passed lib b db → b.old_size ≡ a.old_size
  same_old p q =
      let rows : q.row ≡ p.row = cc (ap (λ o. find_log o db.logs) same, p.known, q.known) in
      sym q.at_old ∙ (ap (λ (r : LogRow). r.tree_size) rows ∙ p.at_old)

  stored_lem :
      (p : Passed lib a db)
      → find_log a.origin after_c.logs
        ≡ some (record p.row { tree_size = a.new_size; tree_hash = lib.hash_text a.new_hash })
  unfolding after_a after_b after_c
  stored_lem p =
      let q = Passes-Passed lib b db pb in
      let olds : b.old_size ≡ a.old_size = same_old p q in
      let hit : (p.row.tree_size == a.old_size) ≡ true = ground (arith, p.at_old) in
      let miss : (a.new_size == b.old_size) ≡ false = ground arith in
      rw (
        find_log-other lib c a.origin after_b (λ e. other (sym e)),
        find_log-set_rows b.origin b.old_size b.new_size (lib.hash_text b.new_hash) a.origin
            after_a.logs,
        find_log-set_rows a.origin a.old_size a.new_size (lib.hash_text a.new_hash) a.origin
            db.logs,
        p.known,
        same,
        bytes_eq_refl a.origin,
        hit,
        miss,
      )

  -- Where no two logs have one origin, two requests for heads of one log that pass
  -- checkConsistency on the same tables, the first of which changes the size, and a request for
  -- another log that passes it too, all with hashes of 32 bytes, can interleave so that both heads
  -- of the one log are accepted for a cosignature, while only the first is stored: Changes reports
  -- the UPDATE of the third request to the second.
  pub race-Split : Split lib db a b
  unfolding after_a after_b after_c
  race-Split =
      let p = Passes-Passed lib a db pa in
      record {
        system = record {
          db = after_c;
          phase = set_phase 1 (accepted b) (
              set_phase 2 (updated c) (
                set_phase 1 (updated b) (
                  set_phase 0 (accepted a) (
                    set_phase 0 (updated a) (
                      set_phase 2 (checked c)
                        (set_phase 1 (checked b) (set_phase 0 (checked a) (λ _. idle))))))));
        };
        reach =
            next
              (next
                (next
                  (next
                    (next
                      (next (next (next here (check 0 a refl la pa)) (check 1 b refl lb pb))
                        (check 2 c refl lc pc))
                      (update 0 a refl))
                    (accept 0 a refl (check_changes-one lib a _ (Passed-count lib a db unique p))))
                  (update 1 b refl))
                (update 2 c refl))
              (accept 1 b refl (check_changes-one lib b _ c_changes));
        first = refl;
        second = refl;
        row = p.row;
        known = p.known;
        stored = stored_lem p;
      }
