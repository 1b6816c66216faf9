-- ===== src/Witness/Race/Fresh.antt =====
-- What stays true of a checked request of internal/witness/witness.go while others run.
use litetlog.Prelude.{
  ℕ, ◌≤◌, ◌≡◌, ◌⊎◌, inl, inr, sym, ap, subst, ◌∙◌, true, some, arith, Bytes, List, bytes_eq_iff,
}
use litetlog.Witness.Library.{IsHash, Library}
use litetlog.Witness.Db.{LogRow, Db, find_log}
use litetlog.Witness.Db.Laws.{find_log-set_rows}
use litetlog.Witness.Process.{read_hash}
use litetlog.Witness.Race.{Attempt, update_by}
use litetlog.Witness.Race.Passed.{Passed}

-- `CheckTree` of two trees of one size holds only if they have one hash, and `ParseHash` reads the
-- text of a hash, which is 32 bytes, back.
pub record TreeLaws (lib : Library) : Type 0 where
  pub same_tree :
      (proof : List Bytes) (n m : ℕ) (h h' : Bytes)
      → lib.check_tree proof n h m h' ≡ true
      → n ≡ m
      → h ≡ h'
  pub reads_back : (h : Bytes) → IsHash h → lib.parse_hash (lib.hash_text h) ≡ some h

module _ (lib : Library) where
  abbrev pub Consistent : Attempt → Bytes → Type 0
  Consistent a hash =
      (a.old_size ≡ 0) ⊎ (lib.check_tree a.proof a.new_size a.new_hash a.old_size hash ≡ true)

  -- The log has not shrunk, and if it has the old size still, then it has the checked hash too.
  pub record Fresh (a : Attempt) (db : Db) : Type 0 where
    pub row : LogRow
    pub known : find_log a.origin db.logs ≡ some row
    pub grows : a.old_size ≤ a.new_size
    pub reached : a.old_size ≤ row.tree_size
    pub consistent : row.tree_size ≡ a.old_size → Consistent a (read_hash lib row.tree_hash)
    pub is_hash : IsHash a.new_hash

  pub Passed-Fresh : (a : Attempt) (db : Db) → IsHash a.new_hash → Passed lib a db → Fresh a db
  Passed-Fresh a db l p = record {
    row = p.row;
    known = p.known;
    grows = p.grows;
    reached = omega (arith, p.at_old);
    consistent = λ _. p.consistent;
    is_hash = l;
  }

  -- The row of a log behind the UPDATE of `b`, in its two cases.
  pub find_log-update_by :
      (b : Attempt) (j : Bytes) (db : Db) (r : LogRow)
      → find_log j db.logs ≡ some r
      → (find_log j (update_by lib b db).logs ≡ some r)
        ⊎ ((j ≡ b.origin)
            × (r.tree_size ≡ b.old_size)
            × (find_log j (update_by lib b db).logs
                ≡ some (record r { tree_size = b.new_size; tree_hash = lib.hash_text b.new_hash })))
  find_log-update_by b j db r e =
      let laws =
        find_log-set_rows b.origin b.old_size b.new_size (lib.hash_text b.new_hash) j db.logs in
      ground (arith, laws, bytes_eq_iff j b.origin)

  module _ (laws : TreeLaws lib) where
    pub read_hash-hash_text : (h : Bytes) → IsHash h → read_hash lib (lib.hash_text h) ≡ h
    unfolding read_hash
    read_hash-hash_text h l = rw (laws.reads_back h l, read_hash)

    -- An UPDATE that leaves the size leaves the hash.
    same_size-same_hash :
        (a b : Attempt) (r : LogRow)
        → Consistent b (read_hash lib r.tree_hash)
        → Consistent a (read_hash lib r.tree_hash)
        → IsHash b.new_hash
        → b.old_size ≡ a.old_size
        → b.new_size ≡ a.old_size
        → Consistent a (read_hash lib (lib.hash_text b.new_hash))
    same_size-same_hash a b r (inl zero) ca l eo en = inl (sym eo ∙ zero)
    same_size-same_hash a b r (inr checked) ca l eo en =
        let same =
          laws.same_tree b.proof b.new_size b.old_size b.new_hash (read_hash lib r.tree_hash)
            checked (en ∙ sym eo) in
        subst (Consistent a) (sym (read_hash-hash_text b.new_hash l ∙ same)) ca

    pub Fresh-update_by :
        (a b : Attempt) (db : Db) → Fresh a db → Fresh b db → Fresh a (update_by lib b db)
    Fresh-update_by a b db fa fb = elim (find_log-update_by b a.origin db fa.row fa.known) [
      | inl unchanged ↦ record {
        row = fa.row;
        known = unchanged;
        grows = fa.grows;
        reached = fa.reached;
        consistent = fa.consistent;
        is_hash = fa.is_hash;
      }
      | inr (same, at_old, changed) ↦
          let rows : fb.row ≡ fa.row = cc (ap (λ o. find_log o db.logs) same, fa.known, fb.known) in
          let checked_b =
            subst
              (λ (r : LogRow). r.tree_size ≡ b.old_size → Consistent b (read_hash lib r.tree_hash))
              rows fb.consistent at_old in
          record {
            row = record fa.row { tree_size = b.new_size; tree_hash = lib.hash_text b.new_hash };
            known = changed;
            grows = fa.grows;
            reached = omega (arith, fa.reached, at_old, fb.grows);
            consistent = λ e.
                same_size-same_hash a b fa.row checked_b
                  (fa.consistent (omega (arith, fa.reached, at_old, fb.grows, e))) fb.is_hash
                  (omega (arith, fa.reached, at_old, fb.grows, e)) e;
            is_hash = fa.is_hash;
          }
    ]
