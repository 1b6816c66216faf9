-- ===== src/Witness/Race/Safe.antt =====
-- The rows of the database of internal/witness/witness.go while requests interleave.
use litetlog.Witness.Race.Fresh.{
  TreeLaws, Consistent, Fresh, Passed-Fresh, find_log-update_by, Fresh-update_by,
}
use litetlog.Prelude.{
  ℕ, ◌≡◌, ◌⊎◌, inl, inr, refl, sym, ap, subst, true, some, arith, ◌==◌, Bytes, Bool-cases,
}
use litetlog.Witness.Library.{Library}
use litetlog.Witness.Db.{LogRow, Db, find_log}
use litetlog.Witness.Process.{read_hash}
use litetlog.Witness.Process.Rollback.{stay, extend, Chain-trans, Follows}
use litetlog.Witness.Race.{
  Attempt, checked, System, start, update_by, Step, check, update, accept, refuse, Reach, here,
  next,
}
use litetlog.Witness.Race.Passed.{Passes-Passed}

module _ (lib : Library) where
  -- Every request behind `checkConsistency` is fresh.
  Inv : System → Type 0
  Inv s = (i : ℕ) (a : Attempt) → s.phase i ≡ checked a → Fresh lib a s.db

  module _ (laws : TreeLaws lib) where
    Step-Inv : {s t : System} → Step lib s t → Inv s → Inv t
    unfolding Inv
    Step-Inv {s} (check i a e l p) inv j a' h = elim (Bool-cases (j == i)) [
      | inl own ↦
          let same : a ≡ a' = ground arith in
          subst (λ x. Fresh lib x s.db) same
            (Passed-Fresh lib a s.db l (Passes-Passed lib a s.db p))
      | inr other ↦ inv j a' (ground arith)
    ]
    Step-Inv {s} (update i b e) inv j a h = elim (Bool-cases (j == i)) [
      | inl own ↦ cc (rw own at h)
      | inr other ↦ Fresh-update_by lib laws a b s.db (inv j a (ground arith)) (inv i b e)
    ]
    Step-Inv {s} (accept i b e c) inv j a h = elim (Bool-cases (j == i)) [
      | inl own ↦ cc (rw own at h)
      | inr other ↦ inv j a (ground arith)
    ]
    Step-Inv {s} (refuse i) inv j a h = elim (Bool-cases (j == i)) [
      | inl own ↦ cc (rw own at h)
      | inr other ↦ inv j a (ground arith)
    ]

    update-Follows :
        (b : Attempt) (db : Db) (j : Bytes) (r : LogRow)
        → Fresh lib b db
        → find_log j db.logs ≡ some r
        → Follows lib r (find_log j (update_by lib b db).logs)
    update-Follows b db j r f known = elim (find_log-update_by lib b j db r known) [
      | inl unchanged ↦ (r, unchanged, stay)
      | inr (same, at_old, changed) ↦
          let rows : f.row ≡ r = cc (ap (λ o. find_log o db.logs) same, f.known, known) in
          let checks =
            subst
              (λ (x : LogRow).
                x.tree_size ≡ b.old_size → Consistent lib b (read_hash lib x.tree_hash))
              rows f.consistent at_old in
          (
            record r { tree_size = b.new_size; tree_hash = lib.hash_text b.new_hash },
            changed,
            extend stay (record {
              hash = b.new_hash;
              proof = b.proof;
              stored = refl;
              grows = omega (arith, f.grows, at_old);
              checked =
                  subst
                    (λ n.
                      (n ≡ 0)
                      ⊎ (lib.check_tree b.proof b.new_size b.new_hash n (read_hash lib r.tree_hash)
                          ≡ true))
                    (sym at_old) checks;
            }),
          )
    ]

    Step-Follows :
        {s t : System} (j : Bytes) (r : LogRow)
        → Step lib s t
        → Inv s
        → find_log j s.db.logs ≡ some r
        → Follows lib r (find_log j t.db.logs)
    unfolding Inv
    Step-Follows j r (check i a e l p) inv known = (r, known, stay)
    Step-Follows {s} j r (update i b e) inv known = update-Follows b s.db j r (inv i b e) known
    Step-Follows j r (accept i b e c) inv known = (r, known, stay)
    Step-Follows j r (refuse i) inv known = (r, known, stay)

    Reach-Inv : {s t : System} → Reach lib s t → Inv s → Inv t
    Reach-Inv here inv = inv
    Reach-Inv (next p st) inv = Step-Inv st (Reach-Inv p inv)

    Reach-Follows :
        {s t : System} (j : Bytes) (r : LogRow)
        → Reach lib s t
        → Inv s
        → find_log j s.db.logs ≡ some r
        → Follows lib r (find_log j t.db.logs)
    Reach-Follows j r here inv known = (r, known, stay)
    Reach-Follows j r (next p st) inv known =
        let (r', known', first) = Reach-Follows j r p inv known in
        let (r'', known'', later) = Step-Follows j r' st (Reach-Inv p inv) known' in
        (r'', known'', Chain-trans lib first later)

    start-Inv : (db : Db) → Inv (start db)
    unfolding Inv
    start-Inv db i a h = cc

    -- If CheckTree holds of two trees of one size only where their hashes are equal, and ParseHash
    -- reads the text of a hash, which is 32 bytes, back, then in every interleaving of requests
    -- between their calls of the database the row of a known log is reached from its first row by
    -- extensions alone.
    pub race-Follows :
        (db : Db) {s : System} (j : Bytes) (r : LogRow)
        → Reach lib (start db) s
        → find_log j db.logs ≡ some r
        → Follows lib r (find_log j s.db.logs)
    race-Follows db j r p known = Reach-Follows j r p (start-Inv db) known
