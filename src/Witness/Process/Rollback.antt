-- ===== src/Witness/Process/Rollback.antt =====
-- Requests to internal/witness/witness.go one after another.
use litetlog.Prelude.{
  ℕ, ◌≤◌, ◌≡◌, ◌⊎◌, inl, inr, refl, sym, ap, subst, ◌∙◌, true, Option, some, List, [], ◌∷◌, arith,
  ◌==◌, Bytes, Bool-cases, bytes_eq, bytes_eq_iff,
}
use litetlog.Witness.Library.{Library, Signer}
use litetlog.Witness.Db.{LogRow, Db, World, find_log}
use litetlog.Witness.Db.Laws.{moved}
use litetlog.Witness.Process.{Head, read_hash, process_add_checkpoint}
use litetlog.Witness.Process.Check.{Known, IsConsistent}
use litetlog.Witness.Process.Persist.{find_log-update}
use litetlog.Witness.Process.Accept.{Moved, process_add_checkpoint-Moved}

-- The requests in turn, each with the signer at its time.
unfoldable pub process_all : Library → List (Signer × Bytes) → World → World
process_all lib [] w = w
process_all lib ((s, body) ∷ requests) w =
    process_all lib requests (process_add_checkpoint lib s body w).1

module _ (lib : Library) where
  -- One accepted head after another: not smaller, and `CheckTree` found the old tree in the new
  -- one, unless the old tree was empty.
  pub record Extends (r r' : LogRow) : Type 0 where
    pub hash : Bytes
    pub proof : List Bytes
    pub stored : r'.tree_hash ≡ lib.hash_text hash
    pub grows : r.tree_size ≤ r'.tree_size
    pub checked :
        (r.tree_size ≡ 0)
        ⊎ (lib.check_tree proof r'.tree_size hash r.tree_size (read_hash lib r.tree_hash) ≡ true)

  pub data Chain (r : LogRow) : LogRow → Type 0 where
    stay : Chain r r
    extend : {r' r'' : LogRow} → Chain r r' → Extends r' r'' → Chain r r''

  pub Chain-trans : {a b c : LogRow} → Chain a b → Chain b c → Chain a c
  Chain-trans p stay = p
  Chain-trans p (extend q e) = extend (Chain-trans p q) e

  abbrev pub Follows : LogRow → Option LogRow → Type 0
  Follows r row = (r' : LogRow) × (row ≡ some r') × Chain r r'

  moved-Follows :
      (old_size new_size : ℕ) (new_hash : Bytes) (proof : List Bytes) (r : LogRow)
      → old_size ≤ new_size
      → IsConsistent lib old_size new_size new_hash proof
          (record { size = r.tree_size; hash = read_hash lib r.tree_hash })
      → Follows r (moved old_size new_size (lib.hash_text new_hash) (some r))
  moved-Follows old_size new_size new_hash proof r grows (at_old, checked) =
      let test : (r.tree_size == old_size) ≡ true = ground arith in
      (
        record r { tree_size = new_size; tree_hash = lib.hash_text new_hash },
        rw test,
        extend stay (record {
          hash = new_hash;
          proof = proof;
          stored = refl;
          grows = omega arith;
          checked =
              subst
                (λ n.
                  (n ≡ 0)
                  ⊎ (lib.check_tree proof new_size new_hash n (read_hash lib r.tree_hash) ≡ true))
                (sym at_old) checked;
        }),
      )

  Known-row :
      (origin : Bytes) (db : Db) (known : Head) (r : LogRow)
      → Known lib origin db known
      → find_log origin db.logs ≡ some r
      → known ≡ record { size = r.tree_size; hash = read_hash lib r.tree_hash }
  Known-row origin db known r (r', there, e) here =
      let same : r' ≡ r = cc in
      e ∙ ap (λ (x : LogRow). record { size = x.tree_size; hash = read_hash lib x.tree_hash }) same

  Moved-Follows :
      (j : Bytes) (db db' : Db) (r : LogRow)
      → find_log j db.logs ≡ some r
      → Moved lib db db'
      → Follows r (find_log j db'.logs)
  Moved-Follows j db db' r here (inl same) = (r, rw same here, stay)
  Moved-Follows j db db' r here (inr m) = elim (Bool-cases (bytes_eq j m.origin)) [
    | inl own ↦
        let there = rw ((bytes_eq_iff j m.origin).0 own) at here in
        let known = Known-row m.origin db m.known r m.row there in
        rw (m.result, find_log-update, own, here)
          (moved-Follows m.old_size m.new_size m.new_hash m.proof r m.grows
            (subst (IsConsistent lib m.old_size m.new_size m.new_hash m.proof) known m.consistent))
    | inr other ↦ rw (m.result, find_log-update, other) (r, here, stay)
  ]

  -- Whatever requests are served one after another, with statements of the database failing or
  -- not, a log that was known stays known, and its row is reached from the old one by extensions
  -- alone: its size never falls, and each head was checked by CheckTree to contain the one before,
  -- unless that was empty.
  pub process_all-Follows :
      (requests : List (Signer × Bytes)) (w : World) (j : Bytes) (r : LogRow)
      → find_log j w.db.logs ≡ some r
      → Follows r (find_log j (process_all lib requests w).db.logs)
  unfolding process_all
  process_all-Follows [] w j r here = (r, here, stay)
  process_all-Follows ((s, body) ∷ requests) w j r here =
      let w' = (process_add_checkpoint lib s body w).1 in
      let (r', here', first) =
        Moved-Follows j w.db w'.db r here (process_add_checkpoint-Moved lib s body w) in
      let (r'', here'', later) = process_all-Follows requests w' j r' here' in
      (r'', here'', Chain-trans first later)
