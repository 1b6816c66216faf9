-- ===== src/Witness/Process/Quiet.antt =====
-- `processAddCheckpointRequest` of internal/witness/witness.go on a database whose statements do
-- not fail.
use litetlog.Prelude.{
  ℕ, ◌≤◌, ◌≡◌, ◌≢◌, refl, true, false, none, some, List, [], ◌∷◌, arith, ltb, ◌==◌, if◌then◌else◌,
  Bytes,
}
use litetlog.Witness.Library.{ok, err, bad_proof, Library, Signer}
use litetlog.Witness.Db.{LogRow, Db, World, quiet, exec, exec_on, find_log, find_keys, count_rows}
use litetlog.Witness.Db.Laws.{IsUnique, count_rows-find_log}
use litetlog.Witness.Process.{
  Head, zero_hash, read_hash, row_head, get_log, parse_key, new_verifiers, some_keys, get_keys,
  check_head, check_consistency, check_changes, persist_tree_head, cosign,
}
use litetlog.Witness.Process.Check.{IsConsistent}
use litetlog.Witness.Process.Persist.{update}
use litetlog.Witness.Process.Cosign.{VerifiersOf, KeysOf, Cosigned}

module _ (lib : Library) where
  pub get_log-quiet :
      (origin : Bytes) (db : Db) (r : LogRow)
      → find_log origin db.logs ≡ some r
      → get_log lib origin (quiet db)
        ≡ (ok (record { size = r.tree_size; hash = read_hash lib r.tree_hash }), quiet db)
  unfolding get_log row_head exec exec_on
  get_log-quiet origin db r h = rw h

  new_verifiers-VerifiersOf :
      (keys : List Bytes) (verifiers : List lib.Verifier) (w : World)
      → VerifiersOf lib keys verifiers
      → new_verifiers lib keys w ≡ (ok verifiers, w)
  unfolding new_verifiers parse_key
  new_verifiers-VerifiersOf [] [] w h = refl
  new_verifiers-VerifiersOf [] (v ∷ vs) w h = absurd h
  new_verifiers-VerifiersOf (k ∷ keys) [] w h = absurd h
  new_verifiers-VerifiersOf (k ∷ keys) (v ∷ vs) w (e, h) =
      rw (e, parse_key) (rw (new_verifiers-VerifiersOf keys vs w h))

  some_keys-KeysOf :
      (keys : List Bytes) (verifiers : List lib.Verifier) (w : World)
      → KeysOf lib keys verifiers
      → some_keys lib keys w ≡ (ok verifiers, w)
  unfolding some_keys
  some_keys-KeysOf [] verifiers w (ne, h) = absurd (ne refl)
  some_keys-KeysOf (k ∷ keys) verifiers w (ne, h) =
      new_verifiers-VerifiersOf (k ∷ keys) verifiers w h

  pub get_keys-quiet :
      (origin : Bytes) (db : Db) (verifiers : List lib.Verifier)
      → KeysOf lib (find_keys origin db.keys) verifiers
      → get_keys lib origin (quiet db) ≡ (ok verifiers, quiet db)
  unfolding get_keys exec exec_on
  get_keys-quiet origin db verifiers h =
      some_keys-KeysOf (find_keys origin db.keys) verifiers (quiet db) h

  pub check_consistency-quiet :
      (origin : Bytes) (old_size new_size : ℕ) (new_hash : Bytes) (proof : List Bytes) (db : Db)
      (r : LogRow)
      → find_log origin db.logs ≡ some r
      → r.tree_size ≡ old_size
      → old_size ≤ new_size
      → check_consistency lib origin old_size new_size new_hash proof (quiet db)
        ≡ check_head lib old_size new_size new_hash proof
            (record { size = r.tree_size; hash = read_hash lib r.tree_hash })
            (quiet db)
  unfolding check_consistency
  check_consistency-quiet origin old_size new_size new_hash proof db r h e le =
      let grows : ltb new_size old_size ≡ false = ground arith in
      rw (grows, get_log-quiet origin db r h)

  pub check_head_passes :
      (old_size new_size : ℕ) (new_hash : Bytes) (proof : List Bytes) (known : Head) (w : World)
      → IsConsistent lib old_size new_size new_hash proof known
      → check_head lib old_size new_size new_hash proof known w ≡ (ok tt, w)
  unfolding check_head
  check_head_passes old_size new_size new_hash proof known w (e, checked) = ground arith

  read_hash_corrupt : (text : Bytes) → lib.parse_hash text ≡ none → read_hash lib text ≡ zero_hash
  unfolding read_hash
  read_hash_corrupt text h = rw (h, read_hash)

  -- A row whose stored hash is not the text of a hash raises no error: where no statement fails, a
  -- request from its size, which is not 0, to one not smaller has its proof checked against the
  -- hash of 32 zero bytes.
  pub check_consistency_corrupt :
      (origin : Bytes) (old_size new_size : ℕ) (new_hash : Bytes) (proof : List Bytes) (db : Db)
      (r : LogRow)
      → find_log origin db.logs ≡ some r
      → lib.parse_hash r.tree_hash ≡ none
      → r.tree_size ≡ old_size
      → old_size ≢ 0
      → old_size ≤ new_size
      → (check_consistency lib origin old_size new_size new_hash proof (quiet db)).0 ≡ (
          if lib.check_tree proof new_size new_hash old_size zero_hash
          then ok tt
          else err bad_proof)
  unfolding check_head
  check_consistency_corrupt origin old_size new_size new_hash proof db r h corrupt e ne le =
      let at_old : (r.tree_size == old_size) ≡ true = ground arith in
      let some_tree : (old_size == 0) ≡ false = ground arith in
      rw
        (
          check_consistency-quiet origin old_size new_size new_hash proof db r h e le,
          read_hash_corrupt r.tree_hash corrupt,
          at_old,
          some_tree,
        )
        (ground arith)

  pub persist_tree_head-quiet :
      (origin : Bytes) (old_size new_size : ℕ) (new_hash : Bytes) (db : Db) (r : LogRow)
      → IsUnique db.logs
      → find_log origin db.logs ≡ some r
      → r.tree_size ≡ old_size
      → persist_tree_head lib origin old_size new_size new_hash (quiet db)
        ≡ (ok tt, quiet (update lib origin old_size new_size new_hash db))
  unfolding persist_tree_head check_changes exec exec_on
  persist_tree_head-quiet origin old_size new_size new_hash db r u h e =
      let test : (r.tree_size == old_size) ≡ true = ground arith in
      let one : count_rows origin old_size db.logs ≡ 1 =
        rw (count_rows-find_log origin old_size db.logs u, h, test) in
      rw one

  pub cosign_runs :
      (s : Signer) (text : Bytes) (w : World) {sigs : Bytes}
      → Cosigned lib s text sigs
      → cosign lib s text w ≡ (ok sigs, w)
  unfolding cosign
  cosign_runs s text w c = rw (c.signs, c.splits)
