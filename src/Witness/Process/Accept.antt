-- ===== src/Witness/Process/Accept.antt =====
-- `processAddCheckpointRequest` of internal/witness/witness.go: what it does to the database, and
-- what a cosignature means.
use litetlog.Prelude.{ℕ, ◌≤◌, ◌≡◌, ◌⊎◌, inl, inr, refl, ap, subst, ◌∙◌, List, [], ◌∷◌, Bytes}
use litetlog.Std.Strings.{cut}
use litetlog.Tlogx.Checkpoint.{newline, Checkpoint, parse_checkpoint}
use litetlog.Tlogx.Checkpoint.Parse.{parse-IsCheckpoint}
use litetlog.Witness.Library.{IsHash, bad_request, Opened, opened, Library, Signer}
use litetlog.Witness.Db.{Db, World, ◌>>◌, exec, find_keys, some_or, lift}
use litetlog.Witness.Request.{Request, parse_request}
use litetlog.Witness.Process.{
  Head, split_signatures, new_verifiers, some_keys, get_keys, check_consistency, persist_tree_head,
  opened_text, cosign, process_checkpoint, parse_key, process_text, process_request,
  process_add_checkpoint,
}
use litetlog.Witness.Process.Bind.{some_or-world, some_or-ok, lift-world, >>=-keeps, exec_query}
use litetlog.Witness.Process.Check.{Known, IsConsistent, check_consistency-db, check_consistency-ok}
use litetlog.Witness.Process.Persist.{update, persist_tree_head-db}

module _ (lib : Library) where
  -- One log moves: from the size that the request names to one not smaller, and consistently.
  pub record Move (db db' : Db) : Type 0 where
    pub origin : Bytes
    pub old_size : ℕ
    pub new_size : ℕ
    pub new_hash : Bytes
    pub proof : List Bytes
    pub is_hash : IsHash new_hash
    pub known : Head
    pub row : Known lib origin db known
    pub grows : old_size ≤ new_size
    pub consistent : IsConsistent lib old_size new_size new_hash proof known
    pub result : db' ≡ update lib origin old_size new_size new_hash db

  abbrev pub Moved : Db → Db → Type 0
  Moved db db' = (db' ≡ db) ⊎ Move db db'

  new_verifiers-world : (keys : List Bytes) (w : World) → (new_verifiers lib keys w).1 ≡ w
  unfolding new_verifiers
  new_verifiers-world [] w = refl
  new_verifiers-world (k ∷ keys) w =
      >>=-keeps (λ v. v ≡ w) (lift (parse_key lib k)) _ w (lift-world (parse_key lib k) w)
        λ v _. rw lift-world (
          >>=-keeps (λ v. v ≡ w) (new_verifiers lib keys) _ w (new_verifiers-world keys w)
            λ verifiers _. new_verifiers-world keys w)

  some_keys-world : (keys : List Bytes) (w : World) → (some_keys lib keys w).1 ≡ w
  unfolding some_keys
  some_keys-world [] w = refl
  some_keys-world (k ∷ keys) w = new_verifiers-world (k ∷ keys) w

  pub get_keys-db : (origin : Bytes) (w : World) → (get_keys lib origin w).1.db ≡ w.db
  unfolding get_keys
  get_keys-db origin w =
      >>=-keeps (λ (v : World). v.db ≡ w.db) (exec (λ db. (find_keys origin db.keys, db)))
        (some_keys lib) w (exec_query (λ db. find_keys origin db.keys) w)
        λ keys _. rw some_keys-world (exec_query (λ db. find_keys origin db.keys) w)

  pub opened_text-world : (o : Opened) (w : World) → (opened_text lib o w).1 ≡ w
  unfolding opened_text
  opened_text-world (opened text) w = refl
  opened_text-world _ w = refl

  pub cosign-world : (s : Signer) (text : Bytes) (w : World) → (cosign lib s text w).1 ≡ w
  unfolding cosign
  cosign-world s text w =
      >>=-keeps (λ v. v ≡ w) (lift (lib.sign_note text s)) _ w (lift-world (lib.sign_note text s) w)
        λ signed _. rw lift-world (some_or-world _ (split_signatures signed) w)

  persist-Moved :
      (origin : Bytes) (old_size new_size : ℕ) (new_hash : Bytes) (proof : List Bytes)
      (known : Head) (db : Db) (w : World)
      → w.db ≡ db
      → Known lib origin db known
      → IsHash new_hash
      → old_size ≤ new_size
      → IsConsistent lib old_size new_size new_hash proof known
      → Moved db (persist_tree_head lib origin old_size new_size new_hash w).1.db
  persist-Moved origin old_size new_size new_hash proof known db w same row is_hash grows
        consistent =
      elim (persist_tree_head-db lib origin old_size new_size new_hash w) [
        | inl e ↦ inl (e ∙ same)
        | inr e ↦ inr (record {
          origin = origin;
          old_size = old_size;
          new_size = new_size;
          new_hash = new_hash;
          proof = proof;
          is_hash = is_hash;
          known = known;
          row = row;
          grows = grows;
          consistent = consistent;
          result = e ∙ ap (update lib origin old_size new_size new_hash) same;
        })
      ]

  module _ (s : Signer) (r : Request) (text : Bytes) where
    process_checkpoint-Moved :
        (c : Checkpoint) (w : World)
        → IsHash c.hash
        → Moved w.db (process_checkpoint lib s r text c w).1.db
    unfolding process_checkpoint
    process_checkpoint-Moved c w is_hash =
        let check = check_consistency lib c.origin r.old_size c.size c.hash r.proof in
        let persist = persist_tree_head lib c.origin r.old_size c.size c.hash in
        let same = check_consistency-db lib c.origin r.old_size c.size c.hash r.proof w in
        >>=-keeps (λ v. Moved w.db v.db) check (λ _. persist >> cosign lib s text) w (inl same)
          λ _ checked.
            let (grows, found) =
              check_consistency-ok lib c.origin r.old_size c.size c.hash r.proof w checked in
            let (known, row, consistent) = found in
            let moved =
              persist-Moved c.origin r.old_size c.size c.hash r.proof known w.db (check w).1 same
                row is_hash grows consistent in
            >>=-keeps (λ v. Moved w.db v.db) persist (λ _. cosign lib s text) (check w).1 moved
              λ _ _. rw cosign-world moved

    process_text-Moved : (w : World) → Moved w.db (process_text lib s r text w).1.db
    unfolding process_text
    process_text-Moved w =
        >>=-keeps (λ v. Moved w.db v.db) (some_or _ (parse_checkpoint text))
          (process_checkpoint lib s r text) w
          (inl (ap (λ (v : World). v.db) (some_or-world _ (parse_checkpoint text) w)))
          λ c parses.
            let i = parse-IsCheckpoint text (some_or-ok _ (parse_checkpoint text) w parses) in
            rw some_or-world (process_checkpoint-Moved c w (i.hash_bytes, i.hash_length))

  process_request-Moved :
      (s : Signer) (r : Request) (w : World) → Moved w.db (process_request lib s r w).1.db
  unfolding process_request
  process_request-Moved s r w =
      let origin = (cut newline r.note).before in
      let same = get_keys-db origin w in
      >>=-keeps (λ v. Moved w.db v.db) (get_keys lib origin) _ w (inl same)
        λ verifiers _.
          let w' = (get_keys lib origin w).1 in
          let o = lib.open_note r.note verifiers in
          >>=-keeps (λ v. Moved w.db v.db) (opened_text lib o) (process_text lib s r) w'
            (inl (rw opened_text-world same))
            λ text _. rw opened_text-world (
              subst (λ d. Moved d (process_text lib s r text w').1.db) same
                (process_text-Moved s r text w'))

  -- On every branch, errors and failing statements included, a request leaves the tables as they
  -- are, or it has made the one UPDATE of a log that passed the consistency check against that
  -- log's row, from the size that the request names to one not smaller.
  pub process_add_checkpoint-Moved :
      (s : Signer) (body : Bytes) (w : World)
      → Moved w.db (process_add_checkpoint lib s body w).1.db
  unfolding process_add_checkpoint
  process_add_checkpoint-Moved s body w =
      >>=-keeps (λ v. Moved w.db v.db) (some_or bad_request (parse_request lib.parse_hash body))
        (process_request lib s) w
        (inl (
          ap (λ (v : World). v.db)
            (some_or-world bad_request (parse_request lib.parse_hash body) w)))
        λ r _. rw some_or-world (process_request-Moved s r w)
