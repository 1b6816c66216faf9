-- ===== src/Witness/Process.antt =====
-- `processAddCheckpointRequest` of internal/witness/witness.go and what it calls. The deferred
-- function only logs, and `testingOnlyStallRequest` is nil outside the tests.
pub mod Bind
pub mod Check
pub mod Persist
pub mod Accept
pub mod Rollback
pub mod Cosign
pub mod Endorse
pub mod Quiet
pub mod Complete
pub mod Conflict
use litetlog.Prelude.{
  ℕ, not, ◌||◌, ◌⊎◌, inl, inr, Option, none, some, List, [], ◌∷◌, ◌++◌, ltb, ◌==◌, if◌then◌else◌,
  is_empty, replicate, Bytes, codes,
}
use litetlog.Std.Strings.{cut, after_last, ends_with}
use litetlog.Tlogx.Checkpoint.{newline, Checkpoint, parse_checkpoint}
use litetlog.Witness.Library.{
  unknown_log, invalid_signature, bad_request, bad_proof, conflict, internal, Opened, opened,
  unverified, invalid, malformed, Library, Signer,
}
use litetlog.Witness.Db.{
  LogRow, Db, Action, ◌>>=◌, ◌>>◌, pure, raise, some_or, lift, exec, find_log, find_keys,
  update_log,
}
use litetlog.Witness.Request.{Request, parse_request}

-- A tree head: a size and a `tlog.Hash`.
pub record Head : Type 0 where
  pub size : ℕ
  pub hash : Bytes

-- `tlog.Hash{}`, which `tlog.ParseHash` returns along with an error.
abbrev pub zero_hash : Bytes
zero_hash = replicate 32 0

-- What follows the last blank line.
unfoldable pub split_signatures : Bytes → Option Bytes
split_signatures signed = elim (after_last (newline ∷ newline ∷ []) signed) [
  | none ↦ none
  | some sigs ↦ if is_empty sigs || not (ends_with newline sigs) then none else some sigs
]

module _ (lib : Library) where
  -- The callback drops the error of `tlog.ParseHash`: `err` is assigned again by `Exec`.
  unfoldable pub read_hash : Bytes → Bytes
  read_hash text = elim (lib.parse_hash text) [ some h ↦ h | none ↦ zero_hash ]

  unfoldable pub row_head : Option LogRow → Action Head
  row_head none = raise unknown_log
  row_head (some r) = pure (record { size = r.tree_size; hash = read_hash r.tree_hash })

  unfoldable pub get_log : Bytes → Action Head
  get_log origin = do row ← exec (λ db. (find_log origin db.logs, db)); row_head row

  -- `fmt.Errorf("invalid key %q: %v", k, err)`, for keys in which `%q` escapes nothing.
  unfoldable pub parse_key : Bytes → Bytes ⊎ lib.Verifier
  parse_key k = elim (lib.new_verifier k) [
    | inl message ↦ inl (codes "invalid key \"" ++ (k ++ (codes "\": " ++ message)))
    | inr v ↦ inr v
  ]

  unfoldable pub new_verifiers : List Bytes → Action (List lib.Verifier)
  new_verifiers [] = pure []
  new_verifiers (k ∷ keys) = do
    v ← lift (parse_key k)
    verifiers ← new_verifiers keys
    pure (v ∷ verifiers)

  unfoldable pub some_keys : List Bytes → Action (List lib.Verifier)
  some_keys [] = raise unknown_log
  some_keys (k ∷ keys) = new_verifiers (k ∷ keys)

  unfoldable pub get_keys : Bytes → Action (List lib.Verifier)
  get_keys origin = do keys ← exec (λ db. (find_keys origin db.keys, db)); some_keys keys

  unfoldable pub check_head : ℕ → ℕ → Bytes → List Bytes → Head → Action (Unit {0})
  check_head old_size new_size new_hash proof known =
      if not (known.size == old_size)
      then raise (conflict known.size)
      else if old_size == 0
      then pure tt
      else if lib.check_tree proof new_size new_hash old_size known.hash
      then pure tt
      else raise bad_proof

  unfoldable pub check_consistency : Bytes → ℕ → ℕ → Bytes → List Bytes → Action (Unit {0})
  check_consistency origin old_size new_size new_hash proof =
      if ltb new_size old_size
      then raise bad_request
      else do known ← get_log origin; check_head old_size new_size new_hash proof known

  -- `Changes` after the UPDATE, and the conflict where it is not 1.
  unfoldable pub check_changes : Bytes → Action (Unit {0})
  check_changes origin w =
      (if w.db.changes == 1
          then pure tt
          else do known ← get_log origin; raise (conflict known.size))
        w

  unfoldable pub persist_tree_head : Bytes → ℕ → ℕ → Bytes → Action (Unit {0})
  persist_tree_head origin old_size new_size new_hash = do
    exec (λ db. (tt, update_log origin old_size new_size (lib.hash_text new_hash) db))
    check_changes origin

  -- `note.Open`, and the errors that the switch maps.
  unfoldable pub opened_text : Opened → Action Bytes
  opened_text (opened text) = pure text
  opened_text unverified = raise invalid_signature
  opened_text invalid = raise invalid_signature
  opened_text (malformed message) = raise (internal message)

  unfoldable pub cosign : Signer → Bytes → Action Bytes
  cosign s text = do
    signed ← lift (lib.sign_note text s)
    some_or (internal (codes "invalid note")) (split_signatures signed)

  -- From the parsed checkpoint on.
  unfoldable pub process_checkpoint : Signer → Request → Bytes → Checkpoint → Action Bytes
  process_checkpoint s r text c = do
    check_consistency c.origin r.old_size c.size c.hash r.proof
    persist_tree_head c.origin r.old_size c.size c.hash
    cosign s text

  -- From the opened text on.
  unfoldable pub process_text : Signer → Request → Bytes → Action Bytes
  process_text s r text = do
    c ← some_or (internal (codes "malformed checkpoint")) (parse_checkpoint text)
    process_checkpoint s r text c

  unfoldable pub process_request : Signer → Request → Action Bytes
  process_request s r = do
    verifiers ← get_keys (cut newline r.note).before
    text ← opened_text (lib.open_note r.note verifiers)
    process_text s r text

  unfoldable pub process_add_checkpoint : Signer → Bytes → Action Bytes
  process_add_checkpoint s body = do
    r ← some_or bad_request (parse_request lib.parse_hash body)
    process_request s r
