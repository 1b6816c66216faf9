-- ===== src/Witness/Process/Complete.antt =====
-- Which requests `processAddCheckpointRequest` of internal/witness/witness.go accepts.
use litetlog.Prelude.{◌≤◌, ◌≡◌, ◌⊎◌, true, some, List, Bytes}
use litetlog.Std.Strings.{cut}
use litetlog.Tlogx.Checkpoint.{newline, Checkpoint, parse_checkpoint}
use litetlog.Witness.Library.{ok, opened, Library, Signer}
use litetlog.Witness.Db.{LogRow, Db, quiet, find_log, find_keys}
use litetlog.Witness.Db.Laws.{IsUnique}
use litetlog.Witness.Request.{Request, parse_request}
use litetlog.Witness.Process.{
  read_hash, opened_text, process_checkpoint, process_text, process_request, process_add_checkpoint,
}
use litetlog.Witness.Process.Check.{IsConsistent}
use litetlog.Witness.Process.Persist.{update}
use litetlog.Witness.Process.Cosign.{KeysOf, Cosigned}
use litetlog.Witness.Process.Quiet.{
  get_keys-quiet, check_consistency-quiet, check_head_passes, persist_tree_head-quiet, cosign_runs,
}

module _ (lib : Library) where
  -- A request that the keys of its log have signed, whose old size is that of the log's row, whose
  -- proof `CheckTree` takes, and whose text the witness can sign.
  pub record Acceptable (s : Signer) (body : Bytes) (db : Db) (sigs : Bytes) : Type 0 where
    pub request : Request
    pub reads : parse_request lib.parse_hash body ≡ some request
    pub verifiers : List lib.Verifier
    pub keys : KeysOf lib (find_keys (cut newline request.note).before db.keys) verifiers
    pub text : Bytes
    pub opens : lib.open_note request.note verifiers ≡ opened text
    pub checkpoint : Checkpoint
    pub parses : parse_checkpoint text ≡ some checkpoint
    pub row : LogRow
    pub known : find_log checkpoint.origin db.logs ≡ some row
    pub at_old : row.tree_size ≡ request.old_size
    pub grows : request.old_size ≤ checkpoint.size
    pub consistent :
        (request.old_size ≡ 0)
        ⊎ (lib.check_tree request.proof checkpoint.size checkpoint.hash request.old_size
              (read_hash lib row.tree_hash)
            ≡ true)
    pub cosigned : Cosigned lib s text sigs

  process_checkpoint-quiet :
      (s : Signer) (r : Request) (text : Bytes) (c : Checkpoint) (db : Db) (row : LogRow)
      {sigs : Bytes}
      → IsUnique db.logs
      → find_log c.origin db.logs ≡ some row
      → r.old_size ≤ c.size
      → IsConsistent lib r.old_size c.size c.hash r.proof
          (record { size = row.tree_size; hash = read_hash lib row.tree_hash })
      → Cosigned lib s text sigs
      → process_checkpoint lib s r text c (quiet db)
        ≡ (ok sigs, quiet (update lib c.origin r.old_size c.size c.hash db))
  unfolding process_checkpoint
  process_checkpoint-quiet s r text c db row u known grows consistent signed =
      let at_old = consistent.0 in
      rw (
        check_consistency-quiet lib c.origin r.old_size c.size c.hash r.proof db row known at_old
            grows,
        check_head_passes lib r.old_size c.size c.hash r.proof _ (quiet db) consistent,
        persist_tree_head-quiet lib c.origin r.old_size c.size c.hash db row u known at_old,
        cosign_runs lib s text _ signed,
      )

  -- On tables whose statements do not fail and where no two logs have one origin, a request that
  -- the keys of its log have signed, whose old size is that of the log's row and not above the new
  -- size, whose proof CheckTree takes unless the old size is 0, and whose text the witness can
  -- sign gets the signature lines, and the UPDATE to the checkpoint is all that happens to the
  -- tables.
  pub process_add_checkpoint-Acceptable :
      (s : Signer) (body : Bytes) (db : Db) (sigs : Bytes)
      → IsUnique db.logs
      → (a : Acceptable s body db sigs)
      → process_add_checkpoint lib s body (quiet db) ≡ (
        ok sigs,
        quiet (
            update lib a.checkpoint.origin a.request.old_size a.checkpoint.size a.checkpoint.hash
              db),
      )
  unfolding process_add_checkpoint process_request process_text opened_text
  process_add_checkpoint-Acceptable s body db sigs u a =
      let r = a.request in
      rw (
        a.reads,
        get_keys-quiet lib (cut newline r.note).before db a.verifiers a.keys,
        a.opens,
        a.parses,
        process_checkpoint-quiet s r a.text a.checkpoint db a.row u a.known a.grows
            (a.at_old, a.consistent) a.cosigned,
      )
