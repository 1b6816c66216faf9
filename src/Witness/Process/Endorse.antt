-- ===== src/Witness/Process/Endorse.antt =====
-- What a cosignature of internal/witness/witness.go endorses.
use litetlog.Prelude.{
  ◌≤◌, ◌≡◌, ◌≢◌, ◌⊎◌, sym, ap, subst, ◌∙◌, true, some, List, ◌++◌, arith, ◌==◌, Bytes,
  bytes_eq_refl, bytes_eq_ne,
}
use litetlog.Std.Strings.{cut, before-append}
use litetlog.Tlogx.Checkpoint.{newline, Checkpoint, parse_checkpoint}
use litetlog.Tlogx.Checkpoint.Parse.{first_line-origin}
use litetlog.Witness.Library.{ok, bad_request, opened, Library, Signer}
use litetlog.Witness.Db.{LogRow, Db, World, find_log, find_keys, some_or}
use litetlog.Witness.Request.{Request, parse_request}
use litetlog.Witness.Process.{read_hash, process_request, process_add_checkpoint}
use litetlog.Witness.Process.Bind.{>>=-eq-ok, some_or-world, some_or-ok}
use litetlog.Witness.Process.Check.{IsConsistent}
use litetlog.Witness.Process.Persist.{find_log-update}
use litetlog.Witness.Process.Cosign.{KeysOf, Cosigned, Witnessed, process_request-ok}

-- `note.Open` returns a prefix of the message: the text in front of the signatures.
abbrev pub OpensPrefix : Library → Type 0
OpensPrefix lib =
    (message : Bytes) (verifiers : List lib.Verifier) (text : Bytes)
    → lib.open_note message verifiers ≡ opened text
    → (rest : Bytes) × (message ≡ text ++ rest)

module _ (lib : Library) where
  -- The checkpoint `c` of the request `r` is signed by keys of its own log, follows that log's row
  -- in `db`, has become that row in `db'`, where no other row has changed, and is cosigned by `s`.
  pub record Endorsed (s : Signer) (r : Request) (db db' : Db) (sigs : Bytes) : Type 0 where
    pub text : Bytes
    pub checkpoint : Checkpoint
    pub verifiers : List lib.Verifier
    pub row : LogRow
    pub keys : KeysOf lib (find_keys checkpoint.origin db.keys) verifiers
    pub opens : lib.open_note r.note verifiers ≡ opened text
    pub parses : parse_checkpoint text ≡ some checkpoint
    pub known : find_log checkpoint.origin db.logs ≡ some row
    pub at_old : row.tree_size ≡ r.old_size
    pub grows : r.old_size ≤ checkpoint.size
    pub consistent :
        (r.old_size ≡ 0)
        ⊎ (lib.check_tree r.proof checkpoint.size checkpoint.hash r.old_size
              (read_hash lib row.tree_hash)
            ≡ true)
    pub updated :
        find_log checkpoint.origin db'.logs
        ≡ some
            (record row { tree_size = checkpoint.size; tree_hash = lib.hash_text checkpoint.hash })
    pub others : (j : Bytes) → j ≢ checkpoint.origin → find_log j db'.logs ≡ find_log j db.logs
    pub cosigned : Cosigned lib s text sigs

  module _ (prefix : OpensPrefix lib) where
    Witnessed-Endorsed :
        (s : Signer) (r : Request) (db db' : Db) {sigs : Bytes}
        → Witnessed lib s r db db' sigs
        → Endorsed s r db db' sigs
    Witnessed-Endorsed s r db db' h =
        let c = h.checked.checkpoint in
        let a = h.checked.accepted in
        let (row, here, e) = a.row in
        let (rest, whole) = prefix r.note h.verifiers h.text h.opens in
        let (found, first) = first_line-origin h.text h.checked.parses in
        let own =
          ap (λ t. (cut newline t).before) whole
          ∙ before-append newline h.text rest found
          ∙ first in
        let (at_old, consistent) =
          subst (IsConsistent lib r.old_size c.size c.hash r.proof) e a.consistent in
        let test : (row.tree_size == r.old_size) ≡ true = ground arith in
        record {
          text = h.text;
          checkpoint = c;
          verifiers = h.verifiers;
          row = row;
          keys = subst (λ o. KeysOf lib (find_keys o db.keys) h.verifiers) own h.keys;
          opens = h.opens;
          parses = h.checked.parses;
          known = here;
          at_old = at_old;
          grows = a.grows;
          consistent = consistent;
          updated = rw (a.updated, find_log-update, bytes_eq_refl c.origin, here, test);
          others = λ j ne. rw (a.updated, find_log-update, bytes_eq_ne j c.origin ne);
          cosigned = h.checked.cosigned;
        }

    -- Where note.Open returns a prefix of the note, a cosignature that processAddCheckpointRequest
    -- returns endorses the checkpoint in its request: the text opened under keys of the log that
    -- the checkpoint names, that log's row had the old size of the request, the new size is not
    -- smaller, CheckTree found the old tree in the new one unless the old tree was empty, the row
    -- has become the checkpoint, no other row has changed, and the cosignature is the signature
    -- lines of the text signed by the witness.
    pub process_add_checkpoint-Endorsed :
        (s : Signer) (body : Bytes) (w : World) {sigs : Bytes}
        → (process_add_checkpoint lib s body w).0 ≡ ok sigs
        → (r : Request) × (parse_request lib.parse_hash body ≡ some r)
          × Endorsed s r w.db (process_add_checkpoint lib s body w).1.db sigs
    unfolding process_add_checkpoint
    process_add_checkpoint-Endorsed s body w {sigs} h =
        let o = parse_request lib.parse_hash body in
        let b = >>=-eq-ok (some_or bad_request o) (process_request lib s) w h in
        let r = b.value in
        let start = some_or-world bad_request o w in
        let second : (process_request lib s r w).0 ≡ ok sigs =
          subst (λ v. (process_request lib s r v).0 ≡ ok sigs) start b.second in
        let ends = b.world ∙ ap (λ v. (process_request lib s r v).1) start in
        (
          r,
          some_or-ok bad_request o w b.first,
          subst (λ (v : World). Endorsed s r w.db v.db sigs) (sym ends)
              (Witnessed-Endorsed s r w.db _ (process_request-ok lib s r w second)),
        )
