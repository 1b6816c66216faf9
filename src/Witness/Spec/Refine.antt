-- ===== src/Witness/Spec/Refine.antt =====
-- `processAddCheckpointRequest` of internal/witness/witness.go keeps the promise.
use litetlog.Prelude.{
  ℕ, ◌≤◌, ◌≡◌, refl, sym, ap, subst, fun_ext, ◌∙◌, ◌⊎◌, inl, inr, true, Option, none, some, List,
  [], ◌∷◌, ◌==◌, Bytes, bytes_eq, bytes_eq_iff, Bool-cases, arith,
}
use litetlog.Tlogx.Checkpoint.{Checkpoint, parse_checkpoint}
use litetlog.Tlogx.Checkpoint.Parse.{parse-IsCheckpoint}
use litetlog.Witness.Library.{IsHash, opened, Result, ok, err, Error, Library, Signer}
use litetlog.Witness.Db.{LogRow, Db, World, find_log}
use litetlog.Witness.Request.{Request, parse_request}
use litetlog.Witness.Process.{Head, read_hash, process_add_checkpoint}
use litetlog.Witness.Process.Check.{IsConsistent}
use litetlog.Witness.Process.Persist.{update, find_log-update}
use litetlog.Witness.Process.Accept.{Move, Moved, process_add_checkpoint-Moved}
use litetlog.Witness.Process.Cosign.{Cosigned}
use litetlog.Witness.Process.Endorse.{OpensPrefix, Endorsed, process_add_checkpoint-Endorsed}
use litetlog.Witness.Race.Fresh.{TreeLaws, read_hash-hash_text}
use litetlog.Witness.Spec.{View, put, Grows, Step, refuse, move, cosign}

module _ (lib : Library) where
  abbrev pub row_view : Option LogRow → Option Head
  row_view none = none
  row_view (some r) = some (record { size = r.tree_size; hash = read_hash lib r.tree_hash })

  -- The heads in the database.
  abbrev pub view : Db → View
  view db o = row_view (find_log o db.logs)

  Result-cases : (a : Result Bytes) → ((sigs : Bytes) × (a ≡ ok sigs)) ⊎ ((e : Error) × (a ≡ err e))
  Result-cases (ok sigs) = inl (sigs, refl)
  Result-cases (err e) = inr (e, refl)

  -- What the answer to a request cosigns: nothing, or the head that is in the request's note.
  pub data Answers (s : Signer) (body : Bytes) : Result Bytes → List (Bytes × Head) → Type 0 where
    refused : {e : Error} → Answers s body (err e) []
    cosigned :
        {sigs : Bytes} (r : Request) (verifiers : List lib.Verifier) (text : Bytes) (c : Checkpoint)
        → parse_request lib.parse_hash body ≡ some r
        → lib.open_note r.note verifiers ≡ opened text
        → parse_checkpoint text ≡ some c
        → Cosigned lib s text sigs
        → Answers s body (ok sigs) ((c.origin, record { size = c.size; hash = c.hash }) ∷ [])

  Grows-from :
      (o : ℕ) (old new : Head) (proof : List Bytes)
      → old.size ≡ o
      → o ≤ new.size
      → (o ≡ 0) ⊎ (lib.check_tree proof new.size new.hash o old.hash ≡ true)
      → Grows lib old new
  Grows-from o old new proof at le (inl z) = (omega arith, inl (at ∙ z))
  Grows-from o old new proof at le (inr h) = (
    omega arith,
    inr (proof, subst (λ n. lib.check_tree proof new.size new.hash n old.hash ≡ true) (sym at) h),
  )

  module _ (laws : TreeLaws lib) where
    update-view :
        (o : Bytes) (old new : ℕ) (hash : Bytes) (db : Db) (r : LogRow)
        → find_log o db.logs ≡ some r
        → r.tree_size ≡ old
        → IsHash hash
        → view (update lib o old new hash db) ≡ put o (record { size = new; hash = hash }) (view db)
    update-view o old new hash db r known at is_hash =
        let test : (r.tree_size == old) ≡ true = ground arith in
        fun_ext λ j. elim (Bool-cases (bytes_eq j o)) [
          | inl own ↦ rw (
            find_log-update lib o old new hash db j,
            own,
            ap (λ x. find_log x db.logs) ((bytes_eq_iff j o).0 own) ∙ known,
            test,
            read_hash-hash_text lib laws hash is_hash,
          )
          | inr other ↦ rw (find_log-update lib o old new hash db j, other)
        ]

    Move-Step : (db db' : Db) → Move lib db db' → Step lib (view db) [] (view db')
    Move-Step db db' m =
        let (r, known, e) = m.row in
        let (at, checked) =
          subst (IsConsistent lib m.old_size m.new_size m.new_hash m.proof) e m.consistent in
        let after =
          ap view m.result
          ∙ update-view m.origin m.old_size m.new_size m.new_hash db r known at m.is_hash in
        subst (Step lib (view db) []) (sym after) (
          move m.origin (record { size = r.tree_size; hash = read_hash lib r.tree_hash })
            (record { size = m.new_size; hash = m.new_hash }) (ap row_view known)
            (Grows-from m.old_size (record { size = r.tree_size; hash = read_hash lib r.tree_hash })
              (record { size = m.new_size; hash = m.new_hash }) m.proof at m.grows checked))

    Moved-Step : (db db' : Db) → Moved lib db db' → Step lib (view db) [] (view db')
    Moved-Step db db' (inl e) = subst (Step lib (view db) []) (sym (ap view e)) refuse
    Moved-Step db db' (inr m) = Move-Step db db' m

    Endorsed-Step :
        (s : Signer) (body : Bytes) (r : Request) (db db' : Db) {sigs : Bytes}
        → parse_request lib.parse_hash body ≡ some r
        → Endorsed lib s r db db' sigs
        → (heads : List (Bytes × Head)) × Answers s body (ok sigs) heads
          × Step lib (view db) heads (view db')
    Endorsed-Step s body r db db' parsed e =
        let c = e.checkpoint in
        let i = parse-IsCheckpoint e.text e.parses in
        let old : Head = record { size = e.row.tree_size; hash = read_hash lib e.row.tree_hash } in
        let new : Head = record { size = c.size; hash = c.hash } in
        let after : view db' ≡ put c.origin new (view db) = fun_ext λ j.
          elim (Bool-cases (bytes_eq j c.origin)) [
            | inl own ↦ rw (
              own,
              (bytes_eq_iff j c.origin).0 own,
              e.updated,
              read_hash-hash_text lib laws c.hash (i.hash_bytes, i.hash_length),
            )
            | inr other ↦
                rw (other, e.others j (λ same. cc ((bytes_eq_iff j c.origin).1 same, other)))
          ] in
        (
          (c.origin, new) ∷ [],
          cosigned r e.verifiers e.text c parsed e.opens e.parses e.cosigned,
          subst (Step lib (view db) ((c.origin, new) ∷ [])) (sym after) (
              cosign c.origin old new (ap row_view e.known)
                (Grows-from r.old_size old new r.proof e.at_old e.grows e.consistent)),
        )

    -- If CheckTree holds of two trees of one size only where their hashes are equal, ParseHash
    -- reads the text of a hash, which is 32 bytes, back, and note.Open returns a prefix of the
    -- note, then every request, whatever its body and whichever statements of the database fail,
    -- is one step of the promise of the witness on the heads that its database holds: nothing
    -- changes and no head is cosigned, or one known head is replaced by one that is checked to
    -- extend it, which is the one in the note of the request where a cosignature is answered.
    pub process_add_checkpoint-Step :
        OpensPrefix lib
        → (s : Signer) (body : Bytes) (w : World)
        → (heads : List (Bytes × Head)) × Answers s body
            (process_add_checkpoint lib s body w).0
            heads
          × Step lib (view w.db) heads (view (process_add_checkpoint lib s body w).1.db)
    process_add_checkpoint-Step prefix s body w =
        elim (Result-cases (process_add_checkpoint lib s body w).0) [
          | inl (sigs, e) ↦
              let (r, parsed, endorsed) = process_add_checkpoint-Endorsed lib prefix s body w e in
              let (heads, answers, step) = Endorsed-Step s body r w.db _ parsed endorsed in
              (heads, subst (λ a. Answers s body a heads) (sym e) answers, step)
          | inr (error, e) ↦ (
            [],
            subst (λ a. Answers s body a []) (sym e) refused,
            Moved-Step w.db _ (process_add_checkpoint-Moved lib s body w),
          )
        ]
