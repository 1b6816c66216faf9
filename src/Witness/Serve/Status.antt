-- ===== src/Witness/Serve/Status.antt =====
-- What the status of an answer of `serveAddCheckpoint` of internal/witness/witness.go tells.
use litetlog.Prelude.{◌⊎◌, inl, inr, ◌≡◌, refl, some, Bytes, arith}
use litetlog.Witness.Library.{
  unknown_log, invalid_signature, bad_request, bad_proof, conflict, internal, Result, ok, err,
  Library, Signer,
}
use litetlog.Witness.Db.{World}
use litetlog.Witness.Request.{Request, parse_request}
use litetlog.Witness.Process.{process_add_checkpoint}
use litetlog.Witness.Process.Endorse.{OpensPrefix, Endorsed, process_add_checkpoint-Endorsed}
use litetlog.Witness.Serve.{Response, respond, serve_add_checkpoint}

respond-ok : (r : Result Bytes) → (respond r).status ≡ 200 → r ≡ ok (respond r).body
unfolding respond
respond-ok (ok sigs) h = refl
respond-ok (err unknown_log) h = absurd (omega arith)
respond-ok (err invalid_signature) h = absurd (omega arith)
respond-ok (err bad_request) h = absurd (omega arith)
respond-ok (err bad_proof) h = absurd (omega arith)
respond-ok (err (conflict known)) h = absurd (omega arith)
respond-ok (err (internal message)) h = absurd (omega arith)

module _ (lib : Library) (prefix : OpensPrefix lib) where
  -- The request behind an answer, and what its body endorses.
  abbrev pub Serves : Signer → Bytes ⊎ Bytes → World → Response × World → Type 0
  Serves s input w answer =
      (body : Bytes) × (input ≡ inr body)
      × ((r : Request) × (parse_request lib.parse_hash body ≡ some r)
          × Endorsed lib s r w.db answer.1.db answer.0.body)

  -- Where note.Open returns a prefix of the note, an answer of status 200 has a body that was
  -- read, and what is answered is a cosignature that endorses the checkpoint of that request.
  pub serve_add_checkpoint-Serves :
      (s : Signer) (input : Bytes ⊎ Bytes) (w : World)
      → (serve_add_checkpoint lib s input w).0.status ≡ 200
      → Serves s input w (serve_add_checkpoint lib s input w)
  unfolding serve_add_checkpoint
  serve_add_checkpoint-Serves s (inl message) w h = absurd (omega arith)
  serve_add_checkpoint-Serves s (inr body) w h = (
    body,
    refl,
    process_add_checkpoint-Endorsed lib prefix s body w
        (respond-ok (process_add_checkpoint lib s body w).0 h),
  )
