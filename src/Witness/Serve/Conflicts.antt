-- ===== src/Witness/Serve/Conflicts.antt =====
-- The answers of status 409 of `serveAddCheckpoint` of internal/witness/witness.go.
use litetlog.Prelude.{ℕ, ◌⊎◌, inl, inr, ◌≡◌, refl, [], ◌∷◌, ◌++◌, Bytes, arith, some}
use litetlog.Std.Strconv.{format_int}
use litetlog.Tlogx.Checkpoint.{newline}
use litetlog.Witness.Library.{
  unknown_log, invalid_signature, bad_request, bad_proof, conflict, internal, Result, ok, err,
  Library, Signer,
}
use litetlog.Std.Strings.{cut}
use litetlog.Witness.Db.{World}
use litetlog.Witness.Request.{Request, parse_request}
use litetlog.Witness.Process.Endorse.{OpensPrefix}
use litetlog.Witness.Process.{process_add_checkpoint}
use litetlog.Witness.Process.Conflict.{Stored}
use litetlog.Witness.Process.Conflict.Whole.{process_add_checkpoint-Tells}
use litetlog.Witness.Serve.{Response, respond, serve_add_checkpoint}

respond-conflict :
    (r : Result Bytes)
    → (respond r).status ≡ 409
    → (n : ℕ) × (r ≡ err (conflict n)) × ((respond r).body ≡ format_int n ++ (newline ∷ []))
unfolding respond
respond-conflict (ok sigs) h = absurd (omega arith)
respond-conflict (err unknown_log) h = absurd (omega arith)
respond-conflict (err invalid_signature) h = absurd (omega arith)
respond-conflict (err bad_request) h = absurd (omega arith)
respond-conflict (err bad_proof) h = absurd (omega arith)
respond-conflict (err (conflict known)) h = (known, refl, refl)
respond-conflict (err (internal message)) h = absurd (omega arith)

module _ (lib : Library) (prefix : OpensPrefix lib) where
  -- The body of the answer tells the size of the log of the request, which is that of its row.
  abbrev pub TellsSize : Bytes ⊎ Bytes → Response × World → Type 0
  TellsSize input answer =
      (body : Bytes) × (r : Request) × (n : ℕ) × (input ≡ inr body)
      × (parse_request lib.parse_hash body ≡ some r)
      × (answer.0.body ≡ format_int n ++ (newline ∷ []))
      × Stored (cut newline r.note).before n answer.1.db

  -- Where note.Open returns a prefix of the note, an answer of status 409 has a body that was read
  -- as a request, and its text is the size, in decimal with a newline behind it, of the row that
  -- the log of the request has in the database afterwards.
  pub serve_add_checkpoint-TellsSize :
      (s : Signer) (input : Bytes ⊎ Bytes) (w : World)
      → (serve_add_checkpoint lib s input w).0.status ≡ 409
      → TellsSize input (serve_add_checkpoint lib s input w)
  unfolding serve_add_checkpoint
  serve_add_checkpoint-TellsSize s (inl message) w h = absurd (omega arith)
  serve_add_checkpoint-TellsSize s (inr body) w h =
      let (n, e, text) = respond-conflict (process_add_checkpoint lib s body w).0 h in
      let (r, reads, stored) = process_add_checkpoint-Tells lib prefix s body w n e in
      (body, r, n, refl, reads, text, stored)
