-- ===== src/Witness/Serve.antt =====
-- `serveAddCheckpoint` of internal/witness/witness.go: the HTTP answer.
pub mod Status
pub mod Conflicts
use litetlog.Prelude.{
  ℕ, ◌⊎◌, inl, inr, [], ◌∷◌, ◌++◌, Bytes, codes, Option, none, some, ◌≡◌, ◌↔◌, arith, ◌==◌,
}
use litetlog.Std.Strconv.{format_int}
use litetlog.Tlogx.Checkpoint.{newline}
use litetlog.Witness.Library.{
  Error, unknown_log, invalid_signature, bad_request, bad_proof, conflict, internal, Result, ok,
  err, Library, Signer,
}
use litetlog.Witness.Db.{World}
use litetlog.Witness.Process.{process_add_checkpoint}

-- What is written to the `http.ResponseWriter`, with its Content-Type and X-Content-Type-Options; with
-- no type set, net/http sniffs it.
pub record Response : Type 0 where
  pub status : ℕ
  pub content_type : Option Bytes
  pub content_type_options : Option Bytes
  pub body : Bytes

-- `err.Error()`.
unfoldable pub error_text : Error → Bytes
error_text unknown_log = codes "unknown log"
error_text invalid_signature = codes "invalid signature"
error_text bad_request = codes "invalid input"
error_text bad_proof = codes "bad consistency proof"
error_text (conflict _) = codes "known tree size doesn't match provided old size"
error_text (internal message) = message

-- `http.Error`.
http_error : ℕ → Bytes → Response
http_error status message = record {
  status = status;
  content_type = some (codes "text/plain; charset=utf-8");
  content_type_options = some (codes "nosniff");
  body = message ++ newline ∷ [];
}

unfoldable pub respond : Result Bytes → Response
unfolding http_error error_text
respond (ok cosig) = record {
  status = 200;
  content_type = none;
  content_type_options = none;
  body = cosig;
}
respond (err (conflict known)) = record {
  status = 409;
  content_type = some (codes "text/x.tlog.size");
  content_type_options = none;
  body = format_int known ++ newline ∷ [];
}
respond (err unknown_log) = http_error 403 (error_text unknown_log)
respond (err invalid_signature) = http_error 403 (error_text invalid_signature)
respond (err bad_request) = http_error 400 (error_text bad_request)
respond (err bad_proof) = http_error 422 (error_text bad_proof)
respond (err (internal message)) = http_error 500 message

-- The body of the request, or the error of `io.ReadAll`.
unfoldable pub serve_add_checkpoint : Library → Signer → Bytes ⊎ Bytes → World → Response × World
unfolding respond
serve_add_checkpoint lib s (inl message) w = (http_error 500 message, w)
serve_add_checkpoint lib s (inr body) w =
    (respond (process_add_checkpoint lib s body w).0, (process_add_checkpoint lib s body w).1)
