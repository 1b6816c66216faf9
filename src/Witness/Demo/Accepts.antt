-- ===== src/Witness/Demo/Accepts.antt =====
-- The requests of the demonstration, run by internal/witness/witness.go.
use litetlog.Witness.Db.{exec, exec_on}
use litetlog.Witness.Process.{
  get_keys, process_text, process_checkpoint, opened_text, check_head, some_keys, new_verifiers,
  parse_key, get_log, row_head, read_hash, process_request,
}
use litetlog.Std.Base64.{encode}
use litetlog.Witness.Serve.Conflicts.{TellsSize, serve_add_checkpoint-TellsSize}
use litetlog.Prelude.{◌≡◌, refl, ap, ◌∙◌, inr, true, some, [], ◌∷◌, ◌++◌, codes, arith, bytes_eq}
use litetlog.Std.Strings.{cut, cut_at, split, split_n, count, ends_with, cut_prefix, after_last}
use litetlog.Std.Strconv.{parse_int, format_int, scan}
use litetlog.Std.Base64.{decode}
use litetlog.Tlogx.Checkpoint.{newline, parse_hash, parse_checkpoint}
use litetlog.Witness.Library.{ok}
use litetlog.Witness.Db.{quiet, find_log, find_keys}
use litetlog.Witness.Request.{Request, parse_request, parse_old_size, parse_proof, parse_lines}
use litetlog.Witness.Process.{
  split_signatures, zero_hash, check_consistency, process_add_checkpoint,
}
use litetlog.Witness.Process.Persist.{update}
use litetlog.Witness.Process.Accept.{Moved, process_add_checkpoint-Moved}
use litetlog.Witness.Process.Rollback.{process_all, Follows, process_all-Follows}
use litetlog.Witness.Process.Endorse.{Endorsed, process_add_checkpoint-Endorsed}
use litetlog.Witness.Process.Quiet.{check_consistency_corrupt}
use litetlog.Witness.Process.Complete.{Acceptable, process_add_checkpoint-Acceptable}
use litetlog.Witness.Serve.{serve_add_checkpoint, respond}
use litetlog.Witness.Serve.Status.{Serves, serve_add_checkpoint-Serves}
use litetlog.Witness.Signatures.{LacksBlank, split_signatures-append}
use litetlog.Witness.Demo.{
  moved_db, demo, demo_signer, demo_signature, demo_origin, demo_row, demo_db, demo_checkpoint,
  demo_text, demo_body, demo_request, corrupt_row, corrupt_db,
}
use litetlog.Witness.Demo.Laws.{demo-OpensPrefix, demo-IsUnique}

demo_request_reads : parse_request demo.parse_hash demo_body ≡ some demo_request
unfolding parse_request parse_lines parse_proof parse_old_size cut_at cut_prefix split parse_int
    scan decode parse_hash
demo_request_reads = refl

demo_text_parses : parse_checkpoint demo_text ≡ some demo_checkpoint
unfolding parse_checkpoint parse_int format_int scan decode count ends_with split_n cut bytes_eq
demo_text_parses = refl

acceptable : Acceptable demo demo_signer demo_body demo_db demo_signature
unfolding find_log find_keys bytes_eq cut cut_at split_signatures after_last cut_prefix ends_with
acceptable = record {
  request = demo_request;
  reads = demo_request_reads;
  verifiers = codes "key" ∷ [];
  keys = (λ e. cc e, (refl, tt));
  text = demo_text;
  opens = refl;
  checkpoint = demo_checkpoint;
  parses = demo_text_parses;
  row = demo_row;
  known = refl;
  at_old = refl;
  grows = omega arith;
  consistent = inr refl;
  cosigned = record { signed = demo_text ++ newline ∷ demo_signature; signs = refl; splits = refl };
}

demo_accepts :
    (process_add_checkpoint demo demo_signer demo_body (quiet demo_db)).0 ≡ ok demo_signature
demo_accepts =
    ap (λ p. p.0)
      (process_add_checkpoint-Acceptable demo demo_signer demo_body demo_db demo_signature
        demo-IsUnique acceptable)

respond_status : (respond (ok demo_signature)).status ≡ 200
unfolding respond
respond_status = refl

demo_answers :
    (serve_add_checkpoint demo demo_signer (inr demo_body) (quiet demo_db)).0.status ≡ 200
unfolding serve_add_checkpoint
demo_answers = ap (λ r. (respond r).status) demo_accepts ∙ respond_status

process_add_checkpoint-Moved_example :
    Moved demo demo_db (process_add_checkpoint demo demo_signer demo_body (quiet demo_db)).1.db
process_add_checkpoint-Moved_example =
    process_add_checkpoint-Moved demo demo_signer demo_body (quiet demo_db)

process_all-Follows_example : Follows demo demo_row (
    find_log demo_origin
      (process_all demo
        ((demo_signer, demo_body) ∷ (demo_signer, demo_body) ∷ [])
        (quiet demo_db)).db.logs)
unfolding acceptable
process_all-Follows_example =
    process_all-Follows demo ((demo_signer, demo_body) ∷ (demo_signer, demo_body) ∷ [])
      (quiet demo_db) demo_origin demo_row acceptable.known

process_add_checkpoint-Endorsed_example :
    (r : Request) × (parse_request demo.parse_hash demo_body ≡ some r)
    × Endorsed demo demo_signer r demo_db
        (process_add_checkpoint demo demo_signer demo_body (quiet demo_db)).1.db
        demo_signature
process_add_checkpoint-Endorsed_example =
    process_add_checkpoint-Endorsed demo demo-OpensPrefix demo_signer demo_body (quiet demo_db)
      demo_accepts

process_add_checkpoint-Acceptable_example :
    process_add_checkpoint demo demo_signer demo_body (quiet demo_db)
    ≡ (ok demo_signature, quiet (update demo demo_origin 1 2 zero_hash demo_db))
unfolding acceptable
process_add_checkpoint-Acceptable_example =
    process_add_checkpoint-Acceptable demo demo_signer demo_body demo_db demo_signature
      demo-IsUnique acceptable

serve_add_checkpoint-Serves_example :
    Serves demo demo-OpensPrefix demo_signer
      (inr demo_body)
      (quiet demo_db)
      (serve_add_checkpoint demo demo_signer (inr demo_body) (quiet demo_db))
serve_add_checkpoint-Serves_example =
    serve_add_checkpoint-Serves demo demo-OpensPrefix demo_signer (inr demo_body) (quiet demo_db)
      demo_answers

corrupt_known : find_log demo_origin corrupt_db.logs ≡ some corrupt_row
unfolding find_log bytes_eq
corrupt_known = refl

check_consistency_corrupt_example :
    (check_consistency demo demo_origin 1 1 zero_hash [] (quiet corrupt_db)).0 ≡ ok tt
unfolding bytes_eq parse_hash decode
check_consistency_corrupt_example =
    check_consistency_corrupt demo demo_origin 1 1 zero_hash [] corrupt_db corrupt_row corrupt_known
      refl refl (λ e. cc e) (omega arith)

lacks_blank : LacksBlank (newline ∷ demo_signature)
unfolding cut_prefix
lacks_blank = (refl, (refl, (refl, (refl, (refl, tt)))))

ends : ends_with newline demo_signature ≡ true
unfolding ends_with
ends = refl

split_signatures-append_example :
    split_signatures (codes "log\n2" ++ (newline ∷ newline ∷ demo_signature)) ≡ some demo_signature
split_signatures-append_example =
    split_signatures-append (codes "log\n2") demo_signature lacks_blank ends

-- The request when the log has grown.
repeated : (serve_add_checkpoint demo demo_signer (inr demo_body) (quiet moved_db)).0.status ≡ 409
unfolding serve_add_checkpoint respond process_add_checkpoint process_request get_keys process_text
    process_checkpoint opened_text check_consistency check_head some_keys new_verifiers parse_key
    get_log row_head read_hash parse_request parse_lines parse_proof parse_old_size parse_checkpoint
    exec exec_on find_log find_keys cut split split_n count ends_with cut_prefix parse_int scan
    format_int decode cut_at bytes_eq parse_hash encode
repeated = refl

serve_add_checkpoint-TellsSize_example :
    TellsSize demo demo-OpensPrefix
      (inr demo_body)
      (serve_add_checkpoint demo demo_signer (inr demo_body) (quiet moved_db))
serve_add_checkpoint-TellsSize_example =
    serve_add_checkpoint-TellsSize demo demo-OpensPrefix demo_signer (inr demo_body)
      (quiet moved_db) repeated
