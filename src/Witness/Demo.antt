-- ===== src/Witness/Demo.antt =====
-- A concrete library, signer and database for internal/witness/witness.go.
mod Laws
mod Accepts
mod Promise
mod Races
use litetlog.Prelude.{
  ℕ, zero, suc, ◌≡◌, refl, ◌⊎◌, inl, inr, Bool, true, false, not, Option, none, some, List, [], ◌∷◌,
  ◌++◌, ◌==◌, if◌then◌else◌, length, is_empty, replicate, Bytes, codes, bytes_eq,
}
use litetlog.Std.Strings.{cut_at}
use litetlog.Std.Base64.{encode}
use litetlog.Tlogx.Checkpoint.{newline, parse_hash, Checkpoint}
use litetlog.Witness.Library.{ok, Opened, opened, malformed, Signer, Library}
use litetlog.Witness.Db.{LogRow, KeyRow, Db}
use litetlog.Witness.Request.{Request}

abbrev pub open_demo : Bytes → List Bytes → Opened
open_demo message verifiers =
    let p = cut_at (newline ∷ newline ∷ []) message in
    if p.found then opened (p.before ++ (newline ∷ [])) else malformed (codes "malformed note")

-- A hash is written in base64, and a proof between two sizes is not empty.
abbrev pub demo : Library
demo = record {
  Verifier = Bytes;
  new_verifier = λ k. inr k;
  open_note = open_demo;
  sign_note = λ text s. elim (s.sign text) [
    | inl message ↦ inl message
    | inr sig ↦ inr (text ++ newline ∷ sig)
  ];
  parse_hash = parse_hash;
  hash_text = encode;
  check_tree = λ proof n h m h'. if n == m then bytes_eq h h' else not (is_empty proof);
}

abbrev pub demo_signature : Bytes
demo_signature = codes "sig\n"

abbrev pub demo_signer : Signer
demo_signer = record { name = codes "w"; key_hash = 1; sign = λ text. inr demo_signature }

abbrev pub demo_origin : Bytes
demo_origin = codes "log"

abbrev pub old_hash : Bytes
old_hash = replicate 32 7

abbrev pub demo_row : LogRow
demo_row = record { origin = demo_origin; tree_size = 1; tree_hash = encode old_hash }

abbrev pub demo_db : Db
demo_db = record {
  logs =
      demo_row ∷ record { origin = codes "other"; tree_size = 5; tree_hash = encode old_hash } ∷ [];
  keys = record { origin = demo_origin; key = codes "key" } ∷ [];
  changes = 0;
}

abbrev pub demo_checkpoint : Checkpoint
demo_checkpoint = record { origin = demo_origin; size = 2; hash = replicate 32 0; extension = [] }

abbrev pub demo_text : Bytes
demo_text = codes "log\n2\nAAAAAAAAAAAAAAAAAAAAAAAAAAAAAAAAAAAAAAAAAAA=\n"

abbrev pub demo_note : Bytes
demo_note = demo_text ++ codes "\nlog signature\n"

abbrev pub demo_body : Bytes
demo_body = codes "old 1\nAAAAAAAAAAAAAAAAAAAAAAAAAAAAAAAAAAAAAAAAAAA=\n\n" ++ demo_note

abbrev pub demo_proof : Bytes
demo_proof = replicate 32 0

abbrev pub demo_request : Request
demo_request = record { old_size = 1; proof = demo_proof ∷ []; note = demo_note }

-- The same, with a hash in its row that is not the text of one.
abbrev pub corrupt_row : LogRow
corrupt_row = record demo_row { tree_hash = codes "?" }

abbrev pub corrupt_db : Db
corrupt_db = record demo_db { logs = corrupt_row ∷ [] }

-- The log has grown since.
abbrev pub moved_db : Db
moved_db = record demo_db { logs = record demo_row { tree_size = 3 } ∷ [] }
