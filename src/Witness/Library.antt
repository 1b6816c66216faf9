-- ===== src/Witness/Library.antt =====
-- What internal/witness/witness.go takes from golang.org/x/mod/sumdb, and the witness's errors.
use litetlog.Prelude.{ℕ, ◌≡◌, ◌⊎◌, Bool, Option, List, Bytes, All, length}
use litetlog.Std.Base64.{IsByte}
use litetlog.Tlogx.Checkpoint.{hash_size}

-- A `tlog.Hash`: 32 bytes.
abbrev pub IsHash : Bytes → Type 0
IsHash h = All IsByte h × (length h ≡ hash_size)

-- `errUnknownLog`, `errInvalidSignature`, `errBadRequest`, `errProof` and `*conflictError`;
-- `internal` is any other error, with its text.
pub data Error : Type 0 where
  unknown_log invalid_signature bad_request bad_proof : Error
  conflict : ℕ → Error
  internal : Bytes → Error

pub data Result {ℓ} (A : Type ℓ) : Type ℓ where
  ok : A → Result A
  err : Error → Result A

-- What `note.Open` returns: the text, or one of its errors.
pub data Opened : Type 0 where
  opened : Bytes → Opened
  unverified invalid : Opened
  malformed : Bytes → Opened

-- A `note.Signer`.
pub record Signer : Type 0 where
  pub name : Bytes
  pub key_hash : ℕ
  pub sign : Bytes → Bytes ⊎ Bytes

-- A result in `⊎` is an error's text on the left.
pub record Library : Type 1 where
  -- `note.Verifier`, `note.NewVerifier`, `note.Open` with `note.VerifierList`, and `note.Sign`.
  pub Verifier : Type 0
  pub new_verifier : Bytes → Bytes ⊎ Verifier
  pub open_note : Bytes → List Verifier → Opened
  pub sign_note : Bytes → Signer → Bytes ⊎ Bytes
  -- `tlog.ParseHash`, the text of a `tlog.Hash`, and whether `tlog.CheckTree` returns nil.
  pub parse_hash : Bytes → Option Bytes
  pub hash_text : Bytes → Bytes
  pub check_tree : List Bytes → ℕ → Bytes → ℕ → Bytes → Bool
