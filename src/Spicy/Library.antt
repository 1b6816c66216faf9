-- ===== src/Spicy/Library.antt =====
-- What cmd/spicy/spicy.go takes from golang.org/x/mod/sumdb, and the map of hashes it reads.
pub mod Laws
use litetlog.Prelude.{
  ℕ, zero, suc, Bool, true, false, ◌&&◌, Option, none, some, ◌⊎◌, List, [], ◌∷◌, ◌==◌,
  if◌then◌else◌, ◌>>=◌, Bytes, ℤ, pos, pos_part, neg_part, add_sub64,
}
use litetlog.Tlogx.Cosignature.{Crypto, NoteVerifier}
use litetlog.Witness.Library.{Signer}

-- A `tlog.HashReader`: the hashes at indexes.
abbrev pub Reader : Type 0
Reader = List ℤ → Option (List Bytes)

-- The texts of errors are left out: the program prints them and ends.
pub record Library : Type 0 where
  pub crypto : Crypto
  -- `note.NewVerifier`, `note.Open` with one verifier, `note.Sign`, `note.NewSigner`, and
  -- `note.GenerateKey`: the keys of a signer and of its verifier.
  pub new_verifier : Bytes → Option NoteVerifier
  pub open_note : Bytes → NoteVerifier → Option Bytes
  pub sign_note : Bytes → Signer → Option Bytes
  pub new_signer : Bytes → Option Signer
  pub generate_key : Bytes → Option (Bytes × Bytes)
  -- `tlog.ParseHash`, the text of a `tlog.Hash`, `tlog.RecordHash`.
  pub parse_hash : Bytes → Option Bytes
  pub hash_text : Bytes → Bytes
  pub record_hash : Bytes → Bytes
  -- `tlog.StoredHashIndex`, `tlog.StoredHashes`, `tlog.TreeHash`, `tlog.ProveRecord`, and whether
  -- `tlog.CheckRecord` returns nil.
  pub stored_hash_index : ℕ → ℤ → ℤ
  pub stored_hashes : ℕ → Bytes → Reader → Option (List Bytes)
  pub tree_hash : ℕ → Reader → Option Bytes
  pub prove_record : ℕ → ℕ → Reader → Option (List Bytes)
  pub check_record : List Bytes → ℕ → Bytes → ℤ → Bytes → Bool

-- `map[int64]tlog.Hash`
abbrev pub Hashes : Type 0
Hashes = ℤ → Option Bytes

abbrev pub eq_ℤ : ℤ → ℤ → Bool
eq_ℤ a b = pos_part a == pos_part b && neg_part a == neg_part b

abbrev pub no_hashes : Hashes
no_hashes id = none

abbrev pub put_hash : ℤ → Bytes → Hashes → Hashes
put_hash id h hashes j = if eq_ℤ j id then some h else hashes j

-- `hashReader`
unfoldable pub read_hashes : Hashes → Reader
read_hashes hashes [] = some []
read_hashes hashes (id ∷ ids) = do h ← hashes id; list ← read_hashes hashes ids; some (h ∷ list)

-- The hashes of a record go to `base` and behind it, from the offset `k` on.
unfoldable pub put_hashes : ℤ → ℕ → List Bytes → Hashes → Hashes
put_hashes base k [] hashes = hashes
put_hashes base k (h ∷ hh) hashes =
    put_hashes base (suc k) hh (put_hash (add_sub64 base (pos k) (pos 0)) h hashes)
