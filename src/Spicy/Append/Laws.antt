-- ===== src/Spicy/Append/Laws.antt =====
-- What cmd/spicy/spicy.go relies on of golang.org/x/mod/sumdb: the hashes of a log are those of its
-- records, and proofs made of them are accepted.
use litetlog.Prelude.{
  ℕ, zero, suc, ◌<◌, ◌^◌, ◌≡◌, ◌≢◌, ◌⊎◌, true, Option, none, some, List, [], ◌∷◌, ◌++◌, inr, length,
  Bytes, ℤ, pos, All,
}
use litetlog.Std.Trim.{IsVisible}
use litetlog.Tlogx.Checkpoint.{newline}
use litetlog.Tlogx.Cosignature.{NoteVerifier}
use litetlog.Tlogx.Edge.Reference.{digits}
use litetlog.Tlogx.Edge.Tiling.{indexes}
use litetlog.Tlogx.Note.Text.{IsKeyText}
use litetlog.Witness.Library.{IsHash, Signer}
use litetlog.Spicy.Library.{Library, Hashes, read_hashes, put_hashes}

abbrev pub nth : List Bytes → ℕ → Option Bytes
nth [] k = none
nth (x ∷ xs) zero = some x
nth (x ∷ xs) (suc k) = nth xs k

-- The hashes are those that `stored` gives for the records.
abbrev pub Holds : (List Bytes → ℤ → Option Bytes) → List Bytes → Hashes → Type 0
Holds stored es hashes = (id : ℤ) (h : Bytes) → hashes id ≡ some h → stored es id ≡ some h

-- Graphic ASCII characters and newlines.
abbrev pub IsNoteText : Bytes → Type 0
IsNoteText = All (λ c. (c ≡ newline) ⊎ IsVisible c)

-- `stored` is the stored hashes of a log with the records, by their indexes.
pub record LogLaws (lib : Library) : Type 0 where
  pub stored : List Bytes → ℤ → Option Bytes
  pub stored_hash : (es : List Bytes) (id : ℤ) (h : Bytes) → stored es id ≡ some h → IsHash h
  -- `StoredHashes` makes the hashes that are new with a record, to be stored from the record's
  -- index on.
  pub appends :
      (es : List Bytes) (f : Bytes) (hashes : Hashes) (hh : List Bytes)
      → length es < 2 ^ 62
      → Holds stored es hashes
      → lib.stored_hashes (length es) f (read_hashes hashes) ≡ some hh
      → Holds stored
          (es ++ (f ∷ []))
          (put_hashes (lib.stored_hash_index 0 (pos (length es))) 0 hh hashes)
  -- `TreeHash` reads the subtrees of the binary digits of the size.
  pub reads_edge :
      (size : ℕ) (hashes : Hashes) (hash : Bytes)
      → size < 2 ^ 62
      → lib.tree_hash size (read_hashes hashes) ≡ some hash
      → (list : List Bytes) × (read_hashes hashes (indexes lib.stored_hash_index (digits 62 size))
          ≡ some list)
  pub tree_hash_size :
      (size : ℕ) (hashes : Hashes) (hash : Bytes)
      → lib.tree_hash size (read_hashes hashes) ≡ some hash
      → IsHash hash
  pub proof_hashes :
      (es : List Bytes) (size n : ℕ) (hashes : Hashes) (proof : List Bytes)
      → Holds stored es hashes
      → lib.prove_record size n (read_hashes hashes) ≡ some proof
      → All IsHash proof
  -- `CheckRecord` accepts the proof of `ProveRecord`.
  pub proves :
      (es : List Bytes) (size n : ℕ) (hashes : Hashes) (hash f : Bytes) (proof : List Bytes)
      → Holds stored es hashes
      → size ≡ length es
      → size < 2 ^ 62
      → lib.tree_hash size (read_hashes hashes) ≡ some hash
      → lib.prove_record size n (read_hashes hashes) ≡ some proof
      → nth es n ≡ some f
      → lib.check_record proof size hash (pos n) (lib.record_hash f) ≡ true
  -- `NewSigner` reads the text of a private key, and its signer makes signatures of that key.
  pub signer_of :
      (skey name seed : Bytes) (hash : ℕ) (signer : Signer)
      → IsKeyText skey name hash seed
      → lib.new_signer skey ≡ some signer
      → (signer.name ≡ name)
        × (signer.key_hash ≡ hash)
        × ((m : Bytes)
            → (sig : Bytes) × (signer.sign m ≡ inr sig)
              × (sig ≢ [])
              × (lib.crypto.ed25519_verify (lib.crypto.public_of_seed seed) m sig ≡ true))
  -- `Open` finds a text of graphic characters that `Sign` has signed, under a verifier of the
  -- signer's name and hash that accepts the signature.
  pub opens_signed :
      (text sig signed : Bytes) (signer : Signer) (verifier : NoteVerifier)
      → IsNoteText text
      → All IsVisible signer.name
      → verifier.name ≡ signer.name
      → verifier.hash ≡ signer.key_hash
      → signer.sign text ≡ inr sig
      → sig ≢ []
      → verifier.verify text sig ≡ true
      → lib.sign_note text signer ≡ some signed
      → lib.open_note signed verifier ≡ some text
