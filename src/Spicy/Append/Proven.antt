-- ===== src/Spicy/Append/Proven.antt =====
-- The signatures that `spicy` of cmd/spicy/spicy.go writes are verified by `spicy -verify`.
use litetlog.Prelude.{
  ℕ, suc, ◌+◌, ◌<◌, ◌^◌, ◌≡◌, refl, ◌∙◌, Option, some, List, [], ◌∷◌, ◌++◌, length, Bytes, All, pos,
  arith,
}
use litetlog.Tlogx.Cosignature.{NoteVerifier}
use litetlog.Tlogx.Checkpoint.{parse_checkpoint}
use litetlog.Spicy.Library.{Library, Hashes, read_hashes}
use litetlog.Spicy.Library.Laws.{TextLaws}
use litetlog.Spicy.Signature.{format_signature}
use litetlog.Spicy.Signature.RoundTrip.{read_signature-format_signature, read_signature-Spells}
use litetlog.Spicy.Verify.Sound.{Verified}
use litetlog.Spicy.Append.Laws.{nth, Holds, LogLaws}
use litetlog.Spicy.Append.Files.{Contents}
use litetlog.Spicy.Append.Signed.{SignedAt, Signed}
use litetlog.Spicy.Append.Saved.{head_of}

-- The records are those from `n` on.
abbrev pub Behind : List Bytes → ℕ → List Bytes → Type 0
Behind whole n [] = Unit
Behind whole n (f ∷ fs) = (nth whole n ≡ some f) × Behind whole (suc n) fs

Behind-cons :
    (e : Bytes) (whole : List Bytes) (n : ℕ) (fs : List Bytes)
    → Behind whole n fs
    → Behind (e ∷ whole) (suc n) fs
Behind-cons e whole n [] h = tt
Behind-cons e whole n (f ∷ fs) (here, h) = (here, Behind-cons e whole (suc n) fs h)

pub Behind-append : (es fs : List Bytes) → Behind (es ++ fs) (length es) fs
Behind-append [] [] = tt
Behind-append [] (f ∷ fs) = (refl, Behind-cons f fs 0 fs (Behind-append [] fs))
Behind-append (e ∷ es) fs = Behind-cons e (es ++ fs) (length es) fs (Behind-append es fs)

module _ (lib : Library) (laws : LogLaws lib) (texts : TextLaws lib) (vkey : NoteVerifier)
    (whole : List Bytes) (size : ℕ) (hashes : Hashes) (hash latest text : Bytes)
    (files last : Bytes → Option Bytes) (holds : Holds laws.stored whole hashes)
    (full : size ≡ length whole) (fits : size < 2 ^ 62)
    (hashes_to : lib.tree_hash size (read_hashes hashes) ≡ some hash)
    (opens : lib.open_note latest vkey ≡ some text)
    (parses : parse_checkpoint text ≡ some (head_of vkey.name size hash)) where
  one-Verified :
      (n : ℕ) (path content : Bytes)
      → n < 2 ^ 63
      → files path ≡ some content
      → nth whole n ≡ some content
      → last path ≡ files path
      → SignedAt lib size latest hashes last n path
      → Verified lib vkey last path
  one-Verified n path content small here record_n kept (proof, proves, beside) =
      let reads =
        read_signature-format_signature lib texts n proof latest small
          (laws.proof_hashes whole size n hashes proof holds proves) in
      record {
        content = content;
        signature_text = format_signature lib n proof latest;
        signature = record { index = pos n; proof = proof; checkpoint = latest };
        text = text;
        checkpoint = head_of vkey.name size hash;
        here = kept ∙ here;
        beside = beside;
        reads = reads;
        spells = read_signature-Spells lib (format_signature lib n proof latest) reads;
        opens = opens;
        parses = parses;
        same_log = refl;
        included =
            laws.proves whole size n hashes hash content proof holds full fits hashes_to proves
              record_n;
      }

  pub All-Verified :
      (n : ℕ) (paths contents : List Bytes)
      → n + length paths < 2 ^ 63
      → Contents files paths contents
      → Behind whole n contents
      → All (λ path. last path ≡ files path) paths
      → Signed lib size latest hashes last n paths
      → All (Verified lib vkey last) paths
  All-Verified n [] [] small h b kept signed = tt
  All-Verified n [] (f ∷ fs) small h b kept signed = tt
  All-Verified n (path ∷ paths) [] small h b kept signed = absurd h
  All-Verified n (path ∷ paths) (f ∷ fs) small (here, h) (record_n, b) (same, kept)
        (first, signed) =
      (
        one-Verified n path f (omega (arith, small)) here record_n same first,
        All-Verified (suc n) paths fs (omega (arith, small)) h b kept signed,
      )
