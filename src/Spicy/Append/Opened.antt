-- ===== src/Spicy/Append/Opened.antt =====
-- The checkpoint that the key of `spicy` of cmd/spicy/spicy.go has signed is opened again.
use litetlog.Prelude.{
  ℕ, ◌≡◌, refl, sym, ap, subst, ◌∙◌, ◌⊎◌, inl, inr, some, [], ◌∷◌, ◌++◌, Bytes, All, All-append,
}
use litetlog.Std.Base64.{encode, encode-visible}
use litetlog.Std.Lines.{format_int-IsVisible}
use litetlog.Std.Strconv.{format_int}
use litetlog.Std.Trim.{IsVisible}
use litetlog.Tlogx.Checkpoint.{newline, format_checkpoint}
use litetlog.Tlogx.Cosignature.{NoteVerifier}
use litetlog.Tlogx.Note.{new_verifier_from_signer}
use litetlog.Tlogx.Note.Sound.{new_verifier_from_signer-IsKeyText}
use litetlog.Witness.Library.{IsHash, Signer}
use litetlog.Spicy.Library.{Library}
use litetlog.Spicy.Append.Laws.{IsNoteText, LogLaws}
use litetlog.Spicy.Append.Saved.{head_of}

visible-IsNoteText : (s : Bytes) → All IsVisible s → IsNoteText s
visible-IsNoteText [] h = tt
visible-IsNoteText (c ∷ s) (seen, h) = (inr seen, visible-IsNoteText s h)

IsNoteText-line : (s t : Bytes) → All IsVisible s → IsNoteText t → IsNoteText (s ++ (newline ∷ t))
IsNoteText-line s t h more =
    All-append (λ c. (c ≡ newline) ⊎ IsVisible c) s (newline ∷ t) (visible-IsNoteText s h)
      (inl refl, more)

pub format_checkpoint-IsNoteText :
    (origin : Bytes) (size : ℕ) (hash : Bytes)
    → All IsVisible origin
    → IsHash hash
    → IsNoteText (format_checkpoint (head_of origin size hash))
unfolding format_checkpoint
format_checkpoint-IsNoteText origin size hash plain (bytes, full) = IsNoteText-line origin _ plain (
    IsNoteText-line (format_int size) _ (format_int-IsVisible size)
      (IsNoteText-line (encode hash) [] (encode-visible hash bytes) tt))

module _ (lib : Library) (laws : LogLaws lib) where
  -- A note of the signer of a key opens under the verifier that the program makes of that key.
  pub open_note-own :
      (skey text signed : Bytes) (signer : Signer) (verifier : NoteVerifier)
      → All IsVisible verifier.name
      → IsNoteText text
      → lib.new_signer skey ≡ some signer
      → new_verifier_from_signer lib.crypto skey ≡ inr verifier
      → lib.sign_note text signer ≡ some signed
      → lib.open_note signed verifier ≡ some text
  open_note-own skey text signed signer verifier plain lines signs verifies sealed =
      let (seed, is_key, accepts) = new_verifier_from_signer-IsKeyText lib.crypto skey verifies in
      let (named, hashed, makes) =
        laws.signer_of skey verifier.name seed verifier.hash signer is_key signs in
      let (sig, made, not_empty, valid) = makes text in
      laws.opens_signed text sig signed signer verifier lines
        (subst (All IsVisible) (sym named) plain) (sym named) (sym hashed) made not_empty
        (ap (λ x. x text sig) accepts ∙ valid) sealed
