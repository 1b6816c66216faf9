-- ===== src/Witness/Signatures.antt =====
-- `splitSignatures` of internal/witness/witness.go.
use litetlog.Prelude.{◌≡◌, refl, true, none, some, [], ◌∷◌, ◌++◌, Bytes}
use litetlog.Std.Strings.{cut_prefix, after_last, ends_with}
use litetlog.Tlogx.Checkpoint.{newline}
use litetlog.Witness.Process.{split_signatures}

abbrev blank_line : Bytes
blank_line = newline ∷ newline ∷ []

-- No two newlines follow one another.
abbrev pub LacksBlank : Bytes → Type 0
LacksBlank [] = Unit
LacksBlank (c ∷ s) = (cut_prefix blank_line (c ∷ s) ≡ none) × LacksBlank s

after_last-none : (s : Bytes) → LacksBlank s → after_last blank_line s ≡ none
unfolding after_last
after_last-none [] h = unfold cut_prefix in refl
after_last-none (c ∷ s) (h, hs) = rw (after_last-none s hs, h)

after_last-some :
    (s rest : Bytes) {r : Bytes}
    → after_last blank_line rest ≡ some r
    → after_last blank_line (s ++ rest) ≡ some r
unfolding after_last
after_last-some [] rest h = h
after_last-some (c ∷ s) rest h = rw (after_last-some s rest h)

after_last-here :
    (sigs : Bytes)
    → LacksBlank (newline ∷ sigs)
    → after_last blank_line (newline ∷ newline ∷ sigs) ≡ some sigs
unfolding after_last
after_last-here sigs h = rw (after_last-none (newline ∷ sigs) h) (unfold cut_prefix in refl)

not-ends_with-nil : ¬ (ends_with newline [] ≡ true)
unfolding ends_with
not-ends_with-nil h = cc

-- Of a text, the newline that ends it, a blank line and signature lines that end in a newline and
-- hold no blank line, splitSignatures returns the signature lines.
pub split_signatures-append :
    (text sigs : Bytes)
    → LacksBlank (newline ∷ sigs)
    → ends_with newline sigs ≡ true
    → split_signatures (text ++ (newline ∷ newline ∷ sigs)) ≡ some sigs
unfolding split_signatures
split_signatures-append text [] blank ends = absurd (not-ends_with-nil ends)
split_signatures-append text (c ∷ sigs) blank ends =
    let last =
      after_last-some text (newline ∷ newline ∷ c ∷ sigs) (after_last-here (c ∷ sigs) blank) in
    rw (last, split_signatures) (rw ends)
