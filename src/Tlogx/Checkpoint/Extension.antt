-- ===== src/Tlogx/Checkpoint/Extension.antt =====
-- The extension of a checkpoint: lines that are not empty, each with its newline.
use litetlog.Prelude.{
  ℕ, zero, suc, ◌≤◌, ◌≡◌, ◌≢◌, refl, ap, true, false, [], ◌∷◌, ◌++◌, arith, length, length-append,
  is_empty, Bytes, Lacks,
}
use litetlog.Std.Strings.{cut, cut-append, cut_found, ends_with, ends_with-append}
use litetlog.Tlogx.Checkpoint.{newline, check_extension}

pub data IsExtension : Bytes → Type 0 where
  none : {s : Bytes} → s ≡ [] → IsExtension s
  line :
      {s : Bytes} (l rest : Bytes)
      → s ≡ l ++ (newline ∷ rest)
      → l ≢ []
      → Lacks newline l
      → IsExtension rest
      → IsExtension s

is_empty-cons : (s : Bytes) → is_empty s ≡ false → s ≢ []
is_empty-cons [] h = cc
is_empty-cons (c ∷ s) h = cc

pub check_extension_sound : (f : ℕ) (s : Bytes) → check_extension f s ≡ true → IsExtension s
unfolding check_extension
check_extension_sound f [] h = none refl
check_extension_sound zero (c ∷ s) h = cc
check_extension_sound (suc f) (c ∷ s) h =
    let p = cut newline (c ∷ s) in
    let found : p.found ≡ true = ground arith in
    let (spells, lacks) = cut_found newline (c ∷ s) found in
    let later = check_extension_sound f p.after (ground arith) in
    line p.before p.after spells (is_empty-cons p.before (ground arith)) lacks later

pub check_extension_complete :
    {s : Bytes} (f : ℕ) → length s ≤ f → IsExtension s → check_extension f s ≡ true
unfolding check_extension
check_extension_complete f h (none e) = rw e
check_extension_complete f h (line [] rest e ne lacks x) = absurd (ne refl)
check_extension_complete zero h (line (a ∷ l) rest e ne lacks x) =
    absurd (omega (arith, ap (length {A = ℕ}) e))
check_extension_complete (suc f) h (line (a ∷ l) rest e ne lacks x) =
    let fits : length rest ≤ f =
      omega (arith, ap (length {A = ℕ}) e, length-append {0} l (newline ∷ rest)) in
    rw (e, cut-append newline (a ∷ l) rest lacks) (check_extension_complete f fits x)

-- The newline in front of an extension, or the extension, ends the text.
pub ends_with-IsExtension : {s : Bytes} → IsExtension s → ends_with newline (newline ∷ s) ≡ true
ends_with-IsExtension (none e) = rw e (unfold ends_with in refl)
ends_with-IsExtension (line l rest e ne lacks x) =
    rw e (ends_with-append newline (newline ∷ l) (newline ∷ rest) (ends_with-IsExtension x))
