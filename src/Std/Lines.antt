-- ===== src/Std/Lines.antt =====
-- Texts that are made of lines, and how `strings.TrimSpace` and `strings.Split` take them apart.
use litetlog.Prelude.{
  ℕ, ◌≡◌, ◌≢◌, arith, refl, sym, ap, ◌∙◌, List, [], ◌∷◌, ◌++◌, append_assoc, append-nil, All, Lacks,
  Bytes,
}
use litetlog.Std.Strings.{split, split-Lacks, split-append}
use litetlog.Std.Strconv.{IsDigit, format_int, format_int-IsDigit}
use litetlog.Std.Trim.{IsVisible, trim_space, trim_space-newline, trim_space-visible}

-- Each line with a newline behind it.
unfoldable pub unlines : List Bytes → Bytes
unlines [] = []
unlines (line ∷ lines) = line ++ (b'\n' ∷ unlines lines)

abbrev pub EndsVisible : Bytes → Type 0
EndsVisible s = (t : Bytes) × (last : ℕ) × (s ≡ t ++ (last ∷ [])) × IsVisible last

abbrev pub IsLine : Bytes → Type 0
IsLine s = Lacks b'\n' s × EndsVisible s

-- The lines with no newline behind the last.
record Body (first : Bytes) (lines : List Bytes) : Type 0 where
  rest : Bytes
  spells : unlines (first ∷ lines) ≡ (first ++ rest) ++ (b'\n' ∷ [])
  visible : EndsVisible (first ++ rest)
  splits : split b'\n' (first ++ rest) ≡ first ∷ lines

unlines-Body : (first : Bytes) (lines : List Bytes) → All IsLine (first ∷ lines) → Body first lines
unfolding unlines
unlines-Body first [] ((lacks, visible), _) = record {
  rest = [];
  spells = rw (append-nil first) refl;
  visible = rw (append-nil first) visible;
  splits = rw (append-nil first) (split-Lacks b'\n' first lacks);
}
unlines-Body first (second ∷ lines) ((lacks, visible), more) =
    let b = unlines-Body second lines more in
    let body = second ++ b.rest in
    let (t, last, e, seen) = b.visible in
    record {
      rest = b'\n' ∷ body;
      spells =
          ap (λ x. first ++ (b'\n' ∷ x)) b.spells
          ∙ sym (append_assoc first (b'\n' ∷ body) (b'\n' ∷ []));
      visible = (
        first ++ (b'\n' ∷ t),
        last,
        ap (λ x. first ++ (b'\n' ∷ x)) e ∙ sym (append_assoc first (b'\n' ∷ t) (last ∷ [])),
        seen,
      );
      splits = split-append b'\n' first body lacks ∙ ap (λ x. first ∷ x) b.splits;
    }

-- Lines that end in visible bytes, the first of which starts with one, are found again.
pub split-unlines :
    (c : ℕ) (s : Bytes) (lines : List Bytes)
    → IsVisible c
    → All IsLine ((c ∷ s) ∷ lines)
    → split b'\n' (trim_space (unlines ((c ∷ s) ∷ lines))) ≡ (c ∷ s) ∷ lines
split-unlines c s lines seen h =
    let b = unlines-Body (c ∷ s) lines h in
    let (t, last, e, last_seen) = b.visible in
    ap (λ x. split b'\n' (trim_space x)) b.spells
    ∙ ap (split b'\n') (trim_space-newline c (s ++ b.rest) t last e seen last_seen)
    ∙ b.splits

pub visible-Lacks : (s : Bytes) → All IsVisible s → Lacks b'\n' s
visible-Lacks [] h = tt
visible-Lacks (c ∷ s) (seen, h) = ((λ e. absurd (omega (arith, e, seen.0))), visible-Lacks s h)

EndsVisible-cons : (c : ℕ) (s : Bytes) → EndsVisible s → EndsVisible (c ∷ s)
EndsVisible-cons c s (t, last, e, seen) = (c ∷ t, last, ap (λ x. c ∷ x) e, seen)

visible-EndsVisible : (s : Bytes) → All IsVisible s → s ≢ [] → EndsVisible s
visible-EndsVisible [] h ne = absurd (ne refl)
visible-EndsVisible (c ∷ []) (seen, h) ne = ([], c, refl, seen)
visible-EndsVisible (c ∷ d ∷ s) (seen, h) ne =
    EndsVisible-cons c (d ∷ s) (visible-EndsVisible (d ∷ s) h (λ e. cc e))

pub visible-IsLine : (s : Bytes) → All IsVisible s → s ≢ [] → IsLine s
visible-IsLine s h ne = (visible-Lacks s h, visible-EndsVisible s h ne)

pub IsLine-append : (s t : Bytes) → Lacks b'\n' s → IsLine t → IsLine (s ++ t)
IsLine-append [] t lacks h = h
IsLine-append (c ∷ s) t (ne, lacks) h =
    let (more, ends) = IsLine-append s t lacks h in ((ne, more), EndsVisible-cons c (s ++ t) ends)

pub trim_space_visible_line :
    (c : ℕ) (s : Bytes) → All IsVisible (c ∷ s) → trim_space (c ∷ s) ≡ c ∷ s
trim_space_visible_line c s (seen, h) =
    let (t, last, e, last_seen) = visible-EndsVisible (c ∷ s) (seen, h) (λ e. cc e) in
    trim_space-visible c s t last e seen last_seen

digits-IsVisible : (s : Bytes) → All IsDigit s → All IsVisible s
digits-IsVisible [] h = tt
digits-IsVisible (c ∷ s) (d, h) = ((omega (arith, d), omega (arith, d)), digits-IsVisible s h)

pub format_int-IsVisible : (n : ℕ) → All IsVisible (format_int n)
format_int-IsVisible n = digits-IsVisible (format_int n) (format_int-IsDigit n)
