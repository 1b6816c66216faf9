-- ===== src/Spicy/Edge/RoundTrip.antt =====
-- The edge file that cmd/spicy/spicy.go writes is read back.
use litetlog.Prelude.{
  ℕ, ◌≡◌, ◌≢◌, ◌<◌, ◌^◌, refl, ap, ◌∙◌, Bool, true, false, ◌||◌, Option, none, some, List, [], ◌∷◌,
  ◌++◌, if◌then◌else◌, length, Bytes, codes, ℤ, pos, negsuc, All, arith, ==_refl, Bool-cases, inl,
  inr,
}
use litetlog.Std.Strings.{split, cut_prefix-append}
use litetlog.Std.Strconv.{format_int, parse_int-format_int, format_int_not_empty}
use litetlog.Std.Lines.{
  unlines, IsLine, split-unlines, visible-IsLine, IsLine-append, format_int-IsVisible,
}
use litetlog.Std.Trim.{trim_space}
use litetlog.Tlogx.Checkpoint.{newline}
use litetlog.Tlogx.Edge.{right_edge}
use litetlog.Witness.Library.{IsHash}
use litetlog.Spicy.Library.{Library, Hashes, no_hashes, eq_ℤ, put_hash}
use litetlog.Spicy.Library.Laws.{TextLaws}
use litetlog.Spicy.Signature.{hash_lines}
use litetlog.Spicy.Edge.{
  size_prefix, load_hashes, load_lines, load_edge, hash_at, hashes_at, format_edge,
}
use litetlog.Spicy.Disk.{ok, fatal, size_mismatch, Disk}

pub eq_ℤ_sound : (a b : ℤ) → eq_ℤ a b ≡ true → a ≡ b
eq_ℤ_sound (pos a) (pos b) h = ap pos (ground arith)
eq_ℤ_sound (pos a) (negsuc b) h = ground arith
eq_ℤ_sound (negsuc a) (pos b) h = ground arith
eq_ℤ_sound (negsuc a) (negsuc b) h = ap negsuc (ground arith)

pub eq_ℤ_refl : (a : ℤ) → eq_ℤ a a ≡ true
eq_ℤ_refl (pos a) = ground arith
eq_ℤ_refl (negsuc a) = ground arith

abbrev pub mem : ℤ → List ℤ → Bool
mem j [] = false
mem j (id ∷ idx) = eq_ℤ j id || mem j idx

either_way : (b : Bool) (x : Option Bytes) → (if b then x else x) ≡ x
either_way true x = refl
either_way false x = refl

pub loaded : Hashes → List ℤ → Hashes → Hashes
loaded hashes [] start = start
loaded hashes (id ∷ idx) start = loaded hashes idx (put_hash id (hash_at hashes id) start)

loaded_at :
    (hashes : Hashes) (idx : List ℤ) (start : Hashes) (j : ℤ)
    → loaded hashes idx start j ≡ (if mem j idx then some (hash_at hashes j) else start j)
unfolding loaded
loaded_at hashes [] start j = refl
loaded_at hashes (id ∷ idx) start j = elim (Bool-cases (eq_ℤ j id)) [
  | inl same ↦
      rw
        (loaded_at hashes idx (put_hash id (hash_at hashes id) start) j, same, eq_ℤ_sound j id same)
        (either_way (mem id idx) (some (hash_at hashes id)))
  | inr other ↦ rw (loaded_at hashes idx (put_hash id (hash_at hashes id) start) j, other) refl
]

module _ (lib : Library) where
  texts : List Bytes → List Bytes
  texts [] = []
  texts (h ∷ hashes) = lib.hash_text h ∷ texts hashes

  hash_lines-unlines : (hashes : List Bytes) → hash_lines lib hashes ≡ unlines (texts hashes)
  unfolding hash_lines texts unlines
  hash_lines-unlines [] = refl
  hash_lines-unlines (h ∷ hashes) =
      ap (λ t. lib.hash_text h ++ (newline ∷ t)) (hash_lines-unlines hashes)

  module _ (laws : TextLaws lib) where
    texts-IsLine : (hashes : List Bytes) → All IsHash hashes → All IsLine (texts hashes)
    unfolding texts
    texts-IsLine [] h = tt
    texts-IsLine (x ∷ hashes) (h, more) = (
      visible-IsLine (lib.hash_text x) (laws.visible x h) (laws.not_empty x h),
      texts-IsLine hashes more,
    )

    load_hashes-texts :
        (hashes : Hashes) (idx : List ℤ) (start : Hashes) (d : Disk)
        → All IsHash (hashes_at hashes idx)
        → load_hashes lib idx (texts (hashes_at hashes idx)) start d
          ≡ (ok (loaded hashes idx start), d)
    unfolding load_hashes texts loaded
    load_hashes-texts hashes [] start d h = refl
    load_hashes-texts hashes (id ∷ idx) start d (h, more) =
        rw (laws.reads_back (hash_at hashes id) h)
          (load_hashes-texts hashes idx (put_hash id (hash_at hashes id) start) d more)

    length-texts :
        (hashes : Hashes) (idx : List ℤ) → length (texts (hashes_at hashes idx)) ≡ length idx
    unfolding texts
    length-texts hashes [] = refl
    length-texts hashes (id ∷ idx) = omega (arith, length-texts hashes idx)

    first_line : ℕ → Bytes
    first_line size = size_prefix ++ format_int size

    split-format_edge :
        (size : ℕ) (idx : List ℤ) (hashes : Hashes)
        → All IsHash (hashes_at hashes idx)
        → split newline (trim_space (format_edge lib size idx hashes))
          ≡ (size_prefix ++ format_int size) ∷ texts (hashes_at hashes idx)
    unfolding format_edge unlines
    split-format_edge size idx hashes h =
        let line : IsLine (size_prefix ++ format_int size) =
          IsLine-append size_prefix (format_int size) (ground arith) (
            visible-IsLine (format_int size) (format_int-IsVisible size)
              (format_int_not_empty size)) in
        ap (λ t. split newline (trim_space ((size_prefix ++ format_int size) ++ (newline ∷ t))))
          (hash_lines-unlines (hashes_at hashes idx))
        ∙ split-unlines b's' (codes "ize " ++ format_int size) (texts (hashes_at hashes idx))
            (omega arith, omega arith) (line, texts-IsLine (hashes_at hashes idx) h)

    -- Where ParseHash reads the text of a hash back, which is visible ASCII, the edge file that is
    -- written for a size below 2^63, for which RightEdge returns, with a hash of 32 bytes at every
    -- index is read at that size, and what is read has those hashes at those indexes and no
    -- others.
    pub load_edge-format_edge :
        (size : ℕ) (idx : List ℤ) (hashes : Hashes) (d : Disk)
        → size < 2 ^ 63
        → right_edge lib.stored_hash_index (pos size) ≡ some idx
        → All IsHash (hashes_at hashes idx)
        → (found : Hashes) × (load_edge lib size (format_edge lib size idx hashes) d
            ≡ (ok found, d))
          × ((j : ℤ) → found j ≡ (if mem j idx then some (hash_at hashes j) else none))
    unfolding load_edge load_lines
    load_edge-format_edge size idx hashes d fits edge h = (
      loaded hashes idx no_hashes,
      rw
          (
            split-format_edge size idx hashes h,
            cut_prefix-append size_prefix (format_int size),
            parse_int-format_int size fits,
            eq_ℤ_refl (pos size),
            edge,
            length-texts hashes idx,
            ==_refl (length idx),
          )
          (load_hashes-texts hashes idx no_hashes d h),
      λ j. loaded_at hashes idx no_hashes j,
    )

    -- An edge of another size than the checkpoint's is refused.
    pub load_edge_mismatch :
        (other size : ℕ) (idx : List ℤ) (hashes : Hashes) (d : Disk)
        → size < 2 ^ 63
        → size ≢ other
        → All IsHash (hashes_at hashes idx)
        → load_edge lib other (format_edge lib size idx hashes) d ≡ (fatal size_mismatch, d)
    unfolding load_edge load_lines
    load_edge_mismatch other size idx hashes d fits ne h =
        let differ : eq_ℤ (pos size) (pos other) ≡ false = ground (arith, ne) in
        rw
          (
            split-format_edge size idx hashes h,
            cut_prefix-append size_prefix (format_int size),
            parse_int-format_int size fits,
            differ,
          )
          refl
