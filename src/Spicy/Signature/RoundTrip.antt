-- ===== src/Spicy/Signature/RoundTrip.antt =====
-- The signature files of cmd/spicy/spicy.go are read back, and what is read of any file.
use litetlog.Prelude.{
  ℕ, zero, suc, ◌≤◌, ◌<◌, ◌^◌, ◌≡◌, refl, sym, ap, ◌∙◌, true, false, none, some, List, [], ◌∷◌,
  ◌++◌, append_assoc, if◌then◌else◌, is_empty, length, length-append, Bytes, codes, ℤ, pos, All,
  arith, Bool-cases, inl, inr, >>=-eq-some, some_injective, subst,
}
use litetlog.Std.Strings.{
  is_empty_ne, is_empty_eq, cut, cut-append, cut_found, cut_prefix, cut_prefix-append,
  cut_prefix_sound,
}
use litetlog.Std.Strconv.{parse_int, format_int, parse_int-format_int, format_int-Lacks}
use litetlog.Std.Lines.{unlines, visible-Lacks}
use litetlog.Tlogx.Checkpoint.{newline}
use litetlog.Witness.Library.{IsHash}
use litetlog.Spicy.Library.{Library}
use litetlog.Spicy.Library.Laws.{TextLaws}
use litetlog.Spicy.Signature.{Signature, read_proof, read_signature, hash_lines, format_signature}

module _ (lib : Library) where
  module _ (laws : TextLaws lib) where
    read_proof-hash_lines :
        (f : ℕ) (proof : List Bytes) (rest : Bytes)
        → length proof < f
        → All IsHash proof
        → read_proof lib f (hash_lines lib proof ++ (newline ∷ rest)) ≡ some (proof, rest)
    unfolding read_proof hash_lines
    read_proof-hash_lines zero proof rest lt h = absurd (omega (arith, lt))
    read_proof-hash_lines (suc f) [] rest lt h = rw (cut-append newline [] rest tt) refl
    read_proof-hash_lines (suc f) (x ∷ proof) rest lt (h, more) =
        let text = lib.hash_text x in
        let tail = hash_lines lib proof ++ (newline ∷ rest) in
        let full : is_empty text ≡ false = is_empty_ne text (laws.not_empty x h) in
        rw
          (
            append_assoc text (newline ∷ hash_lines lib proof) (newline ∷ rest),
            cut-append newline text tail (visible-Lacks text (laws.visible x h)),
            full,
            laws.reads_back x h,
            read_proof-hash_lines f proof rest (omega (arith, lt)) more,
          )
          refl

    length-hash_lines : (proof : List Bytes) → length proof ≤ length (hash_lines lib proof)
    unfolding hash_lines
    length-hash_lines [] = omega arith
    length-hash_lines (x ∷ proof) = omega (
      arith,
      length-hash_lines proof,
      length-append (lib.hash_text x) (newline ∷ hash_lines lib proof),
    )

    -- Where ParseHash reads the text of a hash back, which is visible ASCII, a signature file that
    -- is written for an index below 2^63 and hashes of 32 bytes is read as that index, those
    -- hashes and that note.
    pub read_signature-format_signature :
        (n : ℕ) (proof : List Bytes) (checkpoint : Bytes)
        → n < 2 ^ 63
        → All IsHash proof
        → read_signature lib (format_signature lib n proof checkpoint)
          ≡ some (record { index = pos n; proof = proof; checkpoint = checkpoint })
    unfolding read_signature format_signature
    read_signature-format_signature n proof checkpoint fits h =
        let tail = hash_lines lib proof ++ (newline ∷ checkpoint) in
        rw
          (
            cut_prefix-append (codes "index ") (format_int n ++ (newline ∷ tail)),
            cut-append newline (format_int n) tail (format_int-Lacks n newline (omega arith)),
            parse_int-format_int n fits,
            read_proof-hash_lines (suc (length tail)) proof checkpoint
                (omega (
                  arith,
                  length-hash_lines proof,
                  length-append (hash_lines lib proof) (newline ∷ checkpoint),
                ))
                h,
          )
          refl

  abbrev pub Reads : List Bytes → List Bytes → Type 0
  Reads [] [] = Unit
  Reads (line ∷ lines) (h ∷ proof) = (lib.parse_hash line ≡ some h) × Reads lines proof
  Reads _ _ = ⊥

  -- The text is "index ", a number, the lines of hashes, an empty line, and the checkpoint.
  pub record Spells (text : Bytes) (s : Signature) : Type 0 where
    pub number : Bytes
    pub lines : List Bytes
    pub spells :
        text ≡ codes "index " ++ (number ++ (newline ∷ (unlines lines ++ (newline ∷ s.checkpoint))))
    pub reads : Reads lines s.proof
    pub index_reads : parse_int number ≡ some s.index

  read_proof-Reads :
      (f : ℕ) (s : Bytes) {proof : List Bytes} {rest : Bytes}
      → read_proof lib f s ≡ some (proof, rest)
      → (lines : List Bytes) × (s ≡ unlines lines ++ (newline ∷ rest)) × Reads lines proof
  unfolding read_proof unlines
  read_proof-Reads zero s h = cc h
  read_proof-Reads (suc f) s {proof} {rest} h = elim (Bool-cases (cut newline s).found) [
    | inr missing ↦ cc (rw missing at h)
    | inl found ↦ elim (Bool-cases (is_empty (cut newline s).before)) [
      | inl blank ↦
          let e : ◌≡◌ {A = List Bytes × Bytes} ([], (cut newline s).after) (proof, rest) =
            some_injective (rw (found, blank) at h) in
          (
            [],
            (cut_found newline s found).0
                ∙ ap (λ b. b ++ (newline ∷ (cut newline s).after))
                    (is_empty_eq (cut newline s).before blank)
                ∙ ap (λ p. newline ∷ p.1) e,
            subst (Reads []) (ap (λ p. p.0) e) tt,
          )
      | inr full ↦
          let (x, parsed, more) =
            >>=-eq-some (lib.parse_hash (cut newline s).before) _ (rw (found, full) at h) in
          let ((proof', rest'), later, last) =
            >>=-eq-some (read_proof lib f (cut newline s).after) _ more in
          let e : ◌≡◌ {A = List Bytes × Bytes} (x ∷ proof', rest') (proof, rest) =
            some_injective last in
          let (lines, spells, reads) = read_proof-Reads f (cut newline s).after later in
          (
            (cut newline s).before ∷ lines,
            (cut_found newline s found).0
                ∙ ap (λ t. (cut newline s).before ++ (newline ∷ t))
                    (spells ∙ ap (λ p. unlines lines ++ (newline ∷ p.1)) e)
                ∙ sym (
                    append_assoc (cut newline s).before (newline ∷ unlines lines) (newline ∷ rest)),
            subst (Reads ((cut newline s).before ∷ lines)) (ap (λ p. p.0) e) (parsed, reads),
          )
    ]
  ]

  number_of :
      (s : Bytes) {n : ℤ}
      → (if (cut newline s).found then parse_int (cut newline s).before else none) ≡ some n
      → ((cut newline s).found ≡ true) × (parse_int (cut newline s).before ≡ some n)
  number_of s {n} h = elim (Bool-cases (cut newline s).found) [
    | inl found ↦ (found, rw found at h)
    | inr missing ↦ cc (rw missing at h)
  ]

  pub read_signature-Spells :
      (text : Bytes) {s : Signature} → read_signature lib text ≡ some s → Spells text s
  unfolding read_signature
  read_signature-Spells text {s} h =
      let (t, front, more) = >>=-eq-some (cut_prefix (codes "index ") text) _ h in
      let (index, number, later) =
        >>=-eq-some (if (cut newline t).found then parse_int (cut newline t).before else none) _
          more in
      let ((proof, rest), lines_read, last) =
        >>=-eq-some (read_proof lib (suc (length (cut newline t).after)) (cut newline t).after) _
          later in
      let e : record { index = index; proof = proof; checkpoint = rest } ≡ s =
        some_injective last in
      let (found, number_reads) = number_of t number in
      let (lines, spells, reads) =
        read_proof-Reads (suc (length (cut newline t).after)) (cut newline t).after lines_read in
      subst (Spells text) e (record {
        number = (cut newline t).before;
        lines = lines;
        spells =
            cut_prefix_sound (codes "index ") text front
            ∙ ap (λ x. codes "index " ++ x)
                ((cut_found newline t found).0
                  ∙ ap (λ x. (cut newline t).before ++ (newline ∷ x)) spells);
        reads = reads;
        index_reads = number_reads;
      })

  length-cut_found :
      (s : Bytes) → (cut newline s).found ≡ true → length (cut newline s).after < length s
  length-cut_found s found =
      let p = cut newline s in
      omega (
        arith,
        ap (length {A = ℕ}) (cut_found newline s found).0,
        length-append p.before (newline ∷ p.after),
      )

  -- Fuel above the length of the text is enough: more of it changes nothing.
  pub read_proof_fuel :
      (f g : ℕ) (s : Bytes) → length s < f → length s < g → read_proof lib f s ≡ read_proof lib g s
  unfolding read_proof
  read_proof_fuel zero g s hf hg = absurd (omega (arith, hf))
  read_proof_fuel (suc f) zero s hf hg = absurd (omega (arith, hg))
  read_proof_fuel (suc f) (suc g) s hf hg = elim (Bool-cases (cut newline s).found) [
    | inr missing ↦ rw missing refl
    | inl found ↦
        let shorter = length-cut_found s found in
        rw
          (read_proof_fuel f g (cut newline s).after (omega (arith, shorter, hf))
            (omega (arith, shorter, hg)))
          refl
  ]
