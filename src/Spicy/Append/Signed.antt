-- ===== src/Spicy/Append/Signed.antt =====
-- The signature files that `spicy` of cmd/spicy/spicy.go writes beside the files.
use litetlog.Prelude.{
  ℕ, suc, ◌≡◌, ◌≢◌, refl, sym, ap, ◌∙◌, Option, some, List, [], ◌∷◌, ◌++◌, Bytes, All,
  bytes_eq_refl, bytes_eq_ne,
}
use litetlog.Spicy.Library.{Library, Hashes, read_hashes}
use litetlog.Spicy.Signature.{spicy, format_signature}
use litetlog.Spicy.Disk.{no_proof, unwritten_signature, Disk, set_file, some_or, write}
use litetlog.Spicy.Disk.Bind.{Returns, >>=-Returns, some_or-Returns, write-Returns}
use litetlog.Spicy.Append.{write_signatures}

-- No two of the paths are the same.
abbrev pub Distinct : List Bytes → Type 0
Distinct [] = Unit
Distinct (path ∷ paths) = All (λ p. path ++ spicy ≢ p ++ spicy) paths × Distinct paths

-- The path is none of the signature files.
abbrev pub NoSignature : List Bytes → Bytes → Type 0
NoSignature paths j = All (λ p. j ≢ p ++ spicy) paths

module _ (lib : Library) where
  module _ (size : ℕ) (checkpoint : Bytes) (hashes : Hashes) where
    abbrev pub SignedAt : (Bytes → Option Bytes) → ℕ → Bytes → Type 0
    SignedAt files n path =
        (proof : List Bytes) × (lib.prove_record size n (read_hashes hashes) ≡ some proof)
        × (files (path ++ spicy) ≡ some (format_signature lib n proof checkpoint))

    abbrev pub Signed : (Bytes → Option Bytes) → ℕ → List Bytes → Type 0
    Signed files n [] = Unit
    Signed files n (path ∷ paths) = SignedAt files n path × Signed files (suc n) paths

    pub write_signatures-Signed :
        (n : ℕ) (paths : List Bytes) (d : Disk) {d' : Disk}
        → Distinct paths
        → Returns (write_signatures lib size checkpoint hashes n paths) d tt d'
        → Signed d'.files n paths × ((j : Bytes) → NoSignature paths j → d'.files j ≡ d.files j)
    unfolding write_signatures
    write_signatures-Signed n [] d distinct h = (tt, λ j _. sym (ap (λ p. p.1.files j) h))
    write_signatures-Signed n (path ∷ paths) d {d'} (first, distinct) h =
        let (proof, d1, m1, h1) =
          >>=-Returns (some_or no_proof (lib.prove_record size n (read_hashes hashes))) _ d h in
        let text = format_signature lib n proof checkpoint in
        let (_, d2, m2, h2) =
          >>=-Returns (write unwritten_signature (path ++ spicy) text) _ d1 h1 in
        let (proves, f1) =
          some_or-Returns no_proof (lib.prove_record size n (read_hashes hashes)) d m1 in
        let f2 : d2.files ≡ set_file (path ++ spicy) text d.files =
          write-Returns unwritten_signature (path ++ spicy) text d1 m2
          ∙ ap (λ (x : Disk). set_file (path ++ spicy) text x.files) (sym f1) in
        let (signed, others) = write_signatures-Signed (suc n) paths d2 distinct h2 in
        (
          (
            (
              proof,
              proves,
              others (path ++ spicy) first
                  ∙ ap (λ x. x (path ++ spicy)) f2
                  ∙ rw (bytes_eq_refl (path ++ spicy)) refl,
            ),
            signed,
          ),
          λ j (ne, more).
              others j more ∙ ap (λ x. x j) f2 ∙ rw (bytes_eq_ne j (path ++ spicy) ne) refl,
        )
