-- ===== src/Tlogx/Note/Sound.antt =====
-- `NewVerifierFromSigner` of internal/tlogx/note.go accepts only the text of a private key.
use litetlog.Prelude.{
  ℕ, ◌≡◌, ◌≢◌, sym, ap, subst, ◌∙◌, inl, inr, Option, none, some, [], ◌∷◌, ◌==◌, ◌&&◌, length,
  Bytes, codes, bytes_eq, bytes_eq_iff, Lacks, arith, Bool-cases, inr_injective,
}
use litetlog.Std.Hex.{parse_uint32}
use litetlog.Std.Base64.{decode, decode_nothing}
use litetlog.Tlogx.Cosignature.{Crypto, NoteVerifier, plus, is_valid_name, key_hash}
use litetlog.Tlogx.Note.{
  alg_ed25519, Fields, chop_fields, verifier_of, verifier_of_parsed, verifier_of_fields,
  new_verifier_from_signer,
}
use litetlog.Tlogx.Note.Text.{key_text, IsKeyText, chop_fields-Spelled}

-- The tests that the fields have passed.
record Passed (crypto : Crypto) (f : Fields) (v : NoteVerifier) : Type 0 where
  private_word : f.priv1 ≡ codes "PRIVATE"
  key_word : f.priv2 ≡ codes "KEY"
  seed : Bytes
  reads_hash : parse_uint32 f.hash16 ≡ some v.hash
  reads_key : decode f.key64 ≡ some (1 ∷ seed)
  named : v.name ≡ f.name
  verifies : v.verify ≡ crypto.ed25519_verify (crypto.public_of_seed seed)

verifier_of-seed :
    (crypto : Crypto) (name : Bytes) (hash alg : ℕ) (key : Bytes) {v : NoteVerifier}
    → verifier_of crypto name hash (alg ∷ key) ≡ inr v
    → (alg ≡ 1)
      × (v.hash ≡ hash)
      × (v.name ≡ name)
      × (v.verify ≡ crypto.ed25519_verify (crypto.public_of_seed key))
unfolding verifier_of
verifier_of-seed crypto name hash alg key {v} h = elim (Bool-cases (alg == alg_ed25519)) [
  | inl own ↦ elim (Bool-cases (length key == 32)) [
    | inl full ↦
        elim (Bool-cases (hash == key_hash crypto name (alg_ed25519 ∷ crypto.public_of_seed key))) [
          | inl same ↦
              let e : record {
                name = name;
                hash = hash;
                verify = crypto.ed25519_verify (crypto.public_of_seed key);
              }
                  ≡ v =
                inr_injective {A = Bytes} (rw (own, full, same) at h) in
              (
                ground (arith, own),
                ap (λ (x : NoteVerifier). x.hash) (sym e),
                ap (λ (x : NoteVerifier). x.name) (sym e),
                ap (λ (x : NoteVerifier). x.verify) (sym e),
              )
          | inr other ↦ cc (rw (own, full, other) at h)
        ]
    | inr other ↦ cc (rw (own, other) at h)
  ]
  | inr other ↦ cc (rw other at h)
]

-- What the two parsers have returned.
record Parsed (crypto : Crypto) (name : Bytes) (hash : Option ℕ) (key : Option Bytes)
    (v : NoteVerifier) : Type 0 where
  seed : Bytes
  reads_hash : hash ≡ some v.hash
  reads_key : key ≡ some (1 ∷ seed)
  named : v.name ≡ name
  verifies : v.verify ≡ crypto.ed25519_verify (crypto.public_of_seed seed)

verifier_of_parsed-Parsed :
    (crypto : Crypto) (name : Bytes) (hash : Option ℕ) (key : Option Bytes) {v : NoteVerifier}
    → verifier_of_parsed crypto name hash key ≡ inr v
    → Parsed crypto name hash key v
unfolding verifier_of verifier_of_parsed
verifier_of_parsed-Parsed crypto name (some hash) (some []) h = cc h
verifier_of_parsed-Parsed crypto name (some hash) (some (alg ∷ key)) h =
    let (own, same, named, verifies) = verifier_of-seed crypto name hash alg key h in
    record {
      seed = key;
      reads_hash = ap some (sym same);
      reads_key = ap (λ a. some (a ∷ key)) own;
      named = named;
      verifies = verifies;
    }
verifier_of_parsed-Parsed crypto name (some hash) none h = cc h
verifier_of_parsed-Parsed crypto name none (some key) h = cc h
verifier_of_parsed-Parsed crypto name none none h = cc h

verifier_of_fields-Passed :
    (crypto : Crypto) (f : Fields) {v : NoteVerifier}
    → verifier_of_fields crypto f ≡ inr v
    → Passed crypto f v
unfolding verifier_of_fields
verifier_of_fields-Passed crypto f {v} h = elim (Bool-cases (bytes_eq f.priv1 (codes "PRIVATE"))) [
  | inl a ↦ elim (Bool-cases (bytes_eq f.priv2 (codes "KEY"))) [
    | inl b ↦ elim (Bool-cases (length f.hash16 == 8 && is_valid_name f.name)) [
      | inl c ↦
          let p =
            verifier_of_parsed-Parsed crypto f.name (parse_uint32 f.hash16) (decode f.key64)
              (ground (arith, a, b, c, h)) in
          record {
            private_word = (bytes_eq_iff f.priv1 (codes "PRIVATE")).0 a;
            key_word = (bytes_eq_iff f.priv2 (codes "KEY")).0 b;
            seed = p.seed;
            reads_hash = p.reads_hash;
            reads_key = p.reads_key;
            named = p.named;
            verifies = p.verifies;
          }
      | inr c ↦ ground (arith, a, b, c, h)
    ]
    | inr b ↦ cc (rw (a, b) at h)
  ]
  | inr a ↦ cc (rw a at h)
]

decode_empty : (s seed : Bytes) → decode s ≡ some (1 ∷ seed) → s ≢ []
decode_empty s seed h e = cc (ap decode (sym e) ∙ h, decode_nothing)

-- A text that NewVerifierFromSigner accepts is that of a private key, and its verifier has the name
-- and the hash of the text, and verifies with the public key of the seed.
pub new_verifier_from_signer-IsKeyText :
    (crypto : Crypto) (skey : Bytes) {v : NoteVerifier}
    → new_verifier_from_signer crypto skey ≡ inr v
    → (seed : Bytes) × IsKeyText skey v.name v.hash seed
      × (v.verify ≡ crypto.ed25519_verify (crypto.public_of_seed seed))
unfolding new_verifier_from_signer
new_verifier_from_signer-IsKeyText crypto skey {v} h =
    let f = chop_fields skey in
    let p = verifier_of_fields-Passed crypto f h in
    let s = chop_fields-Spelled skey (decode_empty _ p.seed p.reads_key) in
    (
      p.seed,
      record {
        hash16 = (chop_fields skey).hash16;
        key64 = (chop_fields skey).key64;
        spells =
            s.spells
            ∙ ap (λ x. key_text x f.priv2 f.name f.hash16 f.key64) p.private_word
            ∙ ap (λ x. key_text (codes "PRIVATE") x f.name f.hash16 f.key64) p.key_word
            ∙ ap (λ x. key_text (codes "PRIVATE") (codes "KEY") x f.hash16 f.key64) (sym p.named);
        name_lacks = subst (Lacks plus) (sym p.named) s.name_lacks;
        hash_lacks = s.hash_lacks;
        reads_hash = p.reads_hash;
        reads_key = p.reads_key;
      },
      p.verifies,
    )
