-- ===== src/Tlogx/Note/Parse.antt =====
-- `NewVerifierFromSigner` of internal/tlogx/note.go on the texts that `note.GenerateKey` writes.
use litetlog.Prelude.{
  ℕ, ◌^◌, ◌<◌, ◌≡◌, refl, inr, true, some, [], ◌∷◌, arith, length, Bytes, codes, bytes_eq_refl,
  ==_refl, All,
}
use litetlog.Std.Hex.{format_hex8, parse_uint32-format_hex8, format_hex8-Lacks}
use litetlog.Std.Base64.{IsByte, encode, decode-encode}
use litetlog.Std.Binary.{uint32}
use litetlog.Tlogx.Cosignature.{Crypto, plus, is_valid_name, key_hash}
use litetlog.Tlogx.Cosignature.Name.{is_valid_name-Lacks}
use litetlog.Tlogx.Note.Text.{key_text, chop_fields-key_text}
use litetlog.Tlogx.Note.{
  alg_ed25519, verifier_of, verifier_of_parsed, verifier_of_fields, new_verifier_from_signer,
}

-- A digest is bytes.
abbrev pub IsDigest : Crypto → Type 0
IsDigest crypto = (m : Bytes) → All IsByte (crypto.sha256 m)

uint32-lt : (s : Bytes) → All IsByte s → uint32 s < 2 ^ 32
unfolding uint32
uint32-lt (a ∷ b ∷ c ∷ d ∷ s) (ha, (hb, (hc, (hd, _)))) = omega arith
uint32-lt [] h = omega arith
uint32-lt (a ∷ []) h = omega arith
uint32-lt (a ∷ b ∷ []) h = omega arith
uint32-lt (a ∷ b ∷ c ∷ []) h = omega arith

-- A signer's text with a name, a key hash, and the encoded algorithm and seed.
abbrev signer_text : Bytes → ℕ → Bytes → Bytes
signer_text name hash key =
    key_text (codes "PRIVATE") (codes "KEY") name (format_hex8 hash) (encode key)

-- What is made of a seed with `ed25519.NewKeyFromSeed`: the text of `note.GenerateKey`.
abbrev pub generated_text : Crypto → Bytes → Bytes → Bytes
generated_text crypto name seed =
    signer_text name (key_hash crypto name (alg_ed25519 ∷ crypto.public_of_seed seed))
      (alg_ed25519 ∷ seed)

key_hash-lt :
    (crypto : Crypto) (name key : Bytes) → IsDigest crypto → key_hash crypto name key < 2 ^ 32
unfolding key_hash
key_hash-lt crypto name key h = uint32-lt _ (h _)

length-format_hex8 : (n : ℕ) → length (format_hex8 n) ≡ 8
unfolding format_hex8
length-format_hex8 n = refl

verifier_of_parsed-seed :
    (crypto : Crypto) (name seed : Bytes)
    → length seed ≡ 32
    → verifier_of_parsed crypto name
        (some (key_hash crypto name (alg_ed25519 ∷ crypto.public_of_seed seed)))
        (some (alg_ed25519 ∷ seed))
      ≡ inr (record {
        name = name;
        hash = key_hash crypto name (alg_ed25519 ∷ crypto.public_of_seed seed);
        verify = crypto.ed25519_verify (crypto.public_of_seed seed);
      })
unfolding verifier_of verifier_of_parsed
verifier_of_parsed-seed crypto name seed l =
    rw (l, ==_refl (key_hash crypto name (alg_ed25519 ∷ crypto.public_of_seed seed)))

-- Where every digest is bytes, NewVerifierFromSigner reads the text of a private key that is made
-- of a valid name and a seed of 32 bytes, in the form of note.GenerateKey, and its verifier has
-- that name, the hash of the name and the public key of the seed, and verifies with that public
-- key.
pub new_verifier_from_signer-generated_text :
    (crypto : Crypto) (name seed : Bytes)
    → IsDigest crypto
    → is_valid_name name ≡ true
    → All IsByte seed
    → length seed ≡ 32
    → new_verifier_from_signer crypto (generated_text crypto name seed)
      ≡ inr (record {
        name = name;
        hash = key_hash crypto name (alg_ed25519 ∷ crypto.public_of_seed seed);
        verify = crypto.ed25519_verify (crypto.public_of_seed seed);
      })
unfolding new_verifier_from_signer verifier_of_fields
new_verifier_from_signer-generated_text crypto name seed digest valid bytes l =
    let hash = key_hash crypto name (alg_ed25519 ∷ crypto.public_of_seed seed) in
    let lacks = (is_valid_name-Lacks name valid).3 in
    rw (
      chop_fields-key_text (codes "PRIVATE") (codes "KEY") name (format_hex8 hash)
          (encode (alg_ed25519 ∷ seed)) (ground arith) (ground arith) lacks
          (format_hex8-Lacks hash plus (omega arith)),
      length-format_hex8 hash,
      valid,
      bytes_eq_refl (codes "PRIVATE"),
      bytes_eq_refl (codes "KEY"),
      parse_uint32-format_hex8 hash (key_hash-lt crypto name _ digest),
      decode-encode (alg_ed25519 ∷ seed) (omega arith, bytes),
      verifier_of_parsed-seed crypto name seed l,
    )
