-- ===== src/Tlogx/Cosignature.antt =====
-- internal/tlogx/cosignature.go: the signer of cosignatures, its messages, and the names and hashes
-- of keys.
pub mod Message
pub mod Verify
pub mod Name
use litetlog.Prelude.{
  ℕ, ◌+◌, ◌⊎◌, inl, inr, Bool, true, false, not, ◌&&◌, Option, none, some, List, [], ◌∷◌, ◌++◌,
  ◌==◌, if◌then◌else◌, length, is_empty, Bytes, codes,
}
use litetlog.Std.Strings.{cut}
use litetlog.Std.Strconv.{format_int}
use litetlog.Std.Base64.{encode}
use litetlog.Std.Binary.{append_uint64, uint64, uint32}
use litetlog.Std.Utf8.{fresh, runes, has_space}
use litetlog.Tlogx.Checkpoint.{newline, Checkpoint, parse_checkpoint}

-- `sha256.Sum256`, `ed25519.Verify` of a key, a message and a signature, and the public key of
-- `ed25519.NewKeyFromSeed`.
pub record Crypto : Type 0 where
  pub sha256 : Bytes → Bytes
  pub ed25519_verify : Bytes → Bytes → Bytes → Bool
  pub public_of_seed : Bytes → Bytes

-- A `crypto.Signer`: its public key if that is an Ed25519 key, and `Sign` with no hash, which
-- returns a signature or an error's text on the left.
pub record PrivateKey : Type 0 where
  pub public : Option Bytes
  pub sign : Bytes → Bytes ⊎ Bytes

-- `verifier`.
pub record NoteVerifier : Type 0 where
  pub name : Bytes
  pub hash : ℕ
  pub verify : Bytes → Bytes → Bool

-- `CosignatureV1Signer`; `sign` gets the Unix time at which it is called.
pub record CosignatureSigner : Type 0 where
  pub verifier : NoteVerifier
  pub sign : ℕ → Bytes → Bytes ⊎ Bytes

abbrev pub alg_cosignature : ℕ
alg_cosignature = 4

-- `ed25519.SignatureSize`.
abbrev pub signature_size : ℕ
signature_size = 64

abbrev pub plus : ℕ
plus = b'+'

unfoldable pub has_spaces : Bytes → Bool
has_spaces name = elim (runes fresh name) [ some rs ↦ has_space rs | none ↦ true ]

-- `IndexFunc` is reached for valid strings only.
unfoldable pub is_valid_name : Bytes → Bool
unfolding has_spaces
is_valid_name name = not (is_empty name) && (not (has_spaces name) && not (cut plus name).found)

unfoldable pub key_hash : Crypto → Bytes → Bytes → ℕ
key_hash crypto name key = uint32 (crypto.sha256 (name ++ (newline ∷ key)))

unfoldable pub format_cosignature : ℕ → Bytes → Bytes ⊎ Bytes
format_cosignature t msg = elim (parse_checkpoint msg) [
  | none ↦ inl (codes "message being signed is not a valid checkpoint: malformed checkpoint")
  | some c ↦ inr (
      codes "cosignature/v1\ntime "
      ++ (format_int t
          ++ (newline
              ∷ (c.origin
                  ++ (newline
                      ∷ (format_int c.size ++ (newline ∷ (encode c.hash ++ (newline ∷ [])))))))))
]

-- The signature is the time and the signature of the message.
unfoldable pub sign_at : PrivateKey → ℕ → Bytes → Bytes ⊎ Bytes
sign_at key t msg = elim (format_cosignature t msg) [
  | inl e ↦ inl e
  | inr m ↦ elim (key.sign m) [ inl e ↦ inl e | inr s ↦ inr (append_uint64 t ++ s) ]
]

verify_at : Crypto → Bytes → Bytes → Option (ℕ × Bytes) → Bool
verify_at crypto k msg none = false
verify_at crypto k msg (some (t, s)) = elim (format_cosignature t msg) [
  | inl _ ↦ false
  | inr m ↦ crypto.ed25519_verify k m s
]

unfoldable pub verify_cosignature : Crypto → Bytes → Bytes → Bytes → Bool
unfolding verify_at
verify_cosignature crypto k msg sig =
    if not (length sig == 8 + signature_size) then false else verify_at crypto k msg (uint64 sig)

unfoldable pub new_cosignature_signer : Crypto → Bytes → PrivateKey → Bytes ⊎ CosignatureSigner
new_cosignature_signer crypto name key =
    if not (is_valid_name name) then inl (codes "invalid name") else elim key.public [
      | none ↦ inl (codes "key type is not Ed25519")
      | some k ↦ inr (record {
        verifier = record {
          name = name;
          hash = key_hash crypto name (alg_cosignature ∷ k);
          verify = verify_cosignature crypto k;
        };
        sign = sign_at key;
      })
    ]
