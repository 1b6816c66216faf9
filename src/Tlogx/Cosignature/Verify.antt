-- ===== src/Tlogx/Cosignature/Verify.antt =====
-- The signatures of internal/tlogx/cosignature.go and their verification.
use litetlog.Prelude.{
  ℕ, ◌^◌, ◌<◌, ◌≡◌, inl, inr, true, some, ◌++◌, length, Bytes, Bool-cases, ⊎-cases, inr_injective,
  subst,
}
use litetlog.Std.Binary.{append_uint64, uint64-append_uint64, length-append_uint64}
use litetlog.Tlogx.Cosignature.{
  Crypto, PrivateKey, is_valid_name, CosignatureSigner, signature_size, format_cosignature, sign_at,
  verify_at, verify_cosignature, new_cosignature_signer,
}

-- The key signs with 64 bytes that `ed25519.Verify` accepts for its public key `k`.
pub record SignsFor (crypto : Crypto) (key : PrivateKey) (k : Bytes) : Type 0 where
  pub size : (m s : Bytes) → key.sign m ≡ inr s → length s ≡ signature_size
  pub verifies : (m s : Bytes) → key.sign m ≡ inr s → crypto.ed25519_verify k m s ≡ true

record Signed (key : PrivateKey) (t : ℕ) (msg sig : Bytes) : Type 0 where
  message : Bytes
  signature : Bytes
  formats : format_cosignature t msg ≡ inr message
  signs : key.sign message ≡ inr signature
  sig_is : sig ≡ append_uint64 t ++ signature

message-Signed :
    (key : PrivateKey) (t : ℕ) (msg m : Bytes) {sig : Bytes}
    → format_cosignature t msg ≡ inr m
    → sign_at key t msg ≡ inr sig
    → Signed key t msg sig
unfolding sign_at
message-Signed key t msg m {sig} f e = elim (⊎-cases (key.sign m)) [
  | inl (x, k) ↦ cc (rw (f, k, sign_at) at e)
  | inr (s, k) ↦ record {
    message = m;
    signature = s;
    formats = f;
    signs = k;
    sig_is = cc (rw (f, k, sign_at) at e);
  }
]

sign_at-Signed :
    (key : PrivateKey) (t : ℕ) (msg : Bytes) {sig : Bytes}
    → sign_at key t msg ≡ inr sig
    → Signed key t msg sig
unfolding sign_at
sign_at-Signed key t msg {sig} e = elim (⊎-cases (format_cosignature t msg)) [
  | inl (x, f) ↦ cc (rw (f, sign_at) at e)
  | inr (m, f) ↦ message-Signed key t msg m f e
]

module _ (crypto : Crypto) (key : PrivateKey) (k : Bytes) (signs : SignsFor crypto key k) where
  verify_cosignature-sign_at :
      (t : ℕ) (msg : Bytes) {sig : Bytes}
      → t < 2 ^ 64
      → sign_at key t msg ≡ inr sig
      → verify_cosignature crypto k msg sig ≡ true
  unfolding verify_cosignature
  verify_cosignature-sign_at t msg {sig} h e =
      let s = sign_at-Signed key t msg e in
      rw (
        s.sig_is,
        length-append_uint64 t s.signature,
        signs.size s.message s.signature s.signs,
        uint64-append_uint64 t s.signature h,
        verify_at,
        s.formats,
        signs.verifies s.message s.signature s.signs,
      )

  -- Where the private key signs every message with 64 bytes that ed25519.Verify accepts for its
  -- public key, a cosignature that a signer of NewCosignatureV1Signer makes at a time below 2^64
  -- is verified by the verifier of that signer.
  pub verify-sign :
      (name : Bytes) (s : CosignatureSigner) (t : ℕ) (msg : Bytes) {sig : Bytes}
      → key.public ≡ some k
      → new_cosignature_signer crypto name key ≡ inr s
      → t < 2 ^ 64
      → s.sign t msg ≡ inr sig
      → s.verifier.verify msg sig ≡ true
  unfolding new_cosignature_signer
  verify-sign name s t msg {sig} p made h e = elim (Bool-cases (is_valid_name name)) [
    | inl valid ↦
        let same = inr_injective (rw (valid, p) at made) in
        subst (λ (x : CosignatureSigner). x.sign t msg ≡ inr sig → x.verifier.verify msg sig ≡ true)
          same (verify_cosignature-sign_at t msg h) e
    | inr invalid ↦ cc (rw invalid at made)
  ]
