-- ===== src/Tlogx/Demo/Keys.antt =====
-- Keys and cosignatures of internal/tlogx, as examples.
use litetlog.Prelude.{
  ℕ, ◌%◌, ◌≡◌, ◌≢◌, refl, sym, ap, ◌∙◌, inr, true, some, [], ◌∷◌, ◌++◌, replicate, length, Bytes,
  codes, bytes_eq, bytes_eq_refl, All, Lacks, arith, inr_injective,
}
use litetlog.Std.Strings.{cut, split_n, count, ends_with}
use litetlog.Std.Strconv.{format_int, parse_int, scan, digits_onto}
use litetlog.Std.Base64.{IsByte, decode, encode}
use litetlog.Std.Binary.{append_uint64}
use litetlog.Std.Utf8.{runes, read_byte, emit, has_space, is_space, is_rune}
use litetlog.Tlogx.Checkpoint.{parse_checkpoint}
use litetlog.Tlogx.Cosignature.{
  Crypto, PrivateKey, CosignatureSigner, alg_cosignature, plus, is_valid_name, has_spaces, key_hash,
  format_cosignature, sign_at, verify_cosignature, new_cosignature_signer,
}
use litetlog.Tlogx.Cosignature.Message.{SameHead, format_cosignature-SameHead}
use litetlog.Tlogx.Cosignature.Name.{is_valid_name-Lacks}
use litetlog.Tlogx.Cosignature.Verify.{SignsFor, verify-sign}
use litetlog.Tlogx.Note.{alg_ed25519, new_verifier_from_signer}
use litetlog.Tlogx.Note.Parse.{IsDigest, generated_text, new_verifier_from_signer-generated_text}
use litetlog.Tlogx.Demo.{demo_text}

-- A signature is the length of the message, 64 times.
abbrev signature_of : Bytes → Bytes
signature_of m = replicate 64 (length m % 256)

abbrev demo_crypto : Crypto
demo_crypto = record {
  sha256 = λ m. replicate 32 7;
  ed25519_verify = λ k m s. bytes_eq s (signature_of m);
  public_of_seed = λ seed. seed;
}

abbrev demo_key : Bytes
demo_key = replicate 32 9

abbrev demo_private : PrivateKey
demo_private = record { public = some demo_key; sign = λ m. inr (signature_of m) }

demo-SignsFor : SignsFor demo_crypto demo_private demo_key
demo-SignsFor = record {
  size = λ m s e. ap (length {A = ℕ}) (sym (inr_injective {A = Bytes} e));
  verifies = λ m s e.
      ap (λ x. bytes_eq x (signature_of m)) (sym (inr_injective {A = Bytes} e))
      ∙ bytes_eq_refl (signature_of m);
}

abbrev demo_name : Bytes
demo_name = codes "example.com/w"

demo_name_valid : is_valid_name demo_name ≡ true
unfolding is_valid_name has_spaces runes read_byte emit has_space is_space is_rune cut
demo_name_valid = refl

is_valid_name-Lacks_example :
    (demo_name ≢ []) × Lacks b'\n' demo_name × Lacks b' ' demo_name × Lacks plus demo_name
is_valid_name-Lacks_example = is_valid_name-Lacks demo_name demo_name_valid

-- The lines that are signed at time 5.
abbrev demo_message : Bytes
demo_message =
    codes "cosignature/v1\ntime 5\nlog\n27\nAAAAAAAAAAAAAAAAAAAAAAAAAAAAAAAAAAAAAAAAAAA=\n"

abbrev other_text : Bytes
other_text = codes "log\n27\nAAAAAAAAAAAAAAAAAAAAAAAAAAAAAAAAAAAAAAAAAAA=\nz\n"

demo_formats : format_cosignature 5 demo_text ≡ inr demo_message
unfolding format_cosignature parse_checkpoint parse_int format_int digits_onto scan decode encode
    count ends_with split_n cut bytes_eq
demo_formats = refl

other_formats : format_cosignature 5 other_text ≡ inr demo_message
unfolding format_cosignature parse_checkpoint parse_int format_int digits_onto scan decode encode
    count ends_with split_n cut bytes_eq
other_formats = refl

format_cosignature-SameHead_example : (◌≡◌ {A = ℕ} 5 5) × SameHead demo_text other_text
format_cosignature-SameHead_example =
    format_cosignature-SameHead 5 5 demo_text other_text (omega arith) (omega arith) demo_formats
      other_formats

abbrev demo_signer : CosignatureSigner
demo_signer = record {
  verifier = record {
    name = demo_name;
    hash = key_hash demo_crypto demo_name (alg_cosignature ∷ demo_key);
    verify = verify_cosignature demo_crypto demo_key;
  };
  sign = sign_at demo_private;
}

demo_signer_made : new_cosignature_signer demo_crypto demo_name demo_private ≡ inr demo_signer
unfolding new_cosignature_signer
demo_signer_made = rw demo_name_valid

demo_signs : sign_at demo_private 5 demo_text ≡ inr (append_uint64 5 ++ signature_of demo_message)
unfolding sign_at
demo_signs = rw (demo_formats, sign_at)

verify-sign_example :
    demo_signer.verifier.verify demo_text (append_uint64 5 ++ signature_of demo_message) ≡ true
verify-sign_example =
    verify-sign demo_crypto demo_private demo_key demo-SignsFor demo_name demo_signer 5 demo_text
      refl demo_signer_made (omega arith) demo_signs

demo-IsDigest : IsDigest demo_crypto
demo-IsDigest m = ground arith

demo_key_bytes : All IsByte demo_key
demo_key_bytes = ground arith

new_verifier_from_signer-generated_text_example :
    new_verifier_from_signer demo_crypto (generated_text demo_crypto demo_name demo_key)
    ≡ inr (record {
      name = demo_name;
      hash = key_hash demo_crypto demo_name (alg_ed25519 ∷ demo_key);
      verify = demo_crypto.ed25519_verify demo_key;
    })
new_verifier_from_signer-generated_text_example =
    new_verifier_from_signer-generated_text demo_crypto demo_name demo_key demo-IsDigest
      demo_name_valid demo_key_bytes refl
