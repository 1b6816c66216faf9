-- ===== src/Litewitness/Demo.antt =====
-- An agent with three keys for cmd/litewitness/litewitness.go.
use litetlog.Prelude.{
  ℕ, ◌%◌, ◌≡◌, refl, sym, ap, ◌∙◌, inr, inr_injective, true, some, List, [], ◌∷◌, ◌++◌, replicate,
  length, Bytes, codes, bytes_eq, bytes_eq_refl, arith,
}
use litetlog.Std.Base64.{encode, decode}
use litetlog.Std.Binary.{append_uint64}
use litetlog.Std.Hex.{encode_hex}
use litetlog.Std.Strings.{cut, split_n, count, ends_with}
use litetlog.Std.Strconv.{format_int, parse_int, scan, digits_onto}
use litetlog.Std.Utf8.{runes, read_byte, emit, has_space, is_space, is_rune}
use litetlog.Tlogx.Checkpoint.{parse_checkpoint}
use litetlog.Tlogx.Cosignature.{
  Crypto, CosignatureSigner, alg_cosignature, is_valid_name, has_spaces, key_hash,
  format_cosignature, sign_at, verify_cosignature, new_cosignature_signer,
}
use litetlog.Litewitness.{
  AgentKey, Library, retrieved, key_algo_ed25519, Signer, chosen, new_signer, hash_of, choose_from,
  connect_to_ssh_agent, sign, private_key,
}
use litetlog.Litewitness.Choice.{Means, connect_to_ssh_agent-Means}
use litetlog.Litewitness.Cosign.{IsHonest, verify-agent_cosignature}

abbrev signature_of : Bytes → Bytes
signature_of m = replicate 64 (length m % 256)

abbrev demo_crypto : Crypto
demo_crypto = record {
  sha256 = λ m. replicate 32 (length m % 256);
  ed25519_verify = λ k m s. bytes_eq s (signature_of m);
  public_of_seed = λ seed. seed;
}

abbrev demo : Library
demo = record { sha256 = demo_crypto.sha256; parse_public_key = λ b. retrieved (some b) }

abbrev key_of : Bytes → Bytes → AgentKey
key_of key_type b = record { key_type = key_type; marshalled = b; sign = λ m. inr (signature_of m) }

abbrev signers : List AgentKey
signers =
    key_of (codes "ssh-rsa") (codes "r")
    ∷ key_of key_algo_ed25519 (codes "first")
    ∷ key_of key_algo_ed25519 (codes "second")
    ∷ []

abbrev flag : Bytes
flag = codes "0606060606060606060606060606060606060606060606060606060606060606"

abbrev second : Signer
second = record { key = key_of key_algo_ed25519 (codes "second"); public = codes "second" }

demo_picks : connect_to_ssh_agent demo flag (inr signers) ≡ chosen second
unfolding connect_to_ssh_agent choose_from new_signer bytes_eq encode_hex
demo_picks = refl

connect_to_ssh_agent-Means_example :
    Means demo flag signers (connect_to_ssh_agent demo flag (inr signers))
connect_to_ssh_agent-Means_example = connect_to_ssh_agent-Means demo flag signers

honest : (key_type b : Bytes) → IsHonest demo demo_crypto (key_of key_type b)
honest key_type b p parsed m s e = (
  ap (length {A = ℕ}) (sym (inr_injective {A = Bytes} e)),
  ap (λ x. bytes_eq x (signature_of m)) (sym (inr_injective {A = Bytes} e))
      ∙ bytes_eq_refl (signature_of m),
)

abbrev demo_name : Bytes
demo_name = codes "w"

abbrev demo_signer : CosignatureSigner
demo_signer = record {
  verifier = record {
    name = demo_name;
    hash = key_hash demo_crypto demo_name (alg_cosignature ∷ codes "second");
    verify = verify_cosignature demo_crypto (codes "second");
  };
  sign = sign_at (private_key second);
}

demo_name_valid : is_valid_name demo_name ≡ true
unfolding is_valid_name has_spaces runes read_byte emit has_space is_space is_rune cut
demo_name_valid = refl

demo_makes : new_cosignature_signer demo_crypto demo_name (private_key second) ≡ inr demo_signer
unfolding new_cosignature_signer private_key
demo_makes = rw demo_name_valid refl

abbrev text : Bytes
text = codes "log\n27\nAAAAAAAAAAAAAAAAAAAAAAAAAAAAAAAAAAAAAAAAAAA=\n"

abbrev message : Bytes
message = codes "cosignature/v1\ntime 5\nlog\n27\nAAAAAAAAAAAAAAAAAAAAAAAAAAAAAAAAAAAAAAAAAAA=\n"

demo_formats : format_cosignature 5 text ≡ inr message
unfolding format_cosignature parse_checkpoint parse_int format_int digits_onto scan decode encode
    count ends_with split_n cut bytes_eq
demo_formats = refl

demo_signs : sign_at (private_key second) 5 text ≡ inr (append_uint64 5 ++ signature_of message)
unfolding sign_at private_key sign
demo_signs = rw (demo_formats, sign_at) refl

verify-agent_cosignature_example :
    (demo_signer.verifier.verify text (append_uint64 5 ++ signature_of message) ≡ true)
    × (hash_of demo (codes "second") ≡ flag)
verify-agent_cosignature_example =
    verify-agent_cosignature demo demo_crypto flag signers second demo_name demo_signer 5 text
      (
        honest (codes "ssh-rsa") (codes "r"),
        (honest key_algo_ed25519 (codes "first"), (honest key_algo_ed25519 (codes "second"), tt)),
      )
      demo_picks demo_makes (omega arith) demo_signs
