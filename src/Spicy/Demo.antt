-- ===== src/Spicy/Demo.antt =====
-- A concrete library for cmd/spicy/spicy.go. A record's hash is its length, and only leaves are
-- stored, so that a tree is of one record at most.
mod Laws
mod Runs
mod Reads
use litetlog.Prelude.{
  ℕ, zero, suc, ◌%◌, ◌≡◌, refl, Bool, true, false, Option, none, some, ◌⊎◌, inl, inr, List, [], ◌∷◌,
  ◌++◌, ◌>>=◌, if◌then◌else◌, replicate, length, Bytes, codes, bytes_eq, ℤ, pos, negsuc,
}
use litetlog.Std.Base64.{encode}
use litetlog.Std.Hex.{parse_uint32}
use litetlog.Tlogx.Checkpoint.{parse_hash}
use litetlog.Tlogx.Cosignature.{Crypto, NoteVerifier, key_hash}
use litetlog.Tlogx.Edge.{right_edge}
use litetlog.Tlogx.Note.{alg_ed25519, chop_fields}
use litetlog.Witness.Library.{Signer}
use litetlog.Witness.Process.{zero_hash}
use litetlog.Spicy.Library.{Library, Reader}
use litetlog.Spicy.Append.Laws.{nth}

abbrev pub demo_crypto : Crypto
demo_crypto = record {
  sha256 = λ m. replicate 32 7;
  ed25519_verify = λ k m s. bytes_eq s (1 ∷ m);
  public_of_seed = λ seed. seed;
}

abbrev pub demo_name : Bytes
demo_name = codes "a/b"

abbrev pub demo_seed : Bytes
demo_seed = replicate 32 9

-- The text of a key with that seed.
abbrev pub demo_skey : Bytes
demo_skey = codes "PRIVATE+KEY+a/b+07070707+AQkJCQkJCQkJCQkJCQkJCQkJCQkJCQkJCQkJCQkJCQkJ"

abbrev pub demo_verifier : NoteVerifier
demo_verifier = record {
  name = demo_name;
  hash = key_hash demo_crypto demo_name (alg_ed25519 ∷ demo_seed);
  verify = demo_crypto.ed25519_verify demo_seed;
}

abbrev pub demo_index : ℕ → ℤ → ℤ
demo_index zero n = n
demo_index (suc level) n = negsuc level

abbrev pub leaf : Bytes → Bytes
leaf f = replicate 32 (length f % 256)

abbrev pub is_leaf : List Bytes → Bytes → Bool
is_leaf (x ∷ []) h = bytes_eq x h
is_leaf _ h = false

unfoldable pub demo_tree_hash : ℕ → Reader → Option Bytes
demo_tree_hash size reader = do
  idx ← right_edge demo_index (pos size)
  list ← reader idx
  some zero_hash

unfoldable pub demo_new_signer : Bytes → Option Signer
demo_new_signer skey = do
  hash ← parse_uint32 (chop_fields skey).hash16
  some (record { name = (chop_fields skey).name; key_hash = hash; sign = λ m. inr (1 ∷ m) })

abbrev pub demo : Library
demo = record {
  crypto = demo_crypto;
  new_verifier = λ key. some demo_verifier;
  open_note = λ message v. some message;
  sign_note = λ text s. some text;
  new_signer = demo_new_signer;
  generate_key = λ name. if bytes_eq name demo_name then some (demo_skey, codes "key") else none;
  parse_hash = parse_hash;
  hash_text = encode;
  record_hash = leaf;
  stored_hash_index = demo_index;
  stored_hashes = λ n f reader. some (leaf f ∷ []);
  tree_hash = demo_tree_hash;
  prove_record = λ size n reader. reader (pos n ∷ []);
  check_record = λ proof size hash id h. is_leaf proof h;
}

abbrev pub demo_stored : List Bytes → ℤ → Option Bytes
demo_stored es (pos n) = do f ← nth es n; some (leaf f)
demo_stored es (negsuc n) = none
