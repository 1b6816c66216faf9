-- ===== src/Tlogx/Note.antt =====
-- internal/tlogx/note.go: the verifier of a signer's text.
pub mod Parse
pub mod Text
pub mod Sound
use litetlog.Prelude.{
  ℕ, ◌⊎◌, inl, inr, Bool, true, false, not, ◌&&◌, ◌||◌, Option, none, some, List, [], ◌∷◌, ◌++◌,
  ◌==◌, if◌then◌else◌, length, is_empty, Bytes, codes, bytes_eq,
}
use litetlog.Std.Strings.{cut}
use litetlog.Std.Hex.{parse_uint32}
use litetlog.Std.Base64.{decode}
use litetlog.Tlogx.Cosignature.{Crypto, NoteVerifier, plus, is_valid_name, key_hash}

abbrev pub alg_ed25519 : ℕ
alg_ed25519 = 1

-- `chop` at a plus.
abbrev pub chop : Bytes → Bytes × Bytes
chop s = ((cut plus s).before, (cut plus s).after)

-- The fields of a signer's text.
pub record Fields : Type 0 where
  pub priv1 : Bytes
  pub priv2 : Bytes
  pub name : Bytes
  pub hash16 : Bytes
  pub key64 : Bytes

unfoldable pub chop_fields : Bytes → Fields
chop_fields skey =
    let a = chop skey in
    let b = chop a.1 in
    let c = chop b.1 in
    let d = chop c.1 in record { priv1 = a.0; priv2 = b.0; name = c.0; hash16 = d.0; key64 = d.1 }

-- From the decoded key on.
unfoldable pub verifier_of : Crypto → Bytes → ℕ → Bytes → Bytes ⊎ NoteVerifier
verifier_of crypto name hash [] = inl (codes "malformed verifier id")
verifier_of crypto name hash (alg ∷ key) =
    if not (alg == alg_ed25519)
    then inl (codes "unknown verifier algorithm")
    else if not (length key == 32)
    then inl (codes "malformed verifier id")
    else if not (hash == key_hash crypto name (alg_ed25519 ∷ crypto.public_of_seed key))
    then inl (codes "invalid verifier hash")
    else inr (record {
      name = name;
      hash = hash;
      verify = crypto.ed25519_verify (crypto.public_of_seed key);
    })

-- `err1` and `err2`, once the other tests are passed.
unfoldable pub verifier_of_parsed : Crypto → Bytes → Option ℕ → Option Bytes → Bytes ⊎ NoteVerifier
unfolding verifier_of
verifier_of_parsed crypto name (some hash) (some key) = verifier_of crypto name hash key
verifier_of_parsed crypto name _ _ = inl (codes "malformed verifier id")

-- The tests on the fields.
unfoldable pub verifier_of_fields : Crypto → Fields → Bytes ⊎ NoteVerifier
verifier_of_fields crypto f =
    if not (bytes_eq f.priv1 (codes "PRIVATE"))
      || (not (bytes_eq f.priv2 (codes "KEY"))
          || (not (length f.hash16 == 8) || not (is_valid_name f.name)))
    then inl (codes "malformed verifier id")
    else verifier_of_parsed crypto f.name (parse_uint32 f.hash16) (decode f.key64)

unfoldable pub new_verifier_from_signer : Crypto → Bytes → Bytes ⊎ NoteVerifier
new_verifier_from_signer crypto skey = verifier_of_fields crypto (chop_fields skey)
