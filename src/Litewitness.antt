-- ===== src/Litewitness.antt =====
-- cmd/litewitness/litewitness.go: the key that the witness signs with, which an ssh-agent holds, and
-- the bastions that it connects to. golang.org/x/crypto/ssh is a parameter.
pub mod Choice
pub mod Cosign
pub mod Demo
use litetlog.Prelude.{
  ℕ, ◌⊎◌, inl, inr, not, Bool, Option, none, some, List, [], ◌∷◌, ◌++◌, ◌==◌, if◌then◌else◌, Bytes,
  codes, bytes_eq,
}
use litetlog.Std.Strings.{split}
use litetlog.Std.Hex.{encode_hex}
use litetlog.Tlogx.Cosignature.{PrivateKey}

-- An `ssh.Signer` of the agent: the type and the form of its public key, and its `Sign`, an error
-- or the bytes of the signature.
pub record AgentKey : Type 0 where
  pub key_type : Bytes
  pub marshalled : Bytes
  pub sign : Bytes → Bytes ⊎ Bytes

-- What `ssh.ParsePublicKey` returns: an error, a key that is no `ssh.CryptoPublicKey`, or one that
-- is, with its Ed25519 key if it is one.
pub data Parsed : Type 0 where
  unparsed unretrieved : Parsed
  retrieved : Option Bytes → Parsed

-- `sha256.Sum256` and `ssh.ParsePublicKey`.
pub record Library : Type 0 where
  pub sha256 : Bytes → Bytes
  pub parse_public_key : Bytes → Parsed

-- `ssh.KeyAlgoED25519`
abbrev pub key_algo_ed25519 : Bytes
key_algo_ed25519 = codes "ssh-ed25519"

pub record Signer : Type 0 where
  pub key : AgentKey
  pub public : Bytes

-- `Sign`, where `hash` is `opts.HashFunc()`.
unfoldable pub sign : Signer → Bytes → ℕ → Bytes ⊎ Bytes
sign s message hash =
    if not (hash == 0) then inl (codes "expected crypto.Hash(0)") else s.key.sign message

-- The signer as the witness uses it, with no hash.
unfoldable pub private_key : Signer → PrivateKey
unfolding sign
private_key s = record { public = some s.public; sign = λ message. sign s message 0 }

pub data Chosen : Type 0 where
  chosen : Signer → Chosen
  -- No key has the hash of the flag; the hashes that were found.
  missing : List Bytes → Chosen
  failed : Bytes → Chosen

module _ (lib : Library) where
  unfoldable pub new_signer : AgentKey → Bytes ⊎ Signer
  new_signer s = elim (lib.parse_public_key s.marshalled) [
    | unparsed ↦ inl (codes "internal error: ssh public key can't be parsed")
    | unretrieved ↦ inl (codes "internal error: ssh public key can't be retrieved")
    | retrieved none ↦ inl (codes "internal error: ssh public key type is not Ed25519")
    | retrieved (some p) ↦ inr (record { key = s; public = p })
  ]

  -- `hex.EncodeToString` of the hash of the public key.
  abbrev pub hash_of : Bytes → Bytes
  hash_of public = encode_hex (lib.sha256 public)

  -- The loop over the keys, with the hashes found so far.
  unfoldable pub choose_from : Bytes → List Bytes → List AgentKey → Chosen
  unfolding new_signer
  choose_from flag keys [] = missing keys
  choose_from flag keys (s ∷ signers) =
      if not (bytes_eq s.key_type key_algo_ed25519)
      then choose_from flag keys signers
      else elim (new_signer s) [
        | inl message ↦ failed message
        | inr ss ↦
            if bytes_eq (hash_of ss.public) flag
            then chosen ss
            else choose_from flag (keys ++ (hash_of ss.public ∷ [])) signers
      ]

  -- `connectToSSHAgent`, where the socket is dialed and the agent lists its keys, or an error stops
  -- the program.
  unfoldable pub connect_to_ssh_agent : Bytes → Bytes ⊎ List AgentKey → Chosen
  unfolding choose_from
  connect_to_ssh_agent flag (inl message) = failed message
  connect_to_ssh_agent flag (inr signers) = choose_from flag [] signers

-- How `connectToBastion` ends: with `errBastionDisconnected`, or with another error.
pub data Connection : Type 0 where
  disconnected : Connection
  unconnected : Bytes → Connection

-- What the program ends with.
pub data Ended : Type 0 where
  interrupted : Bytes → Ended
  none_online : Ended

-- The loop over the bastions.
unfoldable pub try_bastions : (Bytes → Connection) → List Bytes → Ended
try_bastions connect [] = none_online
try_bastions connect (bastion ∷ bastions) =
    let rest = try_bastions connect bastions in
    elim (connect bastion) [ disconnected ↦ interrupted bastion | unconnected message ↦ rest ]

unfoldable pub connect_to_bastions : (Bytes → Connection) → Bytes → Ended
unfolding try_bastions
connect_to_bastions connect flag = try_bastions connect (split b',' flag)
