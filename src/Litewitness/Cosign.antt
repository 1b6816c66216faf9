-- ===== src/Litewitness/Cosign.antt =====
-- The cosignatures that cmd/litewitness/litewitness.go makes with the key of its agent.
use litetlog.Prelude.{
  ℕ, ◌<◌, ◌^◌, ◌≡◌, refl, sym, ap, subst, ◌∙◌, inr, inr_injective, true, some, none, List, [], ◌∷◌,
  ◌++◌, length, Bytes, All,
}
use litetlog.Tlogx.Cosignature.{Crypto, CosignatureSigner, signature_size, new_cosignature_signer}
use litetlog.Tlogx.Cosignature.Verify.{SignsFor, verify-sign}
use litetlog.Litewitness.{
  AgentKey, Library, Parsed, unparsed, unretrieved, retrieved, Signer, chosen, new_signer, hash_of,
  connect_to_ssh_agent, sign, private_key,
}
use litetlog.Litewitness.Choice.{Means, connect_to_ssh_agent-Means}

module _ (lib : Library) (crypto : Crypto) where
  -- Where the key is an Ed25519 key, the agent's signatures are 64 bytes that ed25519.Verify accepts.
  abbrev pub IsHonest : AgentKey → Type 0
  IsHonest k =
      (p : Bytes)
      → lib.parse_public_key k.marshalled ≡ retrieved (some p)
      → (m s : Bytes) → k.sign m ≡ inr s
      → (length s ≡ signature_size) × (crypto.ed25519_verify p m s ≡ true)

  All-at :
      (before : List AgentKey) (at : AgentKey) (after : List AgentKey)
      → All IsHonest (before ++ (at ∷ after))
      → IsHonest at
  All-at [] at after (h, more) = h
  All-at (x ∷ before) at after (h, more) = All-at before at after more

  -- A signer is made of a key and its public key.
  new_signer-retrieved :
      (k : AgentKey) (parsed : Parsed) {ss : Signer}
      → lib.parse_public_key k.marshalled ≡ parsed
      → new_signer lib k ≡ inr ss
      → (lib.parse_public_key k.marshalled ≡ retrieved (some ss.public)) × (ss.key ≡ k)
  unfolding new_signer
  new_signer-retrieved k unparsed e h = cc (rw (e, new_signer) at h)
  new_signer-retrieved k unretrieved e h = cc (rw (e, new_signer) at h)
  new_signer-retrieved k (retrieved none) e h = cc (rw (e, new_signer) at h)
  new_signer-retrieved k (retrieved (some p)) {ss} e h =
      let same : record { key = k; public = p } ≡ ss =
        inr_injective {A = Bytes} (rw (e, new_signer) at h) in
      (
        e ∙ ap (λ (x : Signer). retrieved (some x.public)) same,
        sym (ap (λ (x : Signer). x.key) same),
      )

  signer-SignsFor :
      (ss : Signer)
      → lib.parse_public_key ss.key.marshalled ≡ retrieved (some ss.public)
      → IsHonest ss.key
      → SignsFor crypto (private_key ss) ss.public
  unfolding private_key sign
  signer-SignsFor ss parsed honest = record {
    size = λ m s e. (honest ss.public parsed m s e).0;
    verifies = λ m s e. (honest ss.public parsed m s e).1;
  }

  -- If the agent signs with each Ed25519 key by 64 bytes that ed25519.Verify accepts for it, a
  -- cosignature that the witness makes at a time below 2^64 with the key that connectToSSHAgent
  -- has chosen is verified by the verifier of NewCosignatureV1Signer, and the hash of that key in
  -- hexadecimal is the flag.
  pub verify-agent_cosignature :
      (flag : Bytes) (signers : List AgentKey) (ss : Signer) (name : Bytes) (s : CosignatureSigner)
      (t : ℕ) (text : Bytes) {sig : Bytes}
      → All IsHonest signers
      → connect_to_ssh_agent lib flag (inr signers) ≡ chosen ss
      → new_cosignature_signer crypto name (private_key ss) ≡ inr s
      → t < 2 ^ 64
      → s.sign t text ≡ inr sig
      → (s.verifier.verify text sig ≡ true) × (hash_of lib ss.public ≡ flag)
  unfolding private_key
  verify-agent_cosignature flag signers ss name s t text honest picks made fits signs =
      let (stops, own) =
        subst (Means lib flag signers) picks (connect_to_ssh_agent-Means lib flag signers) in
      let (parsed, key) =
        new_signer-retrieved stops.at (lib.parse_public_key stops.at.marshalled) refl
          stops.result in
      let good : IsHonest stops.at =
        All-at stops.before stops.at stops.after (subst (All IsHonest) stops.splits honest) in
      let signs_for =
        signer-SignsFor ss
          (subst (λ (k : AgentKey). lib.parse_public_key k.marshalled ≡ retrieved (some ss.public))
            (sym key) parsed)
          (subst IsHonest (sym key) good) in
      (
        verify-sign crypto (private_key ss) ss.public signs_for name s t text refl made fits signs,
        own,
      )
