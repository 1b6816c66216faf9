-- ===== src/Litewitness/Choice.antt =====
-- Which key of the agent cmd/litewitness/litewitness.go signs with.
use litetlog.Prelude.{
  ◌≡◌, ◌≢◌, refl, ap, ◌⊎◌, inl, inr, false, List, [], ◌∷◌, ◌++◌, Bytes, bytes_eq, bytes_eq_iff, All,
  Bool-cases, ⊎-cases,
}
use litetlog.Litewitness.{
  AgentKey, Library, key_algo_ed25519, Signer, Chosen, chosen, missing, failed, new_signer, hash_of,
  choose_from, connect_to_ssh_agent,
}

module _ (lib : Library) (flag : Bytes) where
  -- A key that the loop goes past: of another type, or with another hash.
  abbrev pub Passed : AgentKey → Type 0
  Passed s =
      (s.key_type ≢ key_algo_ed25519)
      ⊎ ((ss : Signer) × (new_signer lib s ≡ inr ss) × (hash_of lib ss.public ≢ flag))

  -- The first key of the type that is not passed, and the keys in front of it.
  pub record Stops (signers : List AgentKey) (r : Bytes ⊎ Signer) : Type 0 where
    pub before : List AgentKey
    pub at : AgentKey
    pub after : List AgentKey
    pub splits : signers ≡ before ++ (at ∷ after)
    pub passed : All Passed before
    pub right_type : at.key_type ≡ key_algo_ed25519
    pub result : new_signer lib at ≡ r

  -- What each result means.
  abbrev pub Means : List AgentKey → Chosen → Type 0
  Means signers (chosen ss) = Stops signers (inr ss) × (hash_of lib ss.public ≡ flag)
  Means signers (missing keys) = All Passed signers
  Means signers (failed message) = Stops signers (inl message)

  Stops-cons :
      (s : AgentKey) (signers : List AgentKey) (r : Bytes ⊎ Signer)
      → Passed s
      → Stops signers r
      → Stops (s ∷ signers) r
  Stops-cons s signers r p t = record {
    before = s ∷ t.before;
    at = t.at;
    after = t.after;
    splits = ap (λ x. s ∷ x) t.splits;
    passed = (p, t.passed);
    right_type = t.right_type;
    result = t.result;
  }

  Means-cons :
      (s : AgentKey) (signers : List AgentKey) (r : Chosen)
      → Passed s
      → Means signers r
      → Means (s ∷ signers) r
  Means-cons s signers (chosen ss) p (t, own) = (Stops-cons s signers (inr ss) p t, own)
  Means-cons s signers (missing keys) p t = (p, t)
  Means-cons s signers (failed message) p t = Stops-cons s signers (inl message) p t

  at_once :
      (s : AgentKey) (signers : List AgentKey) (r : Bytes ⊎ Signer)
      → s.key_type ≡ key_algo_ed25519
      → new_signer lib s ≡ r
      → Stops (s ∷ signers) r
  at_once s signers r t e = record {
    before = [];
    at = s;
    after = signers;
    splits = refl;
    passed = tt;
    right_type = t;
    result = e;
  }

  unequal : (a b : Bytes) → bytes_eq a b ≡ false → a ≢ b
  unequal a b h e = cc ((bytes_eq_iff a b).1 e, h)

  choose_from-Means :
      (keys : List Bytes) (signers : List AgentKey)
      → Means signers (choose_from lib flag keys signers)
  unfolding choose_from
  choose_from-Means keys [] = tt
  choose_from-Means keys (s ∷ signers) = elim (Bool-cases (bytes_eq s.key_type key_algo_ed25519)) [
    | inr other ↦ rw other (
        Means-cons s signers _ (inl (unequal s.key_type key_algo_ed25519 other))
          (choose_from-Means keys signers))
    | inl own ↦
        let right = (bytes_eq_iff s.key_type key_algo_ed25519).0 own in
        elim (⊎-cases (new_signer lib s)) [
          | inl (message, e) ↦ rw (own, e) (at_once s signers (inl message) right e)
          | inr (ss, e) ↦ elim (Bool-cases (bytes_eq (hash_of lib ss.public) flag)) [
            | inl same ↦
                rw (own, e, same)
                  (
                    at_once s signers (inr ss) right e,
                    (bytes_eq_iff (hash_of lib ss.public) flag).0 same,
                  )
            | inr differs ↦
                rw (own, e, differs)
                  (Means-cons s signers _
                    (inr (ss, e, unequal (hash_of lib ss.public) flag differs))
                    (choose_from-Means (keys ++ (hash_of lib ss.public ∷ [])) signers))
          ]
        ]
  ]

  -- Of the keys that the agent lists, connectToSSHAgent takes the first Ed25519 key whose hash in
  -- hexadecimal is the flag, all Ed25519 keys in front of it being made signers of and having
  -- other hashes; it reports that none was found only if every Ed25519 key can be made a signer of
  -- and has another hash; and it fails only with the error of newSigner for the first Ed25519 key
  -- that is not such.
  pub connect_to_ssh_agent-Means :
      (signers : List AgentKey) → Means signers (connect_to_ssh_agent lib flag (inr signers))
  unfolding connect_to_ssh_agent
  connect_to_ssh_agent-Means signers = choose_from-Means [] signers
