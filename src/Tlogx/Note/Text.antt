-- ===== src/Tlogx/Note/Text.antt =====
-- The text of a private key, whose fields `NewVerifierFromSigner` of internal/tlogx/note.go cuts.
use litetlog.Prelude.{
  ℕ, ◌≡◌, ◌≢◌, refl, ap, ◌∙◌, inl, inr, false, some, [], ◌∷◌, ◌++◌, Bytes, codes, Lacks, arith,
  Bool-cases,
}
use litetlog.Std.Strings.{cut, cut-append, cut_found}
use litetlog.Std.Hex.{parse_uint32}
use litetlog.Std.Base64.{decode}
use litetlog.Tlogx.Cosignature.{plus}
use litetlog.Tlogx.Note.{Fields, chop_fields}

-- Five fields with a plus between them.
abbrev pub key_text : Bytes → Bytes → Bytes → Bytes → Bytes → Bytes
key_text priv1 priv2 name hash16 key64 =
    priv1 ++ (plus ∷ (priv2 ++ (plus ∷ (name ++ (plus ∷ (hash16 ++ (plus ∷ key64)))))))

-- The text of a private key of the algorithm Ed25519: the name, the key hash in hexadecimal, and
-- the base64 of the algorithm's byte and the seed.
pub record IsKeyText (skey name : Bytes) (hash : ℕ) (seed : Bytes) : Type 0 where
  pub hash16 : Bytes
  pub key64 : Bytes
  pub spells : skey ≡ key_text (codes "PRIVATE") (codes "KEY") name hash16 key64
  pub name_lacks : Lacks plus name
  pub hash_lacks : Lacks plus hash16
  pub reads_hash : parse_uint32 hash16 ≡ some hash
  pub reads_key : decode key64 ≡ some (1 ∷ seed)

pub chop_fields-key_text :
    (priv1 priv2 name hash16 key64 : Bytes)
    → Lacks plus priv1
    → Lacks plus priv2
    → Lacks plus name
    → Lacks plus hash16
    → chop_fields (key_text priv1 priv2 name hash16 key64)
      ≡ record { priv1 = priv1; priv2 = priv2; name = name; hash16 = hash16; key64 = key64 }
unfolding chop_fields
chop_fields-key_text priv1 priv2 name hash16 key64 p1 p2 n h = rw (
  cut-append plus priv1 (priv2 ++ (plus ∷ (name ++ (plus ∷ (hash16 ++ (plus ∷ key64)))))) p1,
  cut-append plus priv2 (name ++ (plus ∷ (hash16 ++ (plus ∷ key64)))) p2,
  cut-append plus name (hash16 ++ (plus ∷ key64)) n,
  cut-append plus hash16 key64 h,
)

cut_nothing : (s : Bytes) → (cut plus s).found ≡ false → (cut plus s).after ≡ []
unfolding cut
cut_nothing [] h = refl
cut_nothing (c ∷ s) h = ground (arith, cut_nothing s)

cut_empty : (s : Bytes) → (cut plus s).after ≢ [] → s ≢ []
unfolding cut
cut_empty [] ne = absurd (ne refl)
cut_empty (c ∷ s) ne = λ e. cc e

-- `chop` has found the plus if something is behind it.
cut_some :
    (s : Bytes)
    → (cut plus s).after ≢ []
    → (s ≡ (cut plus s).before ++ (plus ∷ (cut plus s).after)) × Lacks plus (cut plus s).before
cut_some s ne = elim (Bool-cases (cut plus s).found) [
  | inl found ↦ cut_found plus s found
  | inr missing ↦ absurd (ne (cut_nothing s missing))
]

-- The fields spell the text.
pub record Spelled (skey : Bytes) (f : Fields) : Type 0 where
  pub spells : skey ≡ key_text f.priv1 f.priv2 f.name f.hash16 f.key64
  pub name_lacks : Lacks plus f.name
  pub hash_lacks : Lacks plus f.hash16

pub chop_fields-Spelled :
    (skey : Bytes) → (chop_fields skey).key64 ≢ [] → Spelled skey (chop_fields skey)
unfolding chop_fields
chop_fields-Spelled skey ne =
    let a = cut plus skey in
    let b = cut plus a.after in
    let c = cut plus b.after in
    let d = cut plus c.after in
    let in_c = cut_empty c.after ne in
    let in_b = cut_empty b.after in_c in
    let (at_d, hash_lacks) = cut_some c.after ne in
    let (at_c, name_lacks) = cut_some b.after in_c in
    let (at_b, _) = cut_some a.after in_b in
    let (at_a, _) = cut_some skey (cut_empty a.after in_b) in
    record {
      spells =
          at_a
          ∙ ap (λ x. a.before ++ (plus ∷ x))
              (at_b
                ∙ ap (λ x. b.before ++ (plus ∷ x)) (at_c ∙ ap (λ x. c.before ++ (plus ∷ x)) at_d));
      name_lacks = name_lacks;
      hash_lacks = hash_lacks;
    }
