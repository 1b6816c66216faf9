-- ===== src/Spicy/Demo/Laws.antt =====
-- What cmd/spicy/spicy.go relies on, for the demonstration library.
use litetlog.Prelude.{
  ℕ, zero, suc, ◌%◌, ◌<◌, ◌^◌, ◌≡◌, ◌≢◌, if◌then◌else◌, refl, sym, ap, subst, ◌∙◌, inl, inr, Option,
  true, codes, some, some_injective, List, [], ◌∷◌, ◌++◌, >>=-eq-some, replicate, length, Bytes,
  bytes_eq_refl, ℤ, pos, negsuc, add_sub64, All, arith, Bool-cases,
}
use litetlog.Std.Base64.{encode, encode-visible, IsByte}
use litetlog.Tlogx.Checkpoint.RoundTrip.{parse_hash-encode}
use litetlog.Tlogx.Edge.{right_edge}
use litetlog.Tlogx.Edge.Reference.{digits, right_edge-digits}
use litetlog.Tlogx.Edge.Tiling.{indexes}
use litetlog.Tlogx.Note.{chop_fields}
use litetlog.Tlogx.Note.Parse.{IsDigest}
use litetlog.Tlogx.Note.Text.{IsKeyText, chop_fields-key_text}
use litetlog.Witness.Library.{IsHash, Signer}
use litetlog.Spicy.Library.{Hashes, eq_ℤ, put_hashes, read_hashes}
use litetlog.Spicy.Library.Laws.{TextLaws}
use litetlog.Spicy.Edge.RoundTrip.{eq_ℤ_sound}
use litetlog.Spicy.Append.Laws.{nth, Holds, LogLaws}
use litetlog.Spicy.Demo.{
  demo, demo_crypto, demo_new_signer, demo_index, leaf, demo_tree_hash, demo_stored,
}

replicate-IsByte : (n b : ℕ) → b < 256 → All IsByte (replicate n b)
replicate-IsByte zero b h = tt
replicate-IsByte (suc n) b h = (h, replicate-IsByte n b h)

length-replicate : (n b : ℕ) → length (replicate n b) ≡ n
length-replicate zero b = refl
length-replicate (suc n) b = omega (arith, length-replicate n b)

pub leaf-IsHash : (f : Bytes) → IsHash (leaf f)
leaf-IsHash f =
    (replicate-IsByte 32 (length f % 256) (omega arith), length-replicate 32 (length f % 256))

encode_not_empty : (h : Bytes) → h ≢ [] → encode h ≢ []
unfolding encode
encode_not_empty [] ne = absurd (ne refl)
encode_not_empty (a ∷ []) ne = λ e. cc e
encode_not_empty (a ∷ b ∷ []) ne = λ e. cc e
encode_not_empty (a ∷ b ∷ c ∷ s) ne = λ e. cc e

pub demo-TextLaws : TextLaws demo
demo-TextLaws = record {
  reads_back = λ h (bytes, size). parse_hash-encode h bytes size;
  visible = λ h (bytes, size). encode-visible h bytes;
  not_empty = λ h (bytes, size).
      encode_not_empty h (λ e. absurd (omega (arith, ap (length {A = ℕ}) e, size)));
}

index_kept : (n : ℕ) → n < 2 ^ 62 → add_sub64 (pos n) (pos 0) (pos 0) ≡ pos n
unfolding add_sub64
index_kept n h = ground (arith, h)

nth-append :
    (es : List Bytes) (c : Bytes) (k : ℕ) {f : Bytes}
    → nth es k ≡ some f
    → nth (es ++ (c ∷ [])) k ≡ some f
nth-append [] c k h = cc h
nth-append (e ∷ es) c zero h = h
nth-append (e ∷ es) c (suc k) h = nth-append es c k h

nth_last : (es : List Bytes) (c : Bytes) → nth (es ++ (c ∷ [])) (length es) ≡ some c
nth_last [] c = refl
nth_last (e ∷ es) c = nth_last es c

stored-append :
    (es : List Bytes) (c : Bytes) (id : ℤ) (h : Bytes)
    → demo_stored es id ≡ some h
    → demo_stored (es ++ (c ∷ [])) id ≡ some h
stored-append es c (negsuc n) h e = cc e
stored-append es c (pos n) h e =
    let (f, there, same) = >>=-eq-some (nth es n) _ e in rw (nth-append es c n there) same

demo-appends :
    (es : List Bytes) (f : Bytes) (hashes : Hashes) (hh : List Bytes)
    → length es < 2 ^ 62
    → Holds demo_stored es hashes
    → ◌≡◌ {A = Option (List Bytes)} (some (leaf f ∷ [])) (some hh)
    → Holds demo_stored (es ++ (f ∷ [])) (put_hashes (pos (length es)) 0 hh hashes)
unfolding put_hashes
demo-appends es f hashes hh small holds e =
    subst (λ x. Holds demo_stored (es ++ (f ∷ [])) (put_hashes (pos (length es)) 0 x hashes))
      (some_injective e)
      λ id h here.
        let step : (if eq_ℤ id (pos (length es)) then some (leaf f) else hashes id) ≡ some h =
          rw (index_kept (length es) small) at here in
        elim (Bool-cases (eq_ℤ id (pos (length es)))) [
          | inl same ↦ rw (eq_ℤ_sound id (pos (length es)) same, nth_last es f) (rw same at step)
          | inr other ↦ stored-append es f id h (holds id h (rw other at step))
        ]

leaf_of :
    (hashes : Hashes) (n : ℕ) (proof : List Bytes)
    → read_hashes hashes (pos n ∷ []) ≡ some proof
    → (x : Bytes) × (hashes (pos n) ≡ some x) × (proof ≡ x ∷ [])
unfolding read_hashes
leaf_of hashes n proof h =
    let (x, here, same) = >>=-eq-some (hashes (pos n)) _ h in (x, here, sym (some_injective same))

stored-IsHash : (es : List Bytes) (id : ℤ) (h : Bytes) → demo_stored es id ≡ some h → IsHash h
stored-IsHash es (negsuc n) h e = cc e
stored-IsHash es (pos n) h e =
    let (f, there, same) = >>=-eq-some (nth es n) _ e in
    subst IsHash (some_injective same) (leaf-IsHash f)

demo-signer_of :
    (skey name seed : Bytes) (hash : ℕ) (signer : Signer)
    → IsKeyText skey name hash seed
    → demo_new_signer skey ≡ some signer
    → (signer.name ≡ name)
      × (signer.key_hash ≡ hash)
      × ((m : Bytes)
          → (sig : Bytes) × (signer.sign m ≡ inr sig)
            × (sig ≢ [])
            × (demo_crypto.ed25519_verify (demo_crypto.public_of_seed seed) m sig ≡ true))
unfolding demo_new_signer
demo-signer_of skey name seed hash signer k h =
    let fields : chop_fields skey ≡ record {
      priv1 = codes "PRIVATE";
      priv2 = codes "KEY";
      name = name;
      hash16 = k.hash16;
      key64 = k.key64;
    } =
      ap chop_fields k.spells
      ∙ chop_fields-key_text (codes "PRIVATE") (codes "KEY") name k.hash16 k.key64 (ground arith)
          (ground arith) k.name_lacks k.hash_lacks in
    let same : record { name = name; key_hash = hash; sign = λ m. inr (1 ∷ m) } ≡ signer =
      some_injective (rw (fields, k.reads_hash) at h) in
    (
      ap (λ (s : Signer). s.name) (sym same),
      ap (λ (s : Signer). s.key_hash) (sym same),
      λ m. (1 ∷ m, ap (λ (s : Signer). s.sign m) (sym same), (λ e. cc e), bytes_eq_refl (1 ∷ m)),
    )

pub demo-IsDigest : IsDigest demo_crypto
demo-IsDigest m = replicate-IsByte 32 7 (omega arith)

pub demo-LogLaws : LogLaws demo
unfolding demo_tree_hash
demo-LogLaws = record {
  stored = demo_stored;
  stored_hash = stored-IsHash;
  appends = demo-appends;
  reads_edge = λ size hashes hash small h.
      let (idx, edge, more) = >>=-eq-some (right_edge demo_index (pos size)) _ h in
      let (list, reads, last) = >>=-eq-some (read_hashes hashes idx) _ more in
      let same : indexes demo_index (digits 62 size) ≡ idx =
        some_injective (sym (right_edge-digits demo_index size small) ∙ edge) in
      (list, ap (read_hashes hashes) same ∙ reads);
  tree_hash_size = λ size hashes hash h.
      let (idx', edge', more) = >>=-eq-some (right_edge demo_index (pos size)) _ h in
      let (list, reads, last) = >>=-eq-some (read_hashes hashes idx') _ more in
      subst IsHash (some_injective last)
        (replicate-IsByte 32 0 (omega arith), length-replicate 32 0);
  proof_hashes = λ es size n hashes proof holds h.
      let (x, here, same) = leaf_of hashes n proof h in
      subst (All IsHash) (sym same) (stored-IsHash es (pos n) x (holds (pos n) x here), tt);
  proves = λ es size n hashes hash f proof holds full fits tree h there.
      let (x, here, same) = leaf_of hashes n proof h in
      let kept : some (leaf f) ≡ some x = sym (rw there refl) ∙ holds (pos n) x here in
      rw (same, sym (some_injective kept)) (bytes_eq_refl (leaf f));
  signer_of = demo-signer_of;
  opens_signed =
      λ text sig signed signer verifier lines plain name hash made not_empty valid s. sym s;
}
