-- ===== src/Spicy/Append/Present.antt =====
-- The hashes of the edge that `spicy` of cmd/spicy/spicy.go keeps are those of the records.
use litetlog.Prelude.{
  ◌≡◌, ◌≢◌, refl, sym, ◌∙◌, inl, inr, true, none, some, List, [], ◌∷◌, >>=-eq-some, Bytes, All, ℤ,
  arith, Bool-cases, if◌then◌else◌,
}
use litetlog.Witness.Library.{IsHash}
use litetlog.Spicy.Library.{Library, Hashes, read_hashes, eq_ℤ}
use litetlog.Spicy.Edge.{hash_at, hashes_at}
use litetlog.Spicy.Edge.RoundTrip.{mem, eq_ℤ_sound}
use litetlog.Spicy.Append.Laws.{Holds, LogLaws}

module _ (lib : Library) (laws : LogLaws lib) where
  pub present-IsHash :
      (es : List Bytes) (hashes : Hashes) (idx : List ℤ) (list : List Bytes)
      → Holds laws.stored es hashes
      → read_hashes hashes idx ≡ some list
      → All IsHash (hashes_at hashes idx)
  unfolding read_hashes
  present-IsHash es hashes [] list holds h = tt
  present-IsHash es hashes (id ∷ idx) list holds h =
      let (x, here, more) = >>=-eq-some (hashes id) _ h in
      let (rest, there, _) = >>=-eq-some (read_hashes hashes idx) _ more in
      (
        rw (here, hash_at) (laws.stored_hash es id x (holds id x here)),
        present-IsHash es hashes idx rest holds there,
      )

  known_hash :
      (hashes : Hashes) (id : ℤ) {x : Bytes}
      → hashes id ≡ some x
      → hashes id ≡ some (hash_at hashes id)
  known_hash hashes id h = ground (arith, h)

  present_at :
      (hashes : Hashes) (idx : List ℤ) (list : List Bytes) (j : ℤ)
      → read_hashes hashes idx ≡ some list
      → mem j idx ≡ true
      → hashes j ≡ some (hash_at hashes j)
  unfolding read_hashes
  present_at hashes [] list j h inside = cc inside
  present_at hashes (id ∷ idx) list j h inside =
      let (x, here, more) = >>=-eq-some (hashes id) _ h in
      let (rest, there, _) = >>=-eq-some (read_hashes hashes idx) _ more in
      elim (Bool-cases (eq_ℤ j id)) [
        | inl same ↦ rw (eq_ℤ_sound j id same) (known_hash hashes id here)
        | inr other ↦ present_at hashes idx rest j there (rw other at inside)
      ]

  none-ne_some : {x : Bytes} → none ≢ some x
  none-ne_some e = cc e

  pub found-Holds :
      (es : List Bytes) (hashes found : Hashes) (idx : List ℤ) (list : List Bytes)
      → Holds laws.stored es hashes
      → read_hashes hashes idx ≡ some list
      → ((j : ℤ) → found j ≡ (if mem j idx then some (hash_at hashes j) else none))
      → Holds laws.stored es found
  found-Holds es hashes found idx list holds present at id h e = elim (Bool-cases (mem id idx)) [
    | inl inside ↦
        holds id h
          (present_at hashes idx list id present inside ∙ (sym (at id ∙ rw inside refl) ∙ e))
    | inr outside ↦
        let missing : found id ≡ none = at id ∙ rw outside refl in
        absurd (none-ne_some (sym missing ∙ e))
  ]
