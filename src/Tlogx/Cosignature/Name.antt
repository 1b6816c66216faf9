-- ===== src/Tlogx/Cosignature/Name.antt =====
-- What `isValidName` of internal/tlogx/cosignature.go keeps out of a name.
use litetlog.Prelude.{
  ℕ, ◌≡◌, ◌≢◌, ◌<◌, refl, true, false, [], ◌∷◌, arith, Bytes, Lacks, Option-cases, inl, inr,
}
use litetlog.Std.Strings.{cut}
use litetlog.Std.Utf8.{fresh, runes, is_space, runes-Lacks}
use litetlog.Tlogx.Cosignature.{plus, has_spaces, is_valid_name}

cut_missing : (sep : ℕ) (s : Bytes) → (cut sep s).found ≡ false → Lacks sep s
unfolding cut
cut_missing sep [] h = tt
cut_missing sep (c ∷ s) h = ground (arith, cut_missing sep s)

has_spaces-Lacks :
    (b : ℕ) (name : Bytes) → b < 0x80 → is_space b ≡ true → has_spaces name ≡ false → Lacks b name
unfolding has_spaces
has_spaces-Lacks b name small space h = elim (Option-cases (runes fresh name)) [
  | inl e ↦ cc (rw (e, has_spaces) at h)
  | inr (rs, e) ↦ runes-Lacks b fresh name small space e (rw (e, has_spaces) at h)
]

tests :
    (name : Bytes)
    → is_valid_name name ≡ true
    → (name ≢ []) × (has_spaces name ≡ false) × ((cut plus name).found ≡ false)
unfolding is_valid_name
tests [] h = cc
tests (c ∷ name) h = (λ e. cc e, ground arith, ground arith)

-- A name that isValidName accepts is not empty and has no newline, no blank and no plus among its
-- bytes.
pub is_valid_name-Lacks :
    (name : Bytes)
    → is_valid_name name ≡ true
    → (name ≢ []) × Lacks b'\n' name × Lacks b' ' name × Lacks plus name
unfolding is_space
is_valid_name-Lacks name h =
    let (some_name, no_space, no_plus) = tests name h in
    (
      some_name,
      has_spaces-Lacks b'\n' name (omega arith) refl no_space,
      has_spaces-Lacks b' ' name (omega arith) refl no_space,
      cut_missing plus name no_plus,
    )
