-- ===== src/Std/Strings.antt =====
-- Package strings (and bytes), at a separator of one byte.
use litetlog.Prelude.{
  ℕ, zero, suc, ◌+◌, ◌≤◌, ◌<◌, ◌≡◌, ◌≢◌, is_empty, refl, ap, ◌∙◌, Bool, true, false, Option, none,
  some, List, [], ◌∷◌, ◌++◌, arith, ◌==◌, if◌then◌else◌, length, Bytes, Lacks, Option-cases, inl,
  inr,
}

-- The results of `Cut`.
pub record Parts : Type 0 where
  pub before : Bytes
  pub after : Bytes
  pub found : Bool

abbrev push : ℕ → Parts → Parts
push c p = record p { before = c ∷ p.before }

unfoldable pub cut : ℕ → Bytes → Parts
cut sep [] = record { before = []; after = []; found = false }
cut sep (c ∷ s) =
    let rest = cut sep s in
    if c == sep then record { before = []; after = s; found = true } else push c rest

-- `Count`.
unfoldable pub count : ℕ → Bytes → ℕ
count b [] = 0
count b (c ∷ cs) = (if c == b then 1 else 0) + count b cs

abbrev cons_head : ℕ → List Bytes → List Bytes
cons_head c [] = (c ∷ []) ∷ []
cons_head c (p ∷ ps) = (c ∷ p) ∷ ps

-- `Split`.
unfoldable pub split : ℕ → Bytes → List Bytes
split sep [] = [] ∷ []
split sep (c ∷ s) = let rest = split sep s in if c == sep then [] ∷ rest else cons_head c rest

-- `SplitN` with a positive count.
unfoldable pub split_n : ℕ → ℕ → Bytes → List Bytes
unfolding cut
split_n sep zero s = []
split_n sep (suc zero) s = s ∷ []
split_n sep (suc (suc n)) s =
    let p = cut sep s in
    let rest = split_n sep (suc n) p.after in if p.found then p.before ∷ rest else s ∷ []

-- `HasSuffix` with a suffix of one byte.
unfoldable pub ends_with : ℕ → Bytes → Bool
ends_with b [] = false
ends_with b (c ∷ []) = c == b
ends_with b (c ∷ d ∷ s) = ends_with b (d ∷ s)

-- `CutPrefix`: what follows the prefix.
unfoldable pub cut_prefix : Bytes → Bytes → Option Bytes
cut_prefix [] s = some s
cut_prefix (x ∷ p) [] = none
cut_prefix (x ∷ p) (c ∷ s) = if c == x then cut_prefix p s else none

pub cut-append :
    (sep : ℕ) (p rest : Bytes)
    → Lacks sep p
    → cut sep (p ++ (sep ∷ rest)) ≡ record { before = p; after = rest; found = true }
unfolding cut
cut-append sep [] rest h = ground arith
cut-append sep (c ∷ p) rest h = ground (arith, cut-append sep p rest h.1)

-- What `Cut` finds spells the text.
pub cut_found :
    (sep : ℕ) (s : Bytes)
    → (cut sep s).found ≡ true
    → (s ≡ (cut sep s).before ++ (sep ∷ (cut sep s).after)) × Lacks sep (cut sep s).before
unfolding cut
cut_found sep [] h = cc
cut_found sep (c ∷ s) h = ground (arith, cut_found sep s)

pub length-cut : (sep : ℕ) (s : Bytes) → length (cut sep s).after ≤ length s
unfolding cut
length-cut sep [] = omega arith
length-cut sep (c ∷ s) = ground (arith, length-cut sep s)

pub count-append : (b : ℕ) (s t : Bytes) → count b (s ++ t) ≡ count b s + count b t
unfolding count
count-append b [] t = omega arith
count-append b (c ∷ s) t = ground (arith, count-append b s t)

pub count-cons_self : (b : ℕ) (s : Bytes) → count b (b ∷ s) ≡ suc (count b s)
unfolding count
count-cons_self b s = ground arith

-- A text with the separator is cut there, with one separator less behind the cut.
pub count-cut :
    (sep : ℕ) (s : Bytes)
    → 0 < count sep s
    → ((cut sep s).found ≡ true) × (count sep s ≡ suc (count sep (cut sep s).after))
unfolding cut count
count-cut sep [] h = absurd (omega arith)
count-cut sep (c ∷ s) h = ground (arith, count-cut sep s)

pub ends_with-append : (b : ℕ) (s t : Bytes) → ends_with b t ≡ true → ends_with b (s ++ t) ≡ true
unfolding ends_with
ends_with-append b [] t h = h
ends_with-append b (c ∷ []) [] h = cc
ends_with-append b (c ∷ []) (d ∷ t) h = h
ends_with-append b (c ∷ d ∷ s) t h = ends_with-append b (d ∷ s) t h

pub cut_prefix-append : (p s : Bytes) → cut_prefix p (p ++ s) ≡ some s
unfolding cut_prefix
cut_prefix-append [] s = refl
cut_prefix-append (x ∷ p) s = ground (arith, cut_prefix-append p s)

pub cut_prefix_sound : (p s : Bytes) {r : Bytes} → cut_prefix p s ≡ some r → s ≡ p ++ r
unfolding cut_prefix
cut_prefix_sound [] s h = ground arith
cut_prefix_sound (x ∷ p) [] h = cc
cut_prefix_sound (x ∷ p) (c ∷ s) {r} h = ground (arith, cut_prefix_sound p s {r = r})

split_n-append :
    (sep n : ℕ) (p rest : Bytes)
    → Lacks sep p
    → split_n sep (suc (suc n)) (p ++ (sep ∷ rest)) ≡ p ∷ split_n sep (suc n) rest
unfolding split_n
split_n-append sep n p rest h = rw (cut-append sep p rest h)

-- A text with three separators is split into four pieces at the first three.
pub split_n-four :
    (sep : ℕ) (p q r rest : Bytes)
    → Lacks sep p
    → Lacks sep q
    → Lacks sep r
    → split_n sep 4 (p ++ (sep ∷ (q ++ (sep ∷ (r ++ (sep ∷ rest)))))) ≡ p ∷ q ∷ r ∷ rest ∷ []
split_n-four sep p q r rest hp hq hr =
    rw (split_n-append sep 2 p _ hp, split_n-append sep 1 q _ hq, split_n-append sep 0 r rest hr)
      (unfold split_n in refl)

-- The four pieces, and what they spell.
pub record Pieces (sep : ℕ) (s : Bytes) : Type 0 where
  pub first : Bytes
  pub second : Bytes
  pub third : Bytes
  pub rest : Bytes
  pub splits : split_n sep 4 s ≡ first ∷ second ∷ third ∷ rest ∷ []
  pub spells : s ≡ first ++ (sep ∷ (second ++ (sep ∷ (third ++ (sep ∷ rest)))))
  pub first_lacks : Lacks sep first
  pub second_lacks : Lacks sep second
  pub third_lacks : Lacks sep third

pub split_n-Pieces : (sep : ℕ) (s : Bytes) → 3 ≤ count sep s → Pieces sep s
split_n-Pieces sep s h =
    let p = cut sep s in
    let (p_found, p_count) = count-cut sep s (omega arith) in
    let (p_spells, p_lacks) = cut_found sep s p_found in
    let q = cut sep p.after in
    let (q_found, q_count) = count-cut sep p.after (omega arith) in
    let (q_spells, q_lacks) = cut_found sep p.after q_found in
    let r = cut sep q.after in
    let (r_found, r_count) = count-cut sep q.after (omega arith) in
    let (r_spells, r_lacks) = cut_found sep q.after r_found in
    let spells : s ≡ p.before ++ (sep ∷ (q.before ++ (sep ∷ (r.before ++ (sep ∷ r.after))))) =
      p_spells
      ∙ ap (λ t. p.before ++ (sep ∷ t)) (q_spells ∙ ap (λ t. q.before ++ (sep ∷ t)) r_spells) in
    record {
      first = p.before;
      second = q.before;
      third = r.before;
      rest = r.after;
      splits =
          ap (split_n sep 4) spells
          ∙ split_n-four sep p.before q.before r.before r.after p_lacks q_lacks r_lacks;
      spells = spells;
      first_lacks = p_lacks;
      second_lacks = q_lacks;
      third_lacks = r_lacks;
    }

-- `bytes.Cut` at a separator of several bytes.
unfoldable pub cut_at : Bytes → Bytes → Parts
unfolding cut_prefix
cut_at sep [] = record {
  before = [];
  after = [];
  found = elim (cut_prefix sep []) [ some _ ↦ true | none ↦ false ];
}
cut_at sep (c ∷ s) =
    let rest = push c (cut_at sep s) in
    elim (cut_prefix sep (c ∷ s)) [
      | some after ↦ record { before = []; after = after; found = true }
      | none ↦ rest
    ]

nil_of_prefix : (p r : Bytes) → [] ≡ p ++ r → [] ≡ p ++ []
nil_of_prefix [] r h = refl
nil_of_prefix (c ∷ p) r h = cc

pub cut_at_found :
    (sep s : Bytes)
    → (cut_at sep s).found ≡ true
    → s ≡ (cut_at sep s).before ++ (sep ++ (cut_at sep s).after)
unfolding cut_at
cut_at_found sep [] h = elim (Option-cases (cut_prefix sep [])) [
  | inl e ↦ cc (rw (e, cut_at) at h)
  | inr (r, e) ↦ nil_of_prefix sep r (cut_prefix_sound sep [] e)
]
cut_at_found sep (c ∷ s) h = elim (Option-cases (cut_prefix sep (c ∷ s))) [
  | inl e ↦ rw (e, cut_at) (ap (λ t. c ∷ t) (cut_at_found sep s (rw (e, cut_at) at h)))
  | inr (r, e) ↦ rw (e, cut_at) (cut_prefix_sound sep (c ∷ s) e)
]

-- What follows the place that `LastIndex` finds, and the separator.
unfoldable pub after_last : Bytes → Bytes → Option Bytes
unfolding cut_prefix
after_last sep [] = cut_prefix sep []
after_last sep (c ∷ s) = elim (after_last sep s) [
  | some later ↦ some later
  | none ↦ cut_prefix sep (c ∷ s)
]

-- What stands behind the first separator does not change what stands before it.
pub before-append :
    (sep : ℕ) (s t : Bytes)
    → (cut sep s).found ≡ true
    → (cut sep (s ++ t)).before ≡ (cut sep s).before
unfolding cut
before-append sep [] t h = cc
before-append sep (c ∷ s) t h = ground (arith, before-append sep s t)

pub split-Lacks : (sep : ℕ) (s : Bytes) → Lacks sep s → split sep s ≡ s ∷ []
unfolding split
split-Lacks sep [] h = refl
split-Lacks sep (c ∷ s) (ne, h) = rw (split-Lacks sep s h) (ground arith)

pub split-append :
    (sep : ℕ) (p rest : Bytes) → Lacks sep p → split sep (p ++ (sep ∷ rest)) ≡ p ∷ split sep rest
unfolding split
split-append sep [] rest h = ground arith
split-append sep (c ∷ p) rest (ne, h) = rw (split-append sep p rest h) (ground arith)

pub is_empty_ne : (s : Bytes) → s ≢ [] → is_empty s ≡ false
is_empty_ne [] ne = absurd (ne refl)
is_empty_ne (c ∷ s) ne = refl

pub is_empty_eq : (s : Bytes) → is_empty s ≡ true → s ≡ []
is_empty_eq [] h = refl
is_empty_eq (c ∷ s) h = cc h
