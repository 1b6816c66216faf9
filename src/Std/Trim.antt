-- ===== src/Std/Trim.antt =====
-- `strings.TrimSpace`: the white space of `unicode.IsSpace` is taken off both ends, read as UTF-8.
use litetlog.Prelude.{
  ℕ, zero, suc, ◌-◌, ◌<◌, ◌≡◌, refl, sym, ap, append_assoc, append-nil, ◌∙◌, Bool, ◌&&◌, ◌||◌, [],
  ◌∷◌, ◌++◌, leb, ◌==◌, if◌then◌else◌, Bytes, arith,
}

abbrev is_between : ℕ → ℕ → ℕ → Bool
is_between low c high = leb low c && leb c high

-- The last byte of a white space of three bytes, by the first two.
abbrev is_third : ℕ → ℕ → ℕ → Bool
is_third a b c =
    (a == 0xe1 && (b == 0x9a && c == 0x80))
    || ((a == 0xe2
          && ((b == 0x80 && (is_between 0x80 c 0x8a || (is_between 0xa8 c 0xa9 || c == 0xaf)))
              || (b == 0x81 && c == 0x9f)))
        || (a == 0xe3 && (b == 0x80 && c == 0x80)))

abbrev is_space_byte : ℕ → Bool
is_space_byte a = is_between 9 a 13 || a == 32

-- U+0085 and U+00A0.
abbrev is_second : ℕ → ℕ → Bool
is_second a b = a == 0xc2 && (b == 0x85 || b == 0xa0)

-- The bytes of the white space that a text starts with, or 0.
unfoldable pub space_size : Bytes → ℕ
space_size [] = 0
space_size (a ∷ []) = if is_space_byte a then 1 else 0
space_size (a ∷ b ∷ []) = if is_space_byte a then 1 else if is_second a b then 2 else 0
space_size (a ∷ b ∷ c ∷ s) =
    if is_space_byte a then 1 else if is_second a b then 2 else if is_third a b c then 3 else 0

-- The same of a text that is read from its end.
unfoldable pub space_size_back : Bytes → ℕ
space_size_back [] = 0
space_size_back (a ∷ []) = if is_space_byte a then 1 else 0
space_size_back (b ∷ a ∷ []) = if is_space_byte b then 1 else if is_second a b then 2 else 0
space_size_back (c ∷ b ∷ a ∷ s) =
    if is_space_byte c then 1 else if is_second b c then 2 else if is_third a b c then 3 else 0

-- White space is dropped, `k` bytes of which are still to go.
unfoldable pub trim_from : (Bytes → ℕ) → ℕ → Bytes → Bytes
trim_from size k [] = []
trim_from size zero (c ∷ s) =
    let n = size (c ∷ s) in let rest = trim_from size (n - 1) s in if n == 0 then c ∷ s else rest
trim_from size (suc k) (c ∷ s) = trim_from size k s

unfoldable pub reverse : Bytes → Bytes
reverse [] = []
reverse (c ∷ s) = reverse s ++ (c ∷ [])

unfoldable pub trim_space : Bytes → Bytes
unfolding trim_from space_size space_size_back reverse
trim_space s = reverse (trim_from space_size_back 0 (reverse (trim_from space_size 0 s)))

-- A byte that no white space has.
abbrev pub IsVisible : ℕ → Type 0
IsVisible c = (32 < c) × (c < 127)

reverse-append : (s t : Bytes) → reverse (s ++ t) ≡ reverse t ++ reverse s
unfolding reverse
reverse-append [] t = sym (append-nil (reverse t))
reverse-append (c ∷ s) t =
    ap (λ r. r ++ (c ∷ [])) (reverse-append s t) ∙ append_assoc (reverse t) (reverse s) (c ∷ [])

reverse-reverse : (s : Bytes) → reverse (reverse s) ≡ s
unfolding reverse
reverse-reverse [] = refl
reverse-reverse (c ∷ s) = reverse-append (reverse s) (c ∷ []) ∙ ap (λ t. c ∷ t) (reverse-reverse s)

space_size-visible : (c : ℕ) (s : Bytes) → IsVisible c → space_size (c ∷ s) ≡ 0
unfolding space_size
space_size-visible c [] h = ground arith
space_size-visible c (b ∷ []) h = ground arith
space_size-visible c (b ∷ a ∷ s) h = ground arith

space_size_back-visible : (c : ℕ) (s : Bytes) → IsVisible c → space_size_back (c ∷ s) ≡ 0
unfolding space_size_back
space_size_back-visible c [] h = ground arith
space_size_back-visible c (b ∷ []) h = ground arith
space_size_back-visible c (b ∷ a ∷ s) h = ground arith

space_size_back-newline : (s : Bytes) → space_size_back (b'\n' ∷ s) ≡ 1
unfolding space_size_back
space_size_back-newline [] = refl
space_size_back-newline (b ∷ []) = refl
space_size_back-newline (b ∷ a ∷ s) = refl

-- Of a line that starts and ends in visible bytes the newline behind it is taken off.
pub trim_space-newline :
    (c : ℕ) (s t : Bytes) (last : ℕ)
    → c ∷ s ≡ t ++ (last ∷ [])
    → IsVisible c
    → IsVisible last
    → trim_space ((c ∷ s) ++ (b'\n' ∷ [])) ≡ c ∷ s
unfolding trim_space trim_from
trim_space-newline c s t last e first_visible last_visible =
    let back : reverse ((c ∷ s) ++ (b'\n' ∷ [])) ≡ b'\n' ∷ last ∷ reverse t =
      reverse-append (c ∷ s) (b'\n' ∷ [])
      ∙ ap (λ r. b'\n' ∷ r) (ap reverse e ∙ reverse-append t (last ∷ [])) in
    rw
      (
        space_size-visible c (s ++ (b'\n' ∷ [])) first_visible,
        back,
        space_size_back-newline (last ∷ reverse t),
        space_size_back-visible last (reverse t) last_visible,
      )
      (ap (λ r. r ++ (last ∷ [])) (reverse-reverse t) ∙ sym e)

-- A text that starts and ends in visible bytes is kept.
pub trim_space-visible :
    (c : ℕ) (s t : Bytes) (last : ℕ)
    → c ∷ s ≡ t ++ (last ∷ [])
    → IsVisible c
    → IsVisible last
    → trim_space (c ∷ s) ≡ c ∷ s
unfolding trim_space trim_from
trim_space-visible c s t last e first_visible last_visible =
    let back : reverse (c ∷ s) ≡ last ∷ reverse t = ap reverse e ∙ reverse-append t (last ∷ []) in
    rw
      (
        space_size-visible c s first_visible,
        back,
        space_size_back-visible last (reverse t) last_visible,
      )
      (ap (λ r. r ++ (last ∷ [])) (reverse-reverse t) ∙ sym e)
