-- ===== src/Std/Utf8.antt =====
-- Packages unicode/utf8 and unicode: the runes of a string, and `IsSpace`.
use litetlog.Prelude.{
  ℕ, ◌+◌, ◌-◌, ◌*◌, ◌<◌, ◌≡◌, sym, subst, ◌∙◌, Bool, true, false, not, ◌&&◌, ◌||◌, Option, none,
  some, List, [], ◌∷◌, arith, ltb, leb, ◌==◌, if◌then◌else◌, ◌>>=◌, >>=-eq-some, Bytes, Lacks,
}

-- A rune that is being read: the bytes it still needs, its value so far, and the least value that
-- is not overlong.
pub record Decoder : Type 0 where
  pub need : ℕ
  pub value : ℕ
  pub least : ℕ

abbrev pub fresh : Decoder
fresh = record { need = 0; value = 0; least = 0 }

unfoldable pub read_byte : Decoder → ℕ → Option Decoder
read_byte d c =
    if d.need == 0
    then (if ltb c 0x80
        then some (record { need = 0; value = c; least = 0 })
        else if ltb c 0xC0
        then none
        else if ltb c 0xE0
        then some (record { need = 1; value = c - 0xC0; least = 0x80 })
        else if ltb c 0xF0
        then some (record { need = 2; value = c - 0xE0; least = 0x800 })
        else if ltb c 0xF8
        then some (record { need = 3; value = c - 0xF0; least = 0x10000 })
        else none)
    else if leb 0x80 c && ltb c 0xC0
    then some (record d { need = d.need - 1; value = d.value * 64 + (c - 0x80) })
    else none

-- Not overlong, not a surrogate, and in the range of Unicode.
unfoldable pub is_rune : Decoder → Bool
is_rune d =
    leb d.least d.value && (leb d.value 0x10FFFF && not (leb 0xD800 d.value && leb d.value 0xDFFF))

-- The rune, where it is complete, in front of those behind it.
unfoldable pub emit : Decoder → List ℕ → Option (List ℕ)
unfolding is_rune
emit d rest = if d.need == 0 then (if is_rune d then some (d.value ∷ rest) else none) else some rest

-- The runes of a valid string.
unfoldable pub runes : Decoder → Bytes → Option (List ℕ)
unfolding read_byte emit
runes d [] = if d.need == 0 then some [] else none
runes d (c ∷ s) = do d' ← read_byte d c; rest ← runes d' s; emit d' rest

unfoldable pub is_space : ℕ → Bool
is_space r =
    (leb 0x09 r && leb r 0x0D)
    || (r == 0x20
        || (r == 0x85
            || (r == 0xA0
                || (r == 0x1680
                    || ((leb 0x2000 r && leb r 0x200A)
                        || (r == 0x2028
                            || (r == 0x2029 || (r == 0x202F || (r == 0x205F || r == 0x3000)))))))))

unfoldable pub has_space : List ℕ → Bool
unfolding is_space
has_space [] = false
has_space (r ∷ rs) = is_space r || has_space rs

read_byte-ascii :
    (d d' : Decoder) (b : ℕ) → b < 0x80 → read_byte d b ≡ some d' → (d'.need ≡ 0) × (d'.value ≡ b)
unfolding read_byte
read_byte-ascii d d' b h e = ground arith

emit-has_space :
    (d : Decoder) (rest : List ℕ) {rs : List ℕ}
    → emit d rest ≡ some rs
    → has_space rs ≡ false
    → has_space rest ≡ false
unfolding emit has_space
emit-has_space d rest h none_in = ground arith

emit-is_space :
    (d : Decoder) (rest : List ℕ) {rs : List ℕ}
    → emit d rest ≡ some rs
    → has_space rs ≡ false
    → d.need ≡ 0
    → is_space d.value ≡ true
    → ⊥
unfolding emit has_space
emit-is_space d rest h none_in whole space = ground arith

-- An ASCII space of a valid string is one of its runes.
pub runes-Lacks :
    (b : ℕ) (d : Decoder) (s : Bytes) {rs : List ℕ}
    → b < 0x80
    → is_space b ≡ true
    → runes d s ≡ some rs
    → has_space rs ≡ false
    → Lacks b s
unfolding runes
runes-Lacks b d [] h space e none_in = tt
runes-Lacks b d (c ∷ s) {rs} h space e none_in =
    let (d', reads, e') = >>=-eq-some (read_byte d c) _ e in
    let (rest, later, last) = >>=-eq-some (runes d' s) _ e' in
    (
      λ same.
          let (whole, value) = read_byte-ascii d d' c (omega (arith, same)) reads in
          emit-is_space d' rest last none_in whole
            (subst (λ v. is_space v ≡ true) (sym same ∙ sym value) space),
      runes-Lacks b d' s h space later (emit-has_space d' rest last none_in),
    )
