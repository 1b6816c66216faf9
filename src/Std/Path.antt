-- ===== src/Std/Path.antt =====
-- `filepath.Join` of a directory and a name, on Unix.
use litetlog.Prelude.{
  ℕ, ◌≡◌, ◌≢◌, refl, sym, ap, Bool, true, false, ◌||◌, List, [], ◌∷◌, ◌++◌, append_assoc, ◌==◌,
  if◌then◌else◌, Bytes, Lacks, is_empty, codes, bytes_eq, bytes_eq_ne, Bool-cases, inl, inr, arith,
}
use litetlog.Std.Strings.{split, split-Lacks, is_empty_ne}

abbrev pub slash : ℕ
slash = b'/'

abbrev pub dot : Bytes
dot = codes "."

abbrev pub dot_dot : Bytes
dot_dot = codes ".."

-- The elements of a path so far, the last one first, behind one more that is "..".
climb : Bool → List Bytes → List Bytes
climb rooted [] = if rooted then [] else dot_dot ∷ []
climb rooted (top ∷ stack) = if bytes_eq top dot_dot then dot_dot ∷ top ∷ stack else stack

push_part : Bool → List Bytes → Bytes → List Bytes
unfolding climb
push_part rooted stack part =
    if is_empty part || bytes_eq part dot
    then stack
    else if bytes_eq part dot_dot
    then climb rooted stack
    else part ∷ stack

walk : Bool → List Bytes → List Bytes → List Bytes
walk rooted stack [] = stack
walk rooted stack (part ∷ parts) = walk rooted (push_part rooted stack part) parts

spell : List Bytes → Bytes
spell [] = []
spell (part ∷ []) = part
spell (part ∷ up ∷ stack) = spell (up ∷ stack) ++ (slash ∷ part)

abbrev is_rooted : Bytes → Bool
is_rooted [] = false
is_rooted (c ∷ s) = c == slash

abbrev finish : Bool → Bytes → Bytes
finish true body = slash ∷ body
finish false body = if is_empty body then dot else body

-- `filepath.Clean`
unfoldable pub clean : Bytes → Bytes
unfolding walk push_part climb spell
clean path = finish (is_rooted path) (spell (walk (is_rooted path) [] (split slash path)))

unfoldable pub join : Bytes → Bytes → Bytes
unfolding clean
join dir name = if is_empty dir then clean name else clean (dir ++ (slash ∷ name))

-- A name that `Clean` leaves alone.
pub record IsName (name : Bytes) : Type 0 where
  pub not_empty : name ≢ []
  pub not_dot : name ≢ dot
  pub not_dot_dot : name ≢ dot_dot
  pub lacks : Lacks slash name

is_empty-append : (s : Bytes) (c : ℕ) (t : Bytes) → is_empty (s ++ (c ∷ t)) ≡ false
is_empty-append [] c t = refl
is_empty-append (d ∷ s) c t = refl

unrooted :
    (name : Bytes)
    → name ≢ []
    → Lacks slash name
    → finish (is_rooted name) (spell (name ∷ [])) ≡ name
unfolding spell
unrooted [] ne h = absurd (ne refl)
unrooted (c ∷ s) ne (other, h) = ground arith

split-some :
    (sep : ℕ) (s : Bytes) → (first : Bytes) × (rest : List Bytes) × (split sep s ≡ first ∷ rest)
unfolding split
split-some sep [] = ([], [], refl)
split-some sep (c ∷ s) =
    let (first, rest, e) = split-some sep s in
    elim (Bool-cases (c == sep)) [
      | inl same ↦ ([], first ∷ rest, rw (same, e))
      | inr other ↦ (c ∷ first, rest, rw (other, e))
    ]

split-append_last :
    (sep : ℕ) (s t : Bytes) → Lacks sep t → split sep (s ++ (sep ∷ t)) ≡ split sep s ++ (t ∷ [])
unfolding split
split-append_last sep [] t h = rw (split-Lacks sep t h) (ground arith)
split-append_last sep (c ∷ s) t h =
    let (first, rest, e) = split-some sep s in rw (split-append_last sep s t h, e) (ground arith)

walk-append_last :
    (rooted : Bool) (stack parts : List Bytes) (name : Bytes)
    → IsName name
    → walk rooted stack (parts ++ (name ∷ [])) ≡ name ∷ walk rooted stack parts
unfolding walk push_part
walk-append_last rooted stack [] name h =
    let some_text : is_empty name ≡ false = is_empty_ne name h.not_empty in
    rw (some_text, bytes_eq_ne name dot h.not_dot, bytes_eq_ne name dot_dot h.not_dot_dot) refl
walk-append_last rooted stack (part ∷ parts) name h =
    walk-append_last rooted (push_part rooted stack part) parts name h

-- What `Join` puts in front of a name.
stem_of : Bool → List Bytes → Bytes
unfolding spell
stem_of rooted [] = if rooted then slash ∷ [] else []
stem_of rooted (part ∷ stack) =
    (if rooted then slash ∷ [] else []) ++ (spell (part ∷ stack) ++ (slash ∷ []))

pub stem : Bytes → Bytes
unfolding stem_of walk push_part climb
stem dir =
    if is_empty dir then [] else stem_of (is_rooted dir) (walk (is_rooted dir) [] (split slash dir))

finish-stem :
    (rooted : Bool) (stack : List Bytes) (name : Bytes)
    → IsName name
    → finish rooted (spell (name ∷ stack)) ≡ stem_of rooted stack ++ name
unfolding stem_of spell
finish-stem true [] name h = refl
finish-stem false [] name h = rw (is_empty_ne name h.not_empty) refl
finish-stem true (part ∷ stack) name h =
    ap (λ t. slash ∷ t) (sym (append_assoc (spell (part ∷ stack)) (slash ∷ []) name))
finish-stem false (part ∷ stack) name h =
    rw (is_empty-append (spell (part ∷ stack)) slash name)
      (sym (append_assoc (spell (part ∷ stack)) (slash ∷ []) name))

pub join-stem : (dir name : Bytes) → IsName name → join dir name ≡ stem dir ++ name
unfolding join clean stem
join-stem [] name h =
    rw (split-Lacks slash name h.lacks, walk-append_last (is_rooted name) [] [] name h)
      (unrooted name h.not_empty h.lacks)
join-stem (c ∷ dir) name h =
    rw
      (
        split-append_last slash (c ∷ dir) name h.lacks,
        walk-append_last (c == slash) [] (split slash (c ∷ dir)) name h,
      )
      (finish-stem (c == slash) (walk (c == slash) [] (split slash (c ∷ dir))) name h)

pub join_plain : (name : Bytes) → IsName name → join [] name ≡ name
unfolding stem
join_plain name h = join-stem [] name h
