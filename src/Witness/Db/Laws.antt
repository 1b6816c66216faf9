-- ===== src/Witness/Db/Laws.antt =====
-- What the statements of internal/witness/witness.go do to the tables.
use litetlog.Prelude.{
  ℕ, ◌≡◌, ◌≢◌, refl, Option, none, some, List, [], ◌∷◌, arith, ◌==◌, if◌then◌else◌, Bytes, bytes_eq,
  bytes_eq_iff, All, Bool-cases, inl, inr,
}
use litetlog.Witness.Db.{LogRow, find_log, is_at, set_rows, count_rows}

-- The primary key: no two rows have one origin.
abbrev pub IsUnique : List LogRow → Type 0
IsUnique [] = Unit
IsUnique (r ∷ rows) = All (λ (s : LogRow). s.origin ≢ r.origin) rows × IsUnique rows

-- The row of one origin after an UPDATE.
abbrev pub moved : ℕ → ℕ → Bytes → Option LogRow → Option LogRow
moved old new hash none = none
moved old new hash (some r) =
    some (if r.tree_size == old then record r { tree_size = new; tree_hash = hash } else r)

pub find_log-origin :
    (o : Bytes) (rows : List LogRow) {r : LogRow} → find_log o rows ≡ some r → r.origin ≡ o
unfolding find_log
find_log-origin o [] h = cc
find_log-origin o (x ∷ rows) {r} h =
    ground (arith, find_log-origin o rows {r = r}, bytes_eq_iff x.origin o)

pub find_log-set_rows :
    (o : Bytes) (old new : ℕ) (hash j : Bytes) (rows : List LogRow)
    → find_log j (set_rows o old new hash rows)
      ≡ (if bytes_eq j o then moved old new hash (find_log j rows) else find_log j rows)
unfolding find_log set_rows
find_log-set_rows o old new hash j [] = ground arith
find_log-set_rows o old new hash j (r ∷ rows) = ground (
  arith,
  find_log-set_rows o old new hash j rows,
  bytes_eq_iff j o,
  bytes_eq_iff r.origin o,
  bytes_eq_iff r.origin j,
)

abbrev pub at_size : ℕ → Option LogRow → ℕ
at_size old none = 0
at_size old (some r) = if r.tree_size == old then 1 else 0

find_log-All :
    (o : Bytes) (rows : List LogRow)
    → All (λ (s : LogRow). s.origin ≢ o) rows
    → find_log o rows ≡ none
unfolding find_log
find_log-All o [] h = refl
find_log-All o (r ∷ rows) h = ground (arith, find_log-All o rows h.1, bytes_eq_iff r.origin o)

count_rows-All :
    (o : Bytes) (old : ℕ) (rows : List LogRow)
    → All (λ (s : LogRow). s.origin ≢ o) rows
    → count_rows o old rows ≡ 0
unfolding count_rows
count_rows-All o old [] h = refl
count_rows-All o old (r ∷ rows) h =
    ground (arith, count_rows-All o old rows h.1, bytes_eq_iff r.origin o)

-- With the primary key an UPDATE changes one row if the log has the old size, and none if not.
pub count_rows-find_log :
    (o : Bytes) (old : ℕ) (rows : List LogRow)
    → IsUnique rows
    → count_rows o old rows ≡ at_size old (find_log o rows)
unfolding count_rows find_log
count_rows-find_log o old [] u = refl
count_rows-find_log o old (r ∷ rows) (fresh, u) = elim (Bool-cases (bytes_eq r.origin o)) [
  | inl here ↦
      let fresh' = rw ((bytes_eq_iff r.origin o).0 here) at fresh in
      ground (arith, find_log-All o rows fresh', count_rows-All o old rows fresh')
  | inr elsewhere ↦ ground (arith, count_rows-find_log o old rows u)
]

set_rows-All :
    (x o : Bytes) (old new : ℕ) (hash : Bytes) (rows : List LogRow)
    → All (λ (s : LogRow). s.origin ≢ x) rows
    → All (λ (s : LogRow). s.origin ≢ x) (set_rows o old new hash rows)
unfolding set_rows
set_rows-All x o old new hash [] h = h
set_rows-All x o old new hash (r ∷ rows) (h, hs) = elim (Bool-cases (is_at o old r)) [
  | inl hit ↦ rw hit (h, set_rows-All x o old new hash rows hs)
  | inr miss ↦ rw miss (h, set_rows-All x o old new hash rows hs)
]

pub set_rows-IsUnique :
    (o : Bytes) (old new : ℕ) (hash : Bytes) (rows : List LogRow)
    → IsUnique rows
    → IsUnique (set_rows o old new hash rows)
unfolding set_rows
set_rows-IsUnique o old new hash [] u = u
set_rows-IsUnique o old new hash (r ∷ rows) (h, u) = elim (Bool-cases (is_at o old r)) [
  | inl hit ↦
      rw hit (set_rows-All r.origin o old new hash rows h, set_rows-IsUnique o old new hash rows u)
  | inr miss ↦
      rw miss (set_rows-All r.origin o old new hash rows h, set_rows-IsUnique o old new hash rows u)
]
