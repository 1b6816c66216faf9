-- ===== src/Witness/Db.antt =====
-- The database of internal/witness/witness.go: its two tables and the statements on them.
pub mod Laws
use litetlog.Prelude.{
  ℕ, zero, suc, ◌+◌, Bool, true, false, ◌&&◌, Option, none, some, List, [], ◌∷◌, ◌==◌,
  if◌then◌else◌, Bytes, bytes_eq, ◌⊎◌, inl, inr,
}
use litetlog.Witness.Library.{Error, internal, Result, ok, err}

-- A row of the table `log`; the hash is its text. Only sizes that are not negative are written.
pub record LogRow : Type 0 where
  pub origin : Bytes
  pub tree_size : ℕ
  pub tree_hash : Bytes

-- A row of the table `key`.
pub record KeyRow : Type 0 where
  pub origin : Bytes
  pub key : Bytes

-- The tables, and what `Changes` of the connection reports: the rows changed by its last UPDATE.
pub record Db : Type 0 where
  pub logs : List LogRow
  pub keys : List KeyRow
  pub changes : ℕ

-- The database, and for each statement still to be run whether it fails, with the error's text.
pub record World : Type 0 where
  pub db : Db
  pub faults : List (Option Bytes)

-- No statement fails.
abbrev pub quiet : Db → World
quiet db = record { db = db; faults = [] }

-- An action on the world, which returns a result.
abbrev pub Action {ℓ} : Type ℓ → Type ℓ
Action A = World → Result A × World

abbrev pub resume {ℓ κ} : {A : Type ℓ} {B : Type κ} → Result A → (A → Action B) → Action B
resume (ok a) f w = f a w
resume (err e) f w = (err e, w)

infixl 5 ◌>>=◌ ◌>>◌
abbrev pub ◌>>=◌ {ℓ κ} : {A : Type ℓ} {B : Type κ} → Action A → (A → Action B) → Action B
◌>>=◌ m f w = resume (m w).0 f (m w).1

abbrev pub ◌>>◌ {ℓ} : {B : Type ℓ} → Action (Unit {0}) → Action B → Action B
m >> k = m >>= λ _. k

abbrev pub pure {ℓ} : {A : Type ℓ} → A → Action A
pure a w = (ok a, w)

abbrev pub raise {ℓ} : {A : Type ℓ} → Error → Action A
raise e w = (err e, w)

-- A value, or the error where there is none.
abbrev pub some_or {ℓ} : {A : Type ℓ} → Error → Option A → Action A
some_or e none = raise e
some_or e (some a) = pure a

abbrev pub lift {ℓ} : {A : Type ℓ} → Bytes ⊎ A → Action A
lift (inl message) = raise (internal message)
lift (inr a) = pure a

-- `sqlitex.Exec`: the statement fails and does nothing, or it runs.
unfoldable pub exec_on {ℓ} :
    {A : Type ℓ} → (Db → A × Db) → Db → List (Option Bytes) → Result A × World
exec_on run db [] = (ok (run db).0, record { db = (run db).1; faults = [] })
exec_on run db (none ∷ faults) = (ok (run db).0, record { db = (run db).1; faults = faults })
exec_on run db (some message ∷ faults) =
    (err (internal message), record { db = db; faults = faults })

unfoldable pub exec {ℓ} : {A : Type ℓ} → (Db → A × Db) → Action A
unfolding exec_on
exec run w = exec_on run w.db w.faults

-- `SELECT tree_size, tree_hash FROM log WHERE origin = ?`: the callback keeps the last row.
unfoldable pub find_log : Bytes → List LogRow → Option LogRow
find_log origin [] = none
find_log origin (r ∷ rows) = elim (find_log origin rows) [
  | some later ↦ some later
  | none ↦ if bytes_eq r.origin origin then some r else none
]

-- `SELECT key FROM key WHERE origin = ?`
unfoldable pub find_keys : Bytes → List KeyRow → List Bytes
find_keys origin [] = []
find_keys origin (r ∷ rows) =
    let later = find_keys origin rows in if bytes_eq r.origin origin then r.key ∷ later else later

-- `WHERE origin = ? AND tree_size = ?`
pub is_at : Bytes → ℕ → LogRow → Bool
is_at origin old r = bytes_eq r.origin origin && r.tree_size == old

unfoldable pub set_rows : Bytes → ℕ → ℕ → Bytes → List LogRow → List LogRow
unfolding is_at
set_rows origin old new hash [] = []
set_rows origin old new hash (r ∷ rows) =
    (if is_at origin old r then record r { tree_size = new; tree_hash = hash } else r)
    ∷ set_rows origin old new hash rows

unfoldable pub count_rows : Bytes → ℕ → List LogRow → ℕ
unfolding is_at
count_rows origin old [] = 0
count_rows origin old (r ∷ rows) =
    (if is_at origin old r then 1 else 0) + count_rows origin old rows

-- `UPDATE log SET tree_size = ?, tree_hash = ? WHERE origin = ? AND tree_size = ?`
abbrev pub update_log : Bytes → ℕ → ℕ → Bytes → Db → Db
update_log origin old new hash db = record db {
  logs = set_rows origin old new hash db.logs;
  changes = count_rows origin old db.logs;
}
