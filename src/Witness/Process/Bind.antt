-- ===== src/Witness/Process/Bind.antt =====
-- Inversion of the actions of internal/witness/witness.go, and of the statements that they run.
use litetlog.Prelude.{◌≡◌, refl, Option, none, some, Bytes, List, [], ◌∷◌, arith, ◌⊎◌, inl, inr}
use litetlog.Witness.Library.{Error, Result, ok, err}
use litetlog.Witness.Db.{Db, World, Action, resume, ◌>>=◌, exec, exec_on, some_or, lift}

module _ {ℓ κ} {A : Type ℓ} {B : Type κ} where
  -- A chain that succeeds: its first value, and what the rest does with it.
  pub record Bound (r : Result A) (f : A → Action B) (w : World) (b : B) : Type (ℓ ⊔ κ) where
    pub value : A
    pub first : r ≡ ok value
    pub second : (f value w).0 ≡ ok b
    pub world : (resume r f w).1 ≡ (f value w).1

  resume-eq-ok :
      (r : Result A) (f : A → Action B) (w : World) {b : B}
      → (resume r f w).0 ≡ ok b
      → Bound r f w b
  resume-eq-ok (ok a) f w h = record { value = a; first = refl; second = h; world = refl }
  resume-eq-ok (err e) f w h = cc

  pub >>=-eq-ok :
      (m : Action A) (f : A → Action B) (w : World) {b : B}
      → ((m >>= f) w).0 ≡ ok b
      → Bound (m w).0 f (m w).1 b
  >>=-eq-ok m f w h = resume-eq-ok (m w).0 f (m w).1 h

  -- A chain keeps what its parts keep.
  resume_keeps {μ} :
      (P : World → Type μ) (r : Result A) (f : A → Action B) (w : World)
      → P w
      → ((a : A) → r ≡ ok a → P (f a w).1)
      → P (resume r f w).1
  resume_keeps P (ok a) f w p k = k a refl
  resume_keeps P (err e) f w p k = p

  pub >>=-keeps {μ} :
      (P : World → Type μ) (m : Action A) (f : A → Action B) (w : World)
      → P (m w).1
      → ((a : A) → (m w).0 ≡ ok a → P (f a (m w).1).1)
      → P ((m >>= f) w).1
  >>=-keeps P m f w p k = resume_keeps P (m w).0 f (m w).1 p k

module _ {A : Type 0} (run : Db → A × Db) where
  exec_on-ok :
      (db : Db) (faults : List (Option Bytes)) {a : A}
      → (exec_on run db faults).0 ≡ ok a
      → ((run db).0 ≡ a) × ((exec_on run db faults).1.db ≡ (run db).1)
  unfolding exec_on
  exec_on-ok db [] h = ground arith
  exec_on-ok db (none ∷ faults) h = ground arith
  exec_on-ok db (some message ∷ faults) h = cc

  -- A statement that succeeds has run.
  pub exec-ok :
      (w : World) {a : A}
      → (exec run w).0 ≡ ok a
      → ((run w.db).0 ≡ a) × ((exec run w).1.db ≡ (run w.db).1)
  unfolding exec
  exec-ok w h = exec_on-ok w.db w.faults h

  exec_on-db :
      (db : Db) (faults : List (Option Bytes))
      → ((exec_on run db faults).1.db ≡ db) ⊎ ((exec_on run db faults).1.db ≡ (run db).1)
  unfolding exec_on
  exec_on-db db [] = inr refl
  exec_on-db db (none ∷ faults) = inr refl
  exec_on-db db (some message ∷ faults) = inl refl

  -- A statement that fails has done nothing.
  pub exec-db : (w : World) → ((exec run w).1.db ≡ w.db) ⊎ ((exec run w).1.db ≡ (run w.db).1)
  unfolding exec
  exec-db w = exec_on-db w.db w.faults

pub exec_query :
    {A : Type 0} (query : Db → A) (w : World) → (exec (λ db. (query db, db)) w).1.db ≡ w.db
exec_query query w = elim (exec-db (λ db. (query db, db)) w) [ inl e ↦ e | inr e ↦ e ]

module _ {ℓ} {A : Type ℓ} where
  pub some_or-world : (e : Error) (o : Option A) (w : World) → (some_or e o w).1 ≡ w
  some_or-world e none w = refl
  some_or-world e (some a) w = refl

  pub some_or-ok :
      (e : Error) (o : Option A) (w : World) {a : A} → (some_or e o w).0 ≡ ok a → o ≡ some a
  some_or-ok e none w h = cc
  some_or-ok e (some a) w h = cc

  pub lift-world : (r : Bytes ⊎ A) (w : World) → (lift r w).1 ≡ w
  lift-world (inl message) w = refl
  lift-world (inr a) w = refl

  pub lift-ok : (r : Bytes ⊎ A) (w : World) {a : A} → (lift r w).0 ≡ ok a → r ≡ inr a
  lift-ok (inl message) w h = cc
  lift-ok (inr a) w h = cc
