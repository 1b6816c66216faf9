-- ===== src/Witness/Process/Check.antt =====
-- `getLog`, `getKeys` and `checkConsistency` of internal/witness/witness.go: they change no table, and what a
-- success means.
use litetlog.Prelude.{
  ℕ, ◌≤◌, ◌≡◌, ◌⊎◌, inl, inr, refl, true, Option, none, some, List, arith, ltb, Bytes, Bool-cases,
}
use litetlog.Witness.Library.{ok, Library}
use litetlog.Witness.Db.{LogRow, Db, World, ◌>>=◌, exec, find_log}
use litetlog.Witness.Process.{Head, read_hash, row_head, get_log, check_head, check_consistency}
use litetlog.Witness.Process.Bind.{>>=-eq-ok, >>=-keeps, exec-ok, exec_query}

module _ (lib : Library) where
  row_head-world : (row : Option LogRow) (w : World) → (row_head lib row w).1 ≡ w
  unfolding row_head
  row_head-world none w = refl
  row_head-world (some r) w = refl

  pub get_log-db : (origin : Bytes) (w : World) → (get_log lib origin w).1.db ≡ w.db
  unfolding get_log
  get_log-db origin w =
      >>=-keeps (λ (v : World). v.db ≡ w.db) (exec (λ db. (find_log origin db.logs, db)))
        (row_head lib) w (exec_query (λ db. find_log origin db.logs) w)
        λ row _. rw row_head-world (exec_query (λ db. find_log origin db.logs) w)

  -- The row that `known` was read from.
  abbrev pub Known : Bytes → Db → Head → Type 0
  Known origin db known =
      (r : LogRow) × (find_log origin db.logs ≡ some r)
      × (known ≡ record { size = r.tree_size; hash = read_hash lib r.tree_hash })

  row_head-ok :
      (origin : Bytes) (row : Option LogRow) (db : Db) (w : World) {known : Head}
      → find_log origin db.logs ≡ row
      → (row_head lib row w).0 ≡ ok known
      → Known origin db known
  unfolding row_head
  row_head-ok origin none db w e h = cc
  row_head-ok origin (some r) db w e h = (r, e, cc)

  pub get_log-ok :
      (origin : Bytes) (w : World) {known : Head}
      → (get_log lib origin w).0 ≡ ok known
      → Known origin w.db known
  unfolding get_log
  get_log-ok origin w h =
      let b = >>=-eq-ok (exec (λ db. (find_log origin db.logs, db))) (row_head lib) w h in
      row_head-ok origin b.value w.db _ (exec-ok (λ db. (find_log origin db.logs, db)) w b.first).0
        b.second

  module _ (old_size new_size : ℕ) (new_hash : Bytes) (proof : List Bytes) where
    abbrev pub IsConsistent : Head → Type 0
    IsConsistent known =
        (known.size ≡ old_size)
        × ((old_size ≡ 0) ⊎ (lib.check_tree proof new_size new_hash old_size known.hash ≡ true))

    check_head-world :
        (known : Head) (w : World) → (check_head lib old_size new_size new_hash proof known w).1 ≡ w
    unfolding check_head
    check_head-world known w = ground arith

    check_head-ok :
        (known : Head) (w : World)
        → (check_head lib old_size new_size new_hash proof known w).0 ≡ ok tt
        → IsConsistent known
    unfolding check_head
    check_head-ok known w h = ground arith

module _ (lib : Library) (origin : Bytes) (old_size new_size : ℕ) (new_hash : Bytes)
    (proof : List Bytes) where
  pub check_consistency-db :
      (w : World) → (check_consistency lib origin old_size new_size new_hash proof w).1.db ≡ w.db
  unfolding check_consistency
  check_consistency-db w = elim (Bool-cases (ltb new_size old_size)) [
    | inl shrinks ↦ rw shrinks
    | inr grows ↦ rw grows (
        >>=-keeps (λ (v : World). v.db ≡ w.db) (get_log lib origin)
          (check_head lib old_size new_size new_hash proof) w (get_log-db lib origin w)
          λ known _. rw check_head-world (get_log-db lib origin w))
  ]

  -- The new tree is not smaller, and it was checked against the row of the log.
  pub check_consistency-ok :
      (w : World)
      → (check_consistency lib origin old_size new_size new_hash proof w).0 ≡ ok tt
      → (old_size ≤ new_size)
        × ((known : Head) × Known lib origin w.db known
            × IsConsistent lib old_size new_size new_hash proof known)
  unfolding check_consistency
  check_consistency-ok w h = elim (Bool-cases (ltb new_size old_size)) [
    | inl shrinks ↦ absurd (refused shrinks)
    | inr grows ↦ (ground arith, checked (rw grows at h))
  ]
    where
      refused : ltb new_size old_size ≡ true → ⊥
      refused shrinks = let k = rw shrinks at h in cc

      checked :
          ((get_log lib origin >>= check_head lib old_size new_size new_hash proof) w).0 ≡ ok tt
          → (known : Head) × Known lib origin w.db known
            × IsConsistent lib old_size new_size new_hash proof known
      checked k =
          let b =
            >>=-eq-ok (get_log lib origin) (check_head lib old_size new_size new_hash proof) w k in
          (
            b.value,
            get_log-ok lib origin w b.first,
            check_head-ok lib old_size new_size new_hash proof b.value _ b.second,
          )
