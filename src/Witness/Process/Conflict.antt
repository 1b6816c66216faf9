-- ===== src/Witness/Process/Conflict.antt =====
-- The size that a conflict of internal/witness/witness.go tells.
pub mod Whole
use litetlog.Prelude.{
  ℕ, ◌≡◌, refl, sym, ap, subst, Option-cases, ◌∙◌, codes, ◌⊎◌, inl, inr, Option, none, some, List,
  [], ◌∷◌, arith, ltb, ◌==◌, Bytes, Bool-cases,
}
use litetlog.Std.Strings.{cut, before-append}
use litetlog.Tlogx.Checkpoint.{newline, Checkpoint, parse_checkpoint}
use litetlog.Witness.Library.{
  conflict, internal, Result, ok, err, Opened, opened, unverified, invalid, malformed, Library,
  Signer,
}
use litetlog.Witness.Db.{
  LogRow, Db, World, Action, resume, ◌>>=◌, ◌>>◌, some_or, lift, pure, raise, exec, exec_on,
  find_log, find_keys, update_log,
}
use litetlog.Witness.Request.{Request, parse_request}
use litetlog.Witness.Process.{
  Head, row_head, get_log, parse_key, new_verifiers, some_keys, get_keys, check_head,
  check_consistency, check_changes, persist_tree_head, opened_text, split_signatures, cosign,
  process_checkpoint, process_text, process_request, process_add_checkpoint,
}
use litetlog.Tlogx.Checkpoint.Parse.{first_line-origin}
use litetlog.Witness.Process.Bind.{some_or-ok}
use litetlog.Witness.Process.Cosign.{opened_text-ok}
use litetlog.Witness.Process.Endorse.{OpensPrefix}
use litetlog.Witness.Process.Check.{get_log-ok, get_log-db}

-- The log has this size.
pub record Stored (origin : Bytes) (n : ℕ) (db : Db) : Type 0 where
  pub row : LogRow
  pub known : find_log origin db.logs ≡ some row
  pub size : row.tree_size ≡ n

-- A conflict tells the size of the log.
abbrev pub Tells : {A : Type 0} → Bytes → Result A → World → Type 0
Tells o r w = (n : ℕ) → r ≡ err (conflict n) → Stored o n w.db

module _ {A B : Type 0} {o : Bytes} where
  pub resume-Tells :
      (r : Result A) (f : A → Action B) (w : World)
      → Tells o r w
      → ((a : A) → r ≡ ok a → Tells o (f a w).0 (f a w).1)
      → Tells o (resume r f w).0 (resume r f w).1
  resume-Tells (ok a) f w t k = k a refl
  resume-Tells (err e) f w t k = λ n h. t n cc

  pub >>=-Tells :
      (m : Action A) (f : A → Action B) (w : World)
      → Tells o (m w).0 (m w).1
      → ((a : A) → (m w).0 ≡ ok a → Tells o (f a (m w).1).0 (f a (m w).1).1)
      → Tells o ((m >>= f) w).0 ((m >>= f) w).1
  >>=-Tells m f w t k = resume-Tells (m w).0 f (m w).1 t k

module _ {A : Type 0} {o : Bytes} where
  pub exec_on-Tells :
      (run : Db → A × Db) (db : Db) (faults : List (Option Bytes))
      → Tells o (exec_on run db faults).0 (exec_on run db faults).1
  unfolding exec_on
  exec_on-Tells run db [] n h = cc
  exec_on-Tells run db (none ∷ faults) n h = cc
  exec_on-Tells run db (some message ∷ faults) n h = cc

  pub exec-Tells : (run : Db → A × Db) (w : World) → Tells o (exec run w).0 (exec run w).1
  unfolding exec
  exec-Tells run w = exec_on-Tells run w.db w.faults

  pub lift-Tells : (r : Bytes ⊎ A) (w : World) → Tells o (lift r w).0 (lift r w).1
  lift-Tells (inl message) w n h = cc
  lift-Tells (inr a) w n h = cc

  pub internal-Tells :
      (message : Bytes) (x : Option A) (w : World)
      → Tells o (some_or (internal message) x w).0 (some_or (internal message) x w).1
  internal-Tells message none w n h = cc
  internal-Tells message (some a) w n h = cc

module _ (lib : Library) where
  pub row_head-Tells :
      {o : Bytes} (row : Option LogRow) (w : World)
      → Tells o (row_head lib row w).0 (row_head lib row w).1
  unfolding row_head
  row_head-Tells none w n h = cc
  row_head-Tells (some r) w n h = cc

  pub get_log-Tells :
      (origin : Bytes) (w : World) → Tells origin (get_log lib origin w).0 (get_log lib origin w).1
  unfolding get_log
  get_log-Tells origin w =
      let read : Db → Option LogRow × Db = λ db. (find_log origin db.logs, db) in
      >>=-Tells (exec read) (row_head lib) w (exec-Tells read w)
        λ row _. row_head-Tells row (exec read w).1

  -- The size that was read is that of the log's row.
  pub read-Stored :
      (origin : Bytes) (w : World) {known : Head}
      → (get_log lib origin w).0 ≡ ok known
      → Stored origin known.size (get_log lib origin w).1.db
  read-Stored origin w {known} h =
      let (row, there, e) = get_log-ok lib origin w h in
      record {
        row = row;
        known = ap (λ (db : Db). find_log origin db.logs) (get_log-db lib origin w) ∙ there;
        size = cc (ap (λ (k : Head). k.size) e);
      }

  check_head-conflict :
      (old_size new_size : ℕ) (new_hash : Bytes) (proof : List Bytes) (known : Head) (w : World)
      (n : ℕ)
      → (check_head lib old_size new_size new_hash proof known w).0 ≡ err (conflict n)
      → (known.size ≡ n) × ((check_head lib old_size new_size new_hash proof known w).1 ≡ w)
  unfolding check_head
  check_head-conflict old_size new_size new_hash proof known w n h = ground arith

  pub check_head-Tells :
      {o : Bytes} (old_size new_size : ℕ) (new_hash : Bytes) (proof : List Bytes) (known : Head)
      (w : World)
      → Stored o known.size w.db
      → Tells o
          (check_head lib old_size new_size new_hash proof known w).0
          (check_head lib old_size new_size new_hash proof known w).1
  check_head-Tells old_size new_size new_hash proof known w s n h =
      let (size, same) = check_head-conflict old_size new_size new_hash proof known w n h in
      rw (same, ← size) s

  pub check_consistency-Tells :
      (origin : Bytes) (old_size new_size : ℕ) (new_hash : Bytes) (proof : List Bytes) (w : World)
      → Tells origin
          (check_consistency lib origin old_size new_size new_hash proof w).0
          (check_consistency lib origin old_size new_size new_hash proof w).1
  unfolding check_consistency
  check_consistency-Tells origin old_size new_size new_hash proof w =
      elim (Bool-cases (ltb new_size old_size)) [
        | inl shrinks ↦ rw shrinks (λ n h. cc h)
        | inr grows ↦ rw grows (
            >>=-Tells (get_log lib origin) (check_head lib old_size new_size new_hash proof) w
              (get_log-Tells origin w)
              λ known read.
                check_head-Tells old_size new_size new_hash proof known (get_log lib origin w).1
                  (read-Stored origin w read))
      ]

  pub refuse-Tells :
      (origin : Bytes) (w : World)
      → Tells origin
          ((get_log lib origin >>= λ (known : Head). raise {A = Unit {0}} (conflict known.size))
            w).0
          ((get_log lib origin >>= λ (known : Head). raise {A = Unit {0}} (conflict known.size))
            w).1
  refuse-Tells origin w =
      >>=-Tells (get_log lib origin) (λ known. raise (conflict known.size)) w
        (get_log-Tells origin w)
        λ known read n h.
          let size : known.size ≡ n = cc h in
          subst (λ k. Stored origin k (get_log lib origin w).1.db) size (read-Stored origin w read)

  pub check_changes-Tells :
      (origin : Bytes) (w : World)
      → Tells origin (check_changes lib origin w).0 (check_changes lib origin w).1
  unfolding check_changes
  check_changes-Tells origin w = elim (Bool-cases (w.db.changes == 1)) [
    | inl one ↦ rw one (λ n h. cc h)
    | inr other ↦ rw other (refuse-Tells origin w)
  ]

  pub persist_tree_head-Tells :
      (origin : Bytes) (old_size new_size : ℕ) (new_hash : Bytes) (w : World)
      → Tells origin
          (persist_tree_head lib origin old_size new_size new_hash w).0
          (persist_tree_head lib origin old_size new_size new_hash w).1
  unfolding persist_tree_head
  persist_tree_head-Tells origin old_size new_size new_hash w =
      let run : Db → Unit {0} × Db =
        λ db. (tt, update_log origin old_size new_size (lib.hash_text new_hash) db) in
      >>=-Tells (exec run) (λ _. check_changes lib origin) w (exec-Tells run w)
        λ _ _. check_changes-Tells origin (exec run w).1
