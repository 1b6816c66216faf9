-- ===== src/Witness/Race.antt =====
-- Requests to internal/witness/witness.go that run at the same time on the one connection of the
-- witness: any number of goroutines, interleaved between their calls of the database. No lock
-- joins the UPDATE of `persistTreeHead` with the call of `Changes` behind it.
pub mod Passed
pub mod Lost
pub mod Fresh
pub mod Safe
use litetlog.Prelude.{ℕ, ◌≡◌, [], List, Bytes, ◌==◌, if◌then◌else◌, length, All}
use litetlog.Witness.Library.{IsHash, ok, Library}
use litetlog.Witness.Db.{Db, quiet, update_log}
use litetlog.Witness.Process.{check_consistency, check_changes}

-- What `checkConsistency` and `persistTreeHead` are called with.
pub record Attempt : Type 0 where
  pub origin : Bytes
  pub old_size : ℕ
  pub new_size : ℕ
  pub new_hash : Bytes
  pub proof : List Bytes

-- Where a request stands: before `checkConsistency`, behind it, behind the UPDATE, or past
-- `persistTreeHead` with no error, so that it goes on to sign.
pub data Phase : Type 0 where
  idle : Phase
  checked updated accepted : Attempt → Phase

pub record System : Type 0 where
  pub db : Db
  pub phase : ℕ → Phase

abbrev pub start : Db → System
start db = record { db = db; phase = λ _. idle }

abbrev pub set_phase : ℕ → Phase → (ℕ → Phase) → ℕ → Phase
set_phase i p phase j = if j == i then p else phase j

module _ (lib : Library) where
  abbrev pub Passes : Attempt → Db → Type 0
  Passes a db =
      (check_consistency lib a.origin a.old_size a.new_size a.new_hash a.proof (quiet db)).0 ≡ ok tt

  abbrev pub update_by : Attempt → Db → Db
  update_by a = update_log a.origin a.old_size a.new_size (lib.hash_text a.new_hash)

  -- One goroutine goes on by one call; statements do not fail here.
  pub data Step (s : System) : System → Type 0 where
    check :
        (i : ℕ) (a : Attempt)
        → s.phase i ≡ idle
        → IsHash a.new_hash
        → Passes a s.db
        → Step s (record s { phase = set_phase i (checked a) s.phase })
    update :
        (i : ℕ) (a : Attempt)
        → s.phase i ≡ checked a
        → Step s (record { db = update_by a s.db; phase = set_phase i (updated a) s.phase })
    accept :
        (i : ℕ) (a : Attempt)
        → s.phase i ≡ updated a
        → (check_changes lib a.origin (quiet s.db)).0 ≡ ok tt
        → Step s (record s { phase = set_phase i (accepted a) s.phase })
    refuse : (i : ℕ) → Step s (record s { phase = set_phase i idle s.phase })

  pub data Reach (s : System) : System → Type 0 where
    here : Reach s s
    next : {t u : System} → Reach s t → Step t u → Reach s u
