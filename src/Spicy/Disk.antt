-- ===== src/Spicy/Disk.antt =====
-- What cmd/spicy/spicy.go does to the file system, and how it ends. A file is its path, as it is
-- spelled; its mode is left out.
pub mod Bind
use litetlog.Prelude.{
  ℕ, zero, suc, Bool, true, false, Option, none, some, List, [], ◌∷◌, if◌then◌else◌, Bytes,
  bytes_eq,
}

-- The calls of `log.Fatalf`, by what they report.
pub data Reason : Type 0 where
  no_files bad_public_key unreadable malformed_signature unverified_checkpoint : Reason
  bad_checkpoint other_log not_included : Reason
  already_initialized no_key_generated no_signer unsigned_checkpoint unwritten_key : Reason
  unwritten_latest unwritten_edge : Reason
  unreadable_key bad_key no_verifier unreadable_latest unverified_latest bad_latest : Reason
  unreadable_edge malformed_edge size_mismatch count_mismatch : Reason
  already_signed unreadable_file not_appended not_copied no_tree_hash no_proof : Reason
  unwritten_signature : Reason

-- `hung` is a loop of `RightEdge` that does not end.
pub data Outcome {ℓ} (A : Type ℓ) : Type ℓ where
  ok : A → Outcome A
  fatal : Reason → Outcome A
  hung : Outcome A

-- How a call of the system goes. One that is cut short writes as many bytes and fails.
pub data Fault : Type 0 where
  works denied : Fault
  cut_short : ℕ → Fault

-- The files, and the faults of the calls still to be made; behind the list all calls work.
pub record Disk : Type 0 where
  pub files : Bytes → Option Bytes
  pub faults : List Fault

-- No call fails.
abbrev pub quiet : (Bytes → Option Bytes) → Disk
quiet files = record { files = files; faults = [] }

abbrev pub Command {ℓ} : Type ℓ → Type ℓ
Command A = Disk → Outcome A × Disk

abbrev pub resume {ℓ κ} : {A : Type ℓ} {B : Type κ} → Outcome A → (A → Command B) → Command B
resume (ok a) f d = f a d
resume (fatal why) f d = (fatal why, d)
resume hung f d = (hung, d)

infixl 5 ◌>>=◌
abbrev pub ◌>>=◌ {ℓ κ} : {A : Type ℓ} {B : Type κ} → Command A → (A → Command B) → Command B
◌>>=◌ m f d = resume (m d).0 f (m d).1

abbrev pub pure {ℓ} : {A : Type ℓ} → A → Command A
pure a d = (ok a, d)

abbrev pub stop {ℓ} : {A : Type ℓ} → Reason → Command A
stop why d = (fatal why, d)

-- A value, or the end of the program where there is none.
abbrev pub some_or {ℓ} : {A : Type ℓ} → Reason → Option A → Command A
some_or why none = stop why
some_or why (some a) = pure a

abbrev pub require : Reason → Bool → Command (Unit {0})
require why true = pure tt
require why false = stop why

-- A loop of `RightEdge`.
abbrev pub ends {ℓ} : {A : Type ℓ} → Option A → Command A
ends none d = (hung, d)
ends (some a) d = (ok a, d)

abbrev pub first_fault : List Fault → Fault
first_fault [] = works
first_fault (f ∷ faults) = f

abbrev pub later_faults : List Fault → List Fault
later_faults [] = []
later_faults (f ∷ faults) = faults

abbrev pub set_file : Bytes → Bytes → (Bytes → Option Bytes) → Bytes → Option Bytes
set_file path content files j = if bytes_eq j path then some content else files j

-- The call is made.
abbrev pub after_call : Disk → (Bytes → Option Bytes) → Disk
after_call d files = record { files = files; faults = later_faults d.faults }

-- `os.ReadFile`
pub read_by : Fault → Reason → Bytes → Command Bytes
read_by works why path d = some_or why (d.files path) (after_call d d.files)
read_by _ why path d = (fatal why, after_call d d.files)

unfoldable pub read : Reason → Bytes → Command Bytes
unfolding read_by
read why path d = read_by (first_fault d.faults) why path d

abbrev is_some : Option Bytes → Bool
is_some none = false
is_some (some s) = true

-- Whether `os.Stat` returns no error.
pub exists_by : Fault → Bytes → Command Bool
exists_by works path d = (ok (is_some (d.files path)), after_call d d.files)
exists_by _ path d = (ok false, after_call d d.files)

unfoldable pub exists : Bytes → Command Bool
unfolding exists_by
exists path d = exists_by (first_fault d.faults) path d

abbrev take : ℕ → Bytes → Bytes
take zero s = []
take (suc n) [] = []
take (suc n) (c ∷ s) = c ∷ take n s

-- `os.WriteFile`
pub write_by : Fault → Reason → Bytes → Bytes → Command (Unit {0})
write_by works why path content d = (ok tt, after_call d (set_file path content d.files))
write_by denied why path content d = (fatal why, after_call d d.files)
write_by (cut_short n) why path content d =
    (fatal why, after_call d (set_file path (take n content) d.files))

unfoldable pub write : Reason → Bytes → Bytes → Command (Unit {0})
unfolding write_by
write why path content d = write_by (first_fault d.faults) why path content d
