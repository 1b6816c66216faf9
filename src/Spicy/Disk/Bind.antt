-- ===== src/Spicy/Disk/Bind.antt =====
-- What a command of cmd/spicy/spicy.go that goes on has done, call by call.
use litetlog.Prelude.{◌≡◌, refl, sym, ap, Bool, true, false, Option, none, some, Bytes}
use litetlog.Spicy.Disk.{
  Reason, Outcome, ok, fatal, hung, Fault, works, denied, cut_short, Disk, quiet, Command, resume,
  ◌>>=◌, some_or, require, ends, first_fault, after_call, set_file, read, read_by, exists,
  exists_by, write, write_by,
}

-- The command goes on with `a`, from the disk `d` at the disk `d'`.
abbrev pub Returns {ℓ} : {A : Type ℓ} → Command A → Disk → A → Disk → Type ℓ
Returns m d a d' = m d ≡ (ok a, d')

module _ {ℓ κ} {A : Type ℓ} {B : Type κ} where
  resume-Returns :
      (r : Outcome A) (d' : Disk) (f : A → Command B) {b : B} {d'' : Disk}
      → resume r f d' ≡ (ok b, d'')
      → (a : A) × (r ≡ ok a) × Returns (f a) d' b d''
  resume-Returns (ok a) d' f h = (a, refl, h)
  resume-Returns (fatal why) d' f h = cc (ap (λ p. p.0) h)
  resume-Returns hung d' f h = cc (ap (λ p. p.0) h)

  pub >>=-Returns :
      (m : Command A) (f : A → Command B) (d : Disk) {b : B} {d'' : Disk}
      → Returns (m >>= f) d b d''
      → (a : A) × (d' : Disk) × Returns m d a d' × Returns (f a) d' b d''
  >>=-Returns m f d h =
      let (a, first, second) = resume-Returns (m d).0 (m d).1 f h in
      (a, (m d).1, (λ i. (first i, (m d).1)), second)

  pub >>=-steps :
      (m : Command A) (f : A → Command B) (d : Disk) {a : A} {d' : Disk}
      → Returns m d a d'
      → (m >>= f) d ≡ f a d'
  >>=-steps m f d h = ap (λ p. resume p.0 f p.1) h

module _ {ℓ} {A : Type ℓ} where
  pub some_or-Returns :
      (why : Reason) (o : Option A) (d : Disk) {a : A} {d' : Disk}
      → Returns (some_or why o) d a d'
      → (o ≡ some a) × (d ≡ d')
  some_or-Returns why none d h = cc (ap (λ p. p.0) h)
  some_or-Returns why (some a) d h = (cc (ap (λ p. p.0) h), ap (λ p. p.1) h)

  pub ends-Returns :
      (o : Option A) (d : Disk) {a : A} {d' : Disk}
      → Returns (ends o) d a d'
      → (o ≡ some a) × (d ≡ d')
  ends-Returns none d h = cc (ap (λ p. p.0) h)
  ends-Returns (some a) d h = (cc (ap (λ p. p.0) h), ap (λ p. p.1) h)

pub require-Returns :
    (why : Reason) (b : Bool) (d : Disk) {d' : Disk}
    → Returns (require why b) d tt d'
    → (b ≡ true) × (d ≡ d')
require-Returns why true d h = (refl, ap (λ p. p.1) h)
require-Returns why false d h = cc (ap (λ p. p.0) h)

read_by-Returns :
    (f : Fault) (why : Reason) (path : Bytes) (d : Disk) {s : Bytes} {d' : Disk}
    → Returns (read_by f why path) d s d'
    → (d.files path ≡ some s) × (d'.files ≡ d.files)
unfolding read_by
read_by-Returns works why path d h =
    let (e, same) = some_or-Returns why (d.files path) (after_call d d.files) h in
    (e, ap (λ (x : Disk). x.files) (sym same))
read_by-Returns denied why path d h = cc (ap (λ p. p.0) h)
read_by-Returns (cut_short n) why path d h = cc (ap (λ p. p.0) h)

pub read-Returns :
    (why : Reason) (path : Bytes) (d : Disk) {s : Bytes} {d' : Disk}
    → Returns (read why path) d s d'
    → (d.files path ≡ some s) × (d'.files ≡ d.files)
unfolding read
read-Returns why path d h = read_by-Returns (first_fault d.faults) why path d h

pub read-quiet :
    (why : Reason) (path : Bytes) (files : Bytes → Option Bytes) {s : Bytes}
    → files path ≡ some s
    → read why path (quiet files) ≡ (ok s, quiet files)
unfolding read read_by
read-quiet why path files h = rw h refl

exists_by-Returns :
    (f : Fault) (path : Bytes) (d : Disk) {b : Bool} {d' : Disk}
    → Returns (exists_by f path) d b d'
    → d'.files ≡ d.files
unfolding exists_by
exists_by-Returns works path d h = sym (ap (λ p. p.1.files) h)
exists_by-Returns denied path d h = sym (ap (λ p. p.1.files) h)
exists_by-Returns (cut_short n) path d h = sym (ap (λ p. p.1.files) h)

pub exists-Returns :
    (path : Bytes) (d : Disk) {b : Bool} {d' : Disk}
    → Returns (exists path) d b d'
    → d'.files ≡ d.files
unfolding exists
exists-Returns path d h = exists_by-Returns (first_fault d.faults) path d h

write_by-Returns :
    (f : Fault) (why : Reason) (path content : Bytes) (d : Disk) {d' : Disk}
    → Returns (write_by f why path content) d tt d'
    → d'.files ≡ set_file path content d.files
unfolding write_by
write_by-Returns works why path content d h = sym (ap (λ p. p.1.files) h)
write_by-Returns denied why path content d h = cc (ap (λ p. p.0) h)
write_by-Returns (cut_short n) why path content d h = cc (ap (λ p. p.0) h)

pub write-Returns :
    (why : Reason) (path content : Bytes) (d : Disk) {d' : Disk}
    → Returns (write why path content) d tt d'
    → d'.files ≡ set_file path content d.files
unfolding write
write-Returns why path content d h = write_by-Returns (first_fault d.faults) why path content d h

pub ok_injective {ℓ} : {A : Type ℓ} {a b : A} → ok a ≡ ok b → a ≡ b
ok_injective h = cc h
