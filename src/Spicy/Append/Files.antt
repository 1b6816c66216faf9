-- ===== src/Spicy/Append/Files.antt =====
-- The files that `spicy` of cmd/spicy/spicy.go appends become entries of the log.
use litetlog.Prelude.{
  ℕ, zero, suc, ◌+◌, ◌<◌, ◌^◌, ◌≡◌, ◌≢◌, refl, sym, ap, subst, ◌∙◌, ◌⊎◌, inl, inr, not, Option,
  some, some_injective, List, [], ◌∷◌, ◌++◌, append_assoc, append-nil, length, length-append, Bytes,
  All, pos, arith, bytes_eq_refl, bytes_eq_ne,
}
use litetlog.Spicy.Append.Paths.{entry_path-ne}
use litetlog.Spicy.Library.{Library, Hashes, read_hashes, put_hashes}
use litetlog.Spicy.Signature.{spicy}
use litetlog.Spicy.Disk.{
  already_signed, unreadable_file, not_appended, not_copied, Disk, set_file, require, read, some_or,
  exists, write,
}
use litetlog.Spicy.Disk.Bind.{
  Returns, >>=-Returns, some_or-Returns, require-Returns, read-Returns, exists-Returns,
  write-Returns, ok_injective,
}
use litetlog.Spicy.Append.{entry_path, append_file, append_files}
use litetlog.Spicy.Append.Laws.{nth, Holds, LogLaws}

module _ (lib : Library) where
  -- The file is read and becomes entry `n`, with its new hashes.
  pub record Appended (assets : Bytes) (n : ℕ) (path : Bytes) (hashes hashes' : Hashes)
      (files files' : Bytes → Option Bytes) : Type 0 where
    pub content : Bytes
    pub new_hashes : List Bytes
    pub here : files path ≡ some content
    pub stores : lib.stored_hashes n content (read_hashes hashes) ≡ some new_hashes
    pub result : hashes' ≡ put_hashes (lib.stored_hash_index 0 (pos n)) 0 new_hashes hashes
    pub written : files' ≡ set_file (entry_path assets n) content files

  append_file-Appended :
      (assets : Bytes) (n : ℕ) (path : Bytes) (hashes : Hashes) (d : Disk) {hashes' : Hashes}
      {d' : Disk}
      → Returns (append_file lib assets n path hashes) d hashes' d'
      → Appended assets n path hashes hashes' d.files d'.files
  unfolding append_file
  append_file-Appended assets n path hashes d h =
      let (found, d1, m1, h1) = >>=-Returns (exists (path ++ spicy)) _ d h in
      let (_, d2, m2, h2) = >>=-Returns (require already_signed (not found)) _ d1 h1 in
      let (f, d3, m3, h3) = >>=-Returns (read unreadable_file path) _ d2 h2 in
      let (hh, d4, m4, h4) =
        >>=-Returns (some_or not_appended (lib.stored_hashes n f (read_hashes hashes))) _ d3 h3 in
      let (_, d5, m5, h5) = >>=-Returns (write not_copied (entry_path assets n) f) _ d4 h4 in
      let f1 = exists-Returns (path ++ spicy) d m1 in
      let (_, f2) = require-Returns already_signed (not found) d1 m2 in
      let (here, f3) = read-Returns unreadable_file path d2 m3 in
      let (stores, f4) =
        some_or-Returns not_appended (lib.stored_hashes n f (read_hashes hashes)) d3 m4 in
      let f5 = write-Returns not_copied (entry_path assets n) f d4 m5 in
      let before : d2.files ≡ d.files = ap (λ (x : Disk). x.files) (sym f2) ∙ f1 in
      let middle : d4.files ≡ d.files = ap (λ (x : Disk). x.files) (sym f4) ∙ f3 ∙ before in
      record {
        content = f;
        new_hashes = hh;
        here = subst (λ (x : Bytes → Option Bytes). x path ≡ some f) before here;
        stores = stores;
        result = sym (ok_injective (ap (λ p. p.0) h5));
        written = sym (ap (λ p. p.1.files) h5) ∙ f5 ∙ ap (set_file (entry_path assets n) f) middle;
      }

-- A member of a list with one more at its end.
nth-append_last :
    (es : List Bytes) (c : Bytes) (k : ℕ) {f : Bytes}
    → nth (es ++ (c ∷ [])) k ≡ some f
    → ((nth es k ≡ some f) × (k < length es)) ⊎ ((k ≡ length es) × (c ≡ f))
nth-append_last [] c zero h = inr (refl, some_injective h)
nth-append_last [] c (suc k) h = cc h
nth-append_last (e ∷ es) c zero h = inl (h, omega arith)
nth-append_last (e ∷ es) c (suc k) h = elim (nth-append_last es c k h) [
  | inl (there, lt) ↦ inl (there, omega (arith, lt))
  | inr (at, same) ↦ inr (omega (arith, at), same)
]

-- Every record of the log is in its entry's file.
abbrev pub EntriesIn : Bytes → List Bytes → (Bytes → Option Bytes) → Type 0
EntriesIn assets es files =
    (k : ℕ) (f : Bytes) → nth es k ≡ some f → files (entry_path assets k) ≡ some f

-- What the paths hold.
abbrev pub Contents : (Bytes → Option Bytes) → List Bytes → List Bytes → Type 0
Contents files [] [] = Unit
Contents files (path ∷ paths) (f ∷ fs) = (files path ≡ some f) × Contents files paths fs
Contents files _ _ = ⊥

-- No path is that of an entry.
abbrev pub NoEntry : Bytes → Bytes → Type 0
NoEntry assets path = (k : ℕ) → path ≢ entry_path assets k

EntriesIn-append_last :
    (assets : Bytes) (es : List Bytes) (c : Bytes) (files : Bytes → Option Bytes)
    → length es < 2 ^ 62
    → EntriesIn assets es files
    → EntriesIn assets (es ++ (c ∷ [])) (set_file (entry_path assets (length es)) c files)
EntriesIn-append_last assets es c files small old k f h = elim (nth-append_last es c k h) [
  | inl (there, lt) ↦
      let apart : entry_path assets k ≢ entry_path assets (length es) =
        entry_path-ne assets k (length es) (omega (arith, lt, small)) (omega (arith, small))
          (λ e. absurd (omega (arith, e, lt))) in
      rw (bytes_eq_ne (entry_path assets k) (entry_path assets (length es)) apart) (old k f there)
  | inr (at, same) ↦ rw (at, bytes_eq_refl (entry_path assets (length es))) (ap some same)
]

Contents-set_file :
    (assets : Bytes) (n : ℕ) (c : Bytes) (files : Bytes → Option Bytes)
    (paths contents : List Bytes)
    → All (NoEntry assets) paths
    → Contents (set_file (entry_path assets n) c files) paths contents
    → Contents files paths contents
Contents-set_file assets n c files [] [] h k = tt
Contents-set_file assets n c files [] (f ∷ fs) h k = k
Contents-set_file assets n c files (path ∷ paths) [] h k = k
Contents-set_file assets n c files (path ∷ paths) (f ∷ fs) (apart, h) (here, k) = (
  rw (bytes_eq_ne path (entry_path assets n) (apart n)) at here,
  Contents-set_file assets n c files paths fs h k,
)

module _ (lib : Library) (laws : LogLaws lib) where
  -- The log of the records `es` has grown by the files.
  pub record Grown (assets : Bytes) (es : List Bytes) (paths : List Bytes) (hashes' : Hashes)
      (files files' : Bytes → Option Bytes) : Type 0 where
    pub contents : List Bytes
    pub were : Contents files paths contents
    pub holds : Holds laws.stored (es ++ contents) hashes'
    pub entries : EntriesIn assets (es ++ contents) files'
    pub others : (j : Bytes) → NoEntry assets j → files' j ≡ files j

  pub append_files-Grown :
      (assets : Bytes) (es : List Bytes) (n : ℕ) (paths : List Bytes) (hashes : Hashes) (d : Disk)
      {hashes' : Hashes} {d' : Disk}
      → n ≡ length es
      → length es + length paths < 2 ^ 62
      → All (NoEntry assets) paths
      → Holds laws.stored es hashes
      → EntriesIn assets es d.files
      → Returns (append_files lib assets n paths hashes) d hashes' d'
      → Grown assets es paths hashes' d.files d'.files
  unfolding append_files
  append_files-Grown assets es n [] hashes d {hashes'} {d'} size small apart holds entries h =
      record {
        contents = [];
        were = tt;
        holds =
            rw (append-nil es)
              (subst (Holds laws.stored es) (ok_injective (ap (λ p. p.0) h)) holds);
        entries =
            rw (append-nil es)
              (subst (λ (x : Disk). EntriesIn assets es x.files) (ap (λ p. p.1) h) entries);
        others = λ j _. sym (ap (λ p. p.1.files j) h);
      }
  append_files-Grown assets es n (path ∷ paths) hashes d {hashes'} {d'} size small
        (first_apart, apart) holds entries h =
      let (hashes1, d1, m1, h1) = >>=-Returns (append_file lib assets n path hashes) _ d h in
      let a = append_file-Appended lib assets n path hashes d m1 in
      let f = a.content in
      let one = es ++ (f ∷ []) in
      let written : d1.files ≡ set_file (entry_path assets (length es)) f d.files =
        a.written ∙ ap (λ k. set_file (entry_path assets k) f d.files) size in
      let holds1 : Holds laws.stored one hashes1 =
        subst (Holds laws.stored one)
          (sym (
            a.result
            ∙ ap (λ k. put_hashes (lib.stored_hash_index 0 (pos k)) 0 a.new_hashes hashes) size))
          (laws.appends es f hashes a.new_hashes (omega (arith, small)) holds (
            subst (λ k. lib.stored_hashes k f (read_hashes hashes) ≡ some a.new_hashes) size
              a.stores)) in
      let entries1 : EntriesIn assets one d1.files =
        subst (EntriesIn assets one) (sym written)
          (EntriesIn-append_last assets es f d.files (omega (arith, small)) entries) in
      let g =
        append_files-Grown assets one (suc n) paths hashes1 d1
          (omega (arith, size, length-append es (f ∷ [])))
          (omega (arith, small, length-append es (f ∷ []))) apart holds1 entries1 h1 in
      let whole : one ++ g.contents ≡ es ++ (f ∷ g.contents) =
        append_assoc es (f ∷ []) g.contents in
      record {
        contents = f ∷ g.contents;
        were = (
          a.here,
          Contents-set_file assets (length es) f d.files paths g.contents apart
              (subst (λ x. Contents x paths g.contents) written g.were),
        );
        holds = subst (λ x. Holds laws.stored x hashes') whole g.holds;
        entries = subst (λ x. EntriesIn assets x d'.files) whole g.entries;
        others = λ j no_entry.
            g.others j no_entry
            ∙ ap (λ x. x j) written
            ∙ rw (bytes_eq_ne j (entry_path assets (length es)) (no_entry (length es))) refl;
      }
