-- ===== src/Spicy/Append/Stages.antt =====
-- The stages of a run of `spicy` of cmd/spicy/spicy.go, and which files each of them writes.
use litetlog.Prelude.{
  ℕ, ◌+◌, ◌≡◌, ◌≢◌, refl, sym, ap, ◌∙◌, Option, some, List, [], ◌∷◌, length, Bytes, All,
  bytes_eq_refl, bytes_eq_ne,
}
use litetlog.Spicy.Library.{Library, Hashes}
use litetlog.Spicy.Disk.{Disk, set_file}
use litetlog.Spicy.Disk.Bind.{Returns, >>=-Returns}
use litetlog.Spicy.Init.{latest_path, edge_path}
use litetlog.Spicy.Append.{Log, entry_path, load_log, append_files, save, write_signatures, append}
use litetlog.Spicy.Append.Paths.{latest_path-ne_edge, entry_path-ne_latest, entry_path-ne_edge}
use litetlog.Spicy.Append.Files.{EntriesIn, NoEntry}
use litetlog.Spicy.Append.Signed.{Distinct, NoSignature}

-- The path is no file of the log's, and no signature file.
pub record IsApart (assets : Bytes) (paths : List Bytes) (path : Bytes) : Type 0 where
  pub no_entry : NoEntry assets path
  pub not_latest : path ≢ latest_path assets
  pub not_edge : path ≢ edge_path assets
  pub no_signature : NoSignature paths path

-- The key and the files to append are apart from the files that are written, and the signature
-- files from the log's.
pub record Apart (key_path assets : Bytes) (paths : List Bytes) : Type 0 where
  pub key_apart : IsApart assets paths key_path
  pub paths_apart : All (IsApart assets paths) paths
  pub latest_apart : NoSignature paths (latest_path assets)
  pub edge_apart : NoSignature paths (edge_path assets)
  pub entries_apart : (k : ℕ) → NoSignature paths (entry_path assets k)
  pub distinct : Distinct paths

pub no_entries :
    (assets : Bytes) (all paths : List Bytes)
    → All (IsApart assets all) paths
    → All (NoEntry assets) paths
no_entries assets all [] h = tt
no_entries assets all (path ∷ paths) (a, h) = (a.no_entry, no_entries assets all paths h)

-- The files at the end of a run, by their paths.
module _ (assets : Bytes) (paths : List Bytes) (latest edge : Bytes)
    (files grown saved last : Bytes → Option Bytes)
    (writes : saved ≡ set_file (edge_path assets) edge (set_file (latest_path assets) latest grown))
    (entries_only : (j : Bytes) → NoEntry assets j → grown j ≡ files j)
    (signatures_only : (j : Bytes) → NoSignature paths j → last j ≡ saved j) where
  pub last_latest : NoSignature paths (latest_path assets) → last (latest_path assets) ≡ some latest
  last_latest apart =
      signatures_only (latest_path assets) apart
      ∙ ap (λ x. x (latest_path assets)) writes
      ∙ rw
          (
            bytes_eq_ne (latest_path assets) (edge_path assets) (latest_path-ne_edge assets),
            bytes_eq_refl (latest_path assets),
          )
          refl

  pub last_edge : NoSignature paths (edge_path assets) → last (edge_path assets) ≡ some edge
  last_edge apart =
      signatures_only (edge_path assets) apart
      ∙ ap (λ x. x (edge_path assets)) writes
      ∙ rw (bytes_eq_refl (edge_path assets)) refl

  last_grown :
      (j : Bytes)
      → j ≢ latest_path assets
      → j ≢ edge_path assets
      → NoSignature paths j
      → last j ≡ grown j
  last_grown j not_latest not_edge apart =
      signatures_only j apart
      ∙ ap (λ x. x j) writes
      ∙ rw
          (bytes_eq_ne j (edge_path assets) not_edge, bytes_eq_ne j (latest_path assets) not_latest)
          refl

  pub last_kept : (j : Bytes) → IsApart assets paths j → last j ≡ files j
  last_kept j a = last_grown j a.not_latest a.not_edge a.no_signature ∙ entries_only j a.no_entry

  pub last-EntriesIn :
      (es : List Bytes)
      → ((k : ℕ) → NoSignature paths (entry_path assets k))
      → EntriesIn assets es grown
      → EntriesIn assets es last
  last-EntriesIn es apart entries k f h =
      last_grown (entry_path assets k) (λ e. entry_path-ne_latest assets k (sym e))
        (λ e. entry_path-ne_edge assets k (sym e)) (apart k)
      ∙ entries k f h

pub kept_paths :
    (files last : Bytes → Option Bytes) (assets : Bytes) (all paths : List Bytes)
    → ((j : Bytes) → IsApart assets all j → last j ≡ files j)
    → All (IsApart assets all) paths
    → All (λ path. last path ≡ files path) paths
kept_paths files last assets all [] kept h = tt
kept_paths files last assets all (path ∷ paths) kept (a, h) =
    (kept path a, kept_paths files last assets all paths kept h)

module _ (lib : Library) where
  -- The stages of a run.
  pub record Ran (key_path assets : Bytes) (paths : List Bytes) (d d' : Disk) : Type 0 where
    pub log : Log
    pub hashes : Hashes
    pub checkpoint : Bytes
    pub behind_load : Disk
    pub behind_entries : Disk
    pub behind_save : Disk
    pub loads : Returns (load_log lib key_path assets) d log behind_load
    pub appends :
        Returns
          (append_files lib assets log.checkpoint.size paths log.hashes)
          behind_load
          hashes
          behind_entries
    pub saves :
        Returns
          (save lib assets log.signer log.checkpoint.origin
            (log.checkpoint.size + length paths)
            hashes)
          behind_entries
          checkpoint
          behind_save
    pub signs :
        Returns
          (write_signatures lib
            (log.checkpoint.size + length paths)
            checkpoint
            hashes
            log.checkpoint.size
            paths)
          behind_save
          tt
          d'

  pub append-Ran :
      (key_path assets : Bytes) (paths : List Bytes) (d : Disk) {d' : Disk}
      → Returns (append lib key_path assets paths) d tt d'
      → Ran key_path assets paths d d'
  unfolding append
  append-Ran key_path assets [] d h = cc (ap (λ p. p.0) h)
  append-Ran key_path assets (path ∷ paths) d h =
      let (l, d1, m1, h1) = >>=-Returns (load_log lib key_path assets) _ d h in
      let c = l.checkpoint in
      let (hashes, d2, m2, h2) =
        >>=-Returns (append_files lib assets c.size (path ∷ paths) l.hashes) _ d1 h1 in
      let (cp, d3, m3, h3) =
        >>=-Returns (save lib assets l.signer c.origin (c.size + length (path ∷ paths)) hashes) _ d2
          h2 in
      record {
        log = l;
        hashes = hashes;
        checkpoint = cp;
        behind_load = d1;
        behind_entries = d2;
        behind_save = d3;
        loads = m1;
        appends = m2;
        saves = m3;
        signs = h3;
      }
  -- The files at the end of a run, by their paths.
