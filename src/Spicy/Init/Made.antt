-- ===== src/Spicy/Init/Made.antt =====
-- What the calls of `spicy -init` of cmd/spicy/spicy.go return, and the files that they leave.
use litetlog.Prelude.{◌≡◌, sym, ap, subst, ◌∙◌, not, Option, some, Bytes, codes}
use litetlog.Tlogx.Checkpoint.{format_checkpoint}
use litetlog.Witness.Library.{Signer}
use litetlog.Spicy.Library.{Library}
use litetlog.Spicy.Disk.{
  already_initialized, no_key_generated, no_signer, unsigned_checkpoint, unwritten_key,
  unwritten_latest, unwritten_edge, Disk, set_file, some_or, exists, write,
}
use litetlog.Spicy.Disk.Bind.{
  Returns, >>=-Returns, some_or-Returns, require-Returns, exists-Returns, write-Returns,
  ok_injective,
}
use litetlog.Spicy.Init.{
  latest_path, edge_path, empty_checkpoint, unused, none_used, store_log, init,
}

unused-files :
    (path : Bytes) (d : Disk) {d' : Disk} → Returns (unused path) d tt d' → d'.files ≡ d.files
unfolding unused
unused-files path d h =
    let (b, d1, m1, h1) = >>=-Returns (exists path) _ d h in
    let (_, f2) = require-Returns already_initialized (not b) d1 h1 in
    ap (λ (x : Disk). x.files) (sym f2) ∙ exists-Returns path d m1

none_used-files :
    (key_path assets : Bytes) (d : Disk) {d' : Disk}
    → Returns (none_used key_path assets) d tt d'
    → d'.files ≡ d.files
unfolding none_used
none_used-files key_path assets d h =
    let (_, d1, m1, h1) = >>=-Returns (unused (latest_path assets)) _ d h in
    let (_, d2, m2, h2) = >>=-Returns (unused (edge_path assets)) _ d1 h1 in
    unused-files key_path d2 h2
    ∙ unused-files (edge_path assets) d1 m2
    ∙ unused-files (latest_path assets) d m1

-- The files of a new log.
abbrev pub stored_files :
    Bytes → Bytes → Bytes → Bytes → (Bytes → Option Bytes) → Bytes → Option Bytes
stored_files key_path assets skey latest files =
    set_file (edge_path assets) (codes "size 0\n")
      (set_file (latest_path assets) latest (set_file key_path skey files))

store_log-files :
    (key_path assets skey latest : Bytes) (d : Disk) {d' : Disk}
    → Returns (store_log key_path assets skey latest) d tt d'
    → d'.files ≡ stored_files key_path assets skey latest d.files
unfolding store_log
store_log-files key_path assets skey latest d h =
    let (_, d1, m1, h1) = >>=-Returns (write unwritten_key key_path skey) _ d h in
    let (_, d2, m2, h2) =
      >>=-Returns (write unwritten_latest (latest_path assets) latest) _ d1 h1 in
    write-Returns unwritten_edge (edge_path assets) (codes "size 0\n") d2 h2
    ∙ ap (set_file (edge_path assets) (codes "size 0\n")) (
        write-Returns unwritten_latest (latest_path assets) latest d1 m2
        ∙ ap (set_file (latest_path assets) latest)
            (write-Returns unwritten_key key_path skey d m1))

module _ (lib : Library) where
  -- The values that the calls of `-init` have returned, and the files behind them.
  pub record Made (name key_path assets vkey : Bytes) (files files' : Bytes → Option Bytes)
      : Type 0 where
    pub skey : Bytes
    pub signer : Signer
    pub latest : Bytes
    pub generated : lib.generate_key name ≡ some (skey, vkey)
    pub signs : lib.new_signer skey ≡ some signer
    pub signed : lib.sign_note (format_checkpoint (empty_checkpoint name)) signer ≡ some latest
    pub written : files' ≡ stored_files key_path assets skey latest files

  pub init-Made :
      (name key_path assets : Bytes) (d : Disk) {vkey : Bytes} {d' : Disk}
      → Returns (init lib name key_path assets) d vkey d'
      → Made name key_path assets vkey d.files d'.files
  unfolding init
  init-Made name key_path assets d {vkey} {d'} h =
      let (_, d1, m1, h1) = >>=-Returns (none_used key_path assets) _ d h in
      let ((skey, public), d2, m2, h2) =
        >>=-Returns (some_or no_key_generated (lib.generate_key name)) _ d1 h1 in
      let (signer, d3, m3, h3) = >>=-Returns (some_or no_signer (lib.new_signer skey)) _ d2 h2 in
      let (latest, d4, m4, h4) =
        >>=-Returns
          (some_or unsigned_checkpoint
            (lib.sign_note (format_checkpoint (empty_checkpoint name)) signer))
          _ d3 h3 in
      let (_, d5, m5, h5) = >>=-Returns (store_log key_path assets skey latest) _ d4 h4 in
      let f1 = none_used-files key_path assets d m1 in
      let (generated, f2) = some_or-Returns no_key_generated (lib.generate_key name) d1 m2 in
      let (signs, f3) = some_or-Returns no_signer (lib.new_signer skey) d2 m3 in
      let (signed, f4) =
        some_or-Returns unsigned_checkpoint
          (lib.sign_note (format_checkpoint (empty_checkpoint name)) signer) d3 m4 in
      let f5 = store_log-files key_path assets skey latest d4 m5 in
      let to4 : d4.files ≡ d.files =
        ap (λ (x : Disk). x.files) (sym f4)
        ∙ ap (λ (x : Disk). x.files) (sym f3)
        ∙ ap (λ (x : Disk). x.files) (sym f2)
        ∙ f1 in
      let built : Made name key_path assets public d.files d5.files = record {
        skey = skey;
        signer = signer;
        latest = latest;
        generated = generated;
        signs = signs;
        signed = signed;
        written = f5 ∙ ap (stored_files key_path assets skey latest) to4;
      } in
      subst (λ x. Made name key_path assets x d.files d'.files) (ok_injective (ap (λ p. p.0) h5))
        (subst (λ (y : Disk). Made name key_path assets public d.files y.files) (ap (λ p. p.1) h5)
          built)
