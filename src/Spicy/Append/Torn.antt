-- ===== src/Spicy/Append/Torn.antt =====
-- What `spicy` of cmd/spicy/spicy.go leaves when the new edge cannot be written behind the new
-- checkpoint.
use litetlog.Prelude.{
  ℕ, ◌≤◌, ◌<◌, ◌^◌, ◌≡◌, ◌≢◌, refl, sym, subst, Option, some, List, [], ◌∷◌, length, Bytes, All,
  Lacks, arith, bytes_eq_refl, bytes_eq_ne,
}
use litetlog.Std.Trim.{IsVisible, trim_space}
use litetlog.Tlogx.Checkpoint.{newline, format_checkpoint}
use litetlog.Tlogx.Checkpoint.Parse.{parse-IsCheckpoint}
use litetlog.Tlogx.Cosignature.{NoteVerifier}
use litetlog.Tlogx.Edge.Reference.{right_edge-digits}
use litetlog.Witness.Library.{Signer}
use litetlog.Spicy.Library.{Library, Hashes, read_hashes}
use litetlog.Spicy.Library.Laws.{TextLaws}
use litetlog.Spicy.Disk.{
  unreadable_key, unreadable_latest, unreadable_edge, unwritten_edge, size_mismatch, fatal, works,
  denied, Disk, quiet, set_file, write,
}
use litetlog.Spicy.Disk.Bind.{read-quiet}
use litetlog.Spicy.Init.{latest_path, edge_path}
use litetlog.Spicy.Edge.{format_edge}
use litetlog.Spicy.Edge.RoundTrip.{load_edge_mismatch}
use litetlog.Spicy.Append.{load_log, save}
use litetlog.Spicy.Append.Laws.{LogLaws}
use litetlog.Spicy.Append.Paths.{latest_path-ne_edge}
use litetlog.Spicy.Append.Load.{Keeps}
use litetlog.Spicy.Append.Present.{present-IsHash}
use litetlog.Spicy.Append.Opened.{format_checkpoint-IsNoteText, open_note-own}
use litetlog.Spicy.Append.Saved.{head_of, parse-format_head}

module _ (lib : Library) (laws : LogLaws lib) (texts : TextLaws lib) (key_path assets : Bytes)
    (verifier : NoteVerifier) (es : List Bytes) (files : Bytes → Option Bytes)
    (k : Keeps lib laws key_path assets verifier verifier.name es files)
    (short : length verifier.name ≤ 999_000) (plain : All IsVisible verifier.name)
    (key_apart : key_path ≢ latest_path assets) (size : ℕ) (larger : length es < size)
    (fits : size < 2 ^ 62) (signer : Signer)
    (signs : lib.new_signer (trim_space k.skey) ≡ some signer) (hashes : Hashes) (hash : Bytes)
    (hashes_to : lib.tree_hash size (read_hashes hashes) ≡ some hash) (latest : Bytes)
    (signed : lib.sign_note (format_checkpoint (head_of verifier.name size hash)) signer
      ≡ some latest) where
  -- The files, the old edge among them.
  abbrev left_files : Bytes → Option Bytes
  left_files = set_file (latest_path assets) latest files

  save_torn :
      save lib assets signer verifier.name size hashes
        (record { files = files; faults = works ∷ denied ∷ [] })
      ≡ (fatal unwritten_edge, quiet left_files)
  unfolding save write
  save_torn = rw (hashes_to, signed, right_edge-digits lib.stored_hash_index size fits) refl

  load_log_torn :
      load_log lib key_path assets (quiet left_files) ≡ (fatal size_mismatch, quiet left_files)
  unfolding load_log
  load_log_torn =
      let key_here : left_files key_path ≡ some k.skey =
        rw (bytes_eq_ne key_path (latest_path assets) key_apart) k.key_here in
      let latest_here : left_files (latest_path assets) ≡ some latest =
        rw (bytes_eq_refl (latest_path assets)) refl in
      let edge_here : left_files (edge_path assets)
          ≡ some (format_edge lib k.checkpoint.size k.idx k.hashes) =
        rw
          (bytes_eq_ne (edge_path assets) (latest_path assets)
            (λ e. latest_path-ne_edge assets (sym e)))
          k.edge_here in
      let lacks : Lacks newline verifier.name =
        subst (Lacks newline) k.own (parse-IsCheckpoint k.text k.parses).origin_line in
      let parses =
        parse-format_head verifier.name size hash lacks short (omega (arith, fits))
          (laws.tree_hash_size size hashes hash hashes_to) in
      let opens =
        open_note-own lib laws (trim_space k.skey)
          (format_checkpoint (head_of verifier.name size hash)) latest signer verifier plain
          (format_checkpoint-IsNoteText verifier.name size hash plain
            (laws.tree_hash_size size hashes hash hashes_to))
          signs k.verifies signed in
      rw
        (
          read-quiet unreadable_key key_path left_files key_here,
          signs,
          k.verifies,
          read-quiet unreadable_latest (latest_path assets) left_files latest_here,
          opens,
          parses,
          read-quiet unreadable_edge (edge_path assets) left_files edge_here,
          load_edge_mismatch lib texts size k.checkpoint.size k.idx k.hashes (quiet left_files)
              (omega (arith, fits, larger, k.size)) (λ e. absurd (omega (arith, e, larger, k.size)))
              (present-IsHash lib laws es k.hashes k.idx k.list k.holds k.present),
        )
        refl

  -- Under LogLaws and TextLaws of the library, where the files keep a log under a key whose name
  -- has at most 999000 bytes, all graphic ASCII characters, and whose path is not that of the
  -- checkpoint, and a larger tree of fewer than 2^62 records, for which TreeHash and note.Sign
  -- return, is saved: if the new checkpoint is written and the call that writes the new edge is
  -- denied, the run ends with the error of the edge, and loading the files that it leaves ends
  -- with the error that the sizes of edge and checkpoint differ.
  pub save-load_torn :
      (d' : Disk) × (save lib assets signer verifier.name size hashes
          (record { files = files; faults = works ∷ denied ∷ [] })
        ≡ (fatal unwritten_edge, d'))
      × (load_log lib key_path assets (quiet d'.files) ≡ (fatal size_mismatch, quiet d'.files))
  save-load_torn = (quiet left_files, save_torn, load_log_torn)
