-- ===== src/Spicy/Append/Whole.antt =====
-- A run of `spicy` of cmd/spicy/spicy.go that reports a success keeps the log, and its signatures
-- are verified.
use litetlog.Prelude.{
  ℕ, ◌+◌, ◌≤◌, ◌<◌, ◌^◌, ◌≡◌, refl, sym, ap, subst, ◌∙◌, Option, some, some_injective, List, [],
  ◌∷◌, ◌++◌, length, length-append, Bytes, Lacks, All, arith,
}
use litetlog.Std.Trim.{IsVisible, trim_space}
use litetlog.Tlogx.Cosignature.{NoteVerifier}
use litetlog.Tlogx.Checkpoint.{newline, Checkpoint, format_checkpoint}
use litetlog.Tlogx.Edge.Reference.{digits, right_edge-digits}
use litetlog.Tlogx.Edge.Tiling.{indexes}
use litetlog.Tlogx.Checkpoint.Parse.{parse-IsCheckpoint}
use litetlog.Witness.Library.{Signer}
use litetlog.Spicy.Library.{Library, Hashes, read_hashes}
use litetlog.Spicy.Library.Laws.{TextLaws}
use litetlog.Spicy.Verify.Sound.{Verified}
use litetlog.Spicy.Disk.{Disk}
use litetlog.Spicy.Disk.Bind.{Returns}
use litetlog.Spicy.Append.{append}
use litetlog.Spicy.Append.Laws.{LogLaws}
use litetlog.Spicy.Append.Files.{EntriesIn, Contents, Grown, append_files-Grown}
use litetlog.Spicy.Append.Signed.{NoSignature, Signed, write_signatures-Signed}
use litetlog.Spicy.Append.Load.{Keeps, load_log-Loaded}
use litetlog.Spicy.Edge.{format_edge}
use litetlog.Spicy.Append.Opened.{format_checkpoint-IsNoteText, open_note-own}
use litetlog.Spicy.Append.Proven.{Behind-append, All-Verified}
use litetlog.Spicy.Append.Saved.{head_of, parse-format_head, Saved, save-Saved}
use litetlog.Spicy.Append.Stages.{
  Apart, no_entries, append-Ran, last_latest, last_edge, last_kept, last-EntriesIn, kept_paths,
}

module _ (lib : Library) (laws : LogLaws lib) where
  -- What a run leaves: the log of the records and the files behind them, and their signatures.
  pub record Extended (key_path assets : Bytes) (verifier : NoteVerifier) (es paths : List Bytes)
      (files files' : Bytes → Option Bytes) : Type 0 where
    pub contents : List Bytes
    pub were : Contents files paths contents
    pub keeps : Keeps lib laws key_path assets verifier verifier.name (es ++ contents) files'
    pub verified : All (Verified lib verifier files') paths

  length-Contents :
      (files : Bytes → Option Bytes) (paths contents : List Bytes)
      → Contents files paths contents
      → length contents ≡ length paths
  length-Contents files [] [] h = refl
  length-Contents files [] (f ∷ fs) h = absurd h
  length-Contents files (path ∷ paths) [] h = absurd h
  length-Contents files (path ∷ paths) (f ∷ fs) (here, h) =
      omega (arith, length-Contents files paths fs h)

  module _ (texts : TextLaws lib) (key_path assets : Bytes) (verifier : NoteVerifier)
      (es paths : List Bytes) (d : Disk) (short : length verifier.name ≤ 999_000)
      (plain : All IsVisible verifier.name) (small : length es + length paths < 2 ^ 62)
      (apart : Apart key_path assets paths)
      (k : Keeps lib laws key_path assets verifier verifier.name es d.files) where
    -- The new log, of what the stages have done.
    assembled :
        (signer : Signer) (size : ℕ) (hashes : Hashes) (latest : Bytes)
        (grown saved last : Bytes → Option Bytes)
        → lib.new_signer (trim_space k.skey) ≡ some signer
        → size ≡ length es + length paths
        → (g : Grown lib laws assets es paths hashes d.files grown)
        → (s : Saved lib assets signer verifier.name size hashes latest grown saved)
        → Signed lib size latest hashes last (length es) paths
        → ((j : Bytes) → NoSignature paths j → last j ≡ saved j)
        → Extended key_path assets verifier es paths d.files last
    assembled signer size hashes latest grown saved last signs sum g s signed signatures_only =
        let whole = es ++ g.contents in
        let edge = format_edge lib size s.idx hashes in
        let full : size ≡ length whole = omega (
          arith,
          sum,
          length-append es g.contents,
          length-Contents d.files paths g.contents g.were,
        ) in
        let opens =
          open_note-own lib laws (trim_space k.skey) _ latest signer verifier plain
            (format_checkpoint-IsNoteText verifier.name size s.hash plain
              (laws.tree_hash_size size hashes s.hash s.hashes_to))
            signs k.verifies s.signs in
        let lacks : Lacks newline verifier.name =
          subst (Lacks newline) k.own (parse-IsCheckpoint k.text k.parses).origin_line in
        let parses =
          parse-format_head verifier.name size s.hash lacks short (omega (arith, sum, small))
            (laws.tree_hash_size size hashes s.hash s.hashes_to) in
        let whole_edge : s.idx ≡ indexes lib.stored_hash_index (digits 62 size) =
          some_injective (
            sym s.edge
            ∙ right_edge-digits lib.stored_hash_index size (omega (arith, sum, small))) in
        let (list, present) =
          laws.reads_edge size hashes s.hash (omega (arith, sum, small)) s.hashes_to in
        let kept =
          last_kept assets paths latest edge d.files grown saved last s.written g.others
            signatures_only in
        record {
          contents = g.contents;
          were = g.were;
          keeps = record {
            skey = k.skey;
            signer = signer;
            latest = latest;
            text = format_checkpoint (head_of verifier.name size s.hash);
            checkpoint = head_of verifier.name size s.hash;
            idx = s.idx;
            hashes = hashes;
            list = list;
            key_here = kept key_path apart.key_apart ∙ k.key_here;
            signs = signs;
            verifies = k.verifies;
            latest_here =
                last_latest assets paths latest edge d.files grown saved last s.written g.others
                  signatures_only apart.latest_apart;
            opens = opens;
            parses = parses;
            own = refl;
            size = full;
            edge_here =
                last_edge assets paths latest edge d.files grown saved last s.written g.others
                  signatures_only apart.edge_apart;
            whole_edge = whole_edge;
            present = ap (read_hashes hashes) whole_edge ∙ present;
            holds = g.holds;
            entries =
                last-EntriesIn assets paths latest edge d.files grown saved last s.written g.others
                  signatures_only whole apart.entries_apart g.entries;
          };
          verified =
              All-Verified lib laws texts verifier whole size hashes s.hash latest
                (format_checkpoint (head_of verifier.name size s.hash)) d.files last g.holds full
                (omega (arith, sum, small)) s.hashes_to opens parses (length es) paths g.contents
                (omega (arith, small)) g.were (Behind-append es g.contents)
                (kept_paths d.files last assets paths paths kept apart.paths_apart) signed;
        }

    -- Under LogLaws and TextLaws of the library, where the files keep the log of some records
    -- under a key whose name has at most 999000 bytes, all graphic ASCII characters, the key and
    -- the files to append have other paths than the files that are written, whose paths differ,
    -- and the new size is below 2^62, a run of spicy that ends without an error leaves files that
    -- keep the log of those records and the contents of the files behind them, and what spicy
    -- -verify checks, with the verifier of that key, holds of each file and the signature beside
    -- it.
    pub append-Extended :
        {d' : Disk}
        → Returns (append lib key_path assets paths) d tt d'
        → Extended key_path assets verifier es paths d.files d'.files
    append-Extended {d'} h =
        let t = append-Ran lib key_path assets paths d h in
        let (l, same) =
          load_log-Loaded lib laws texts key_path assets verifier verifier.name es d
            (omega (arith, small)) k t.loads in
        let at : t.log.checkpoint.size ≡ length es =
          ap (λ (c : Checkpoint). c.size) l.checkpoint ∙ k.size in
        let own : t.log.checkpoint.origin ≡ verifier.name =
          ap (λ (c : Checkpoint). c.origin) l.checkpoint ∙ k.own in
        let size = t.log.checkpoint.size + length paths in
        let g =
          append_files-Grown lib laws assets es t.log.checkpoint.size paths t.log.hashes
            t.behind_load at small (no_entries assets paths paths apart.paths_apart) l.holds
            (subst (EntriesIn assets es) (sym same) k.entries) t.appends in
        let s =
          save-Saved lib assets t.log.signer t.log.checkpoint.origin size t.hashes t.behind_entries
            t.saves in
        let (signed, others) =
          write_signatures-Signed lib size t.checkpoint t.hashes t.log.checkpoint.size paths
            t.behind_save apart.distinct t.signs in
        assembled t.log.signer size t.hashes t.checkpoint t.behind_entries.files t.behind_save.files
          d'.files l.signs (omega (arith, at))
          (subst (λ x. Grown lib laws assets es paths t.hashes x t.behind_entries.files) same g)
          (subst
            (λ o.
              Saved lib assets t.log.signer o size t.hashes t.checkpoint t.behind_entries.files
                t.behind_save.files)
            own s)
          (subst (λ n. Signed lib size t.checkpoint t.hashes d'.files n paths) at signed) others
