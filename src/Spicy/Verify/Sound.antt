-- ===== src/Spicy/Verify/Sound.antt =====
-- What `spicy -verify` of cmd/spicy/spicy.go has checked when it reports a success.
use litetlog.Prelude.{
  ◌≡◌, ◌≢◌, refl, sym, ap, subst, ◌∙◌, true, Option, some, List, [], ◌∷◌, ◌++◌, All, Bytes,
  bytes_eq, bytes_eq_iff, bytes_eq_refl,
}
use litetlog.Tlogx.Cosignature.{NoteVerifier}
use litetlog.Tlogx.Checkpoint.{Checkpoint, parse_checkpoint}
use litetlog.Spicy.Library.{Library}
use litetlog.Spicy.Signature.{spicy, Signature, read_signature}
use litetlog.Spicy.Signature.RoundTrip.{Spells, read_signature-Spells}
use litetlog.Spicy.Disk.{
  unreadable, malformed_signature, unverified_checkpoint, bad_public_key, bad_checkpoint, other_log,
  not_included, ok, Disk, quiet, read, some_or, require, require,
}
use litetlog.Spicy.Disk.Bind.{
  Returns, >>=-Returns, some_or-Returns, require-Returns, read-Returns, read-quiet,
}
use litetlog.Spicy.Verify.{verify_file, verify_files, verify}

module _ (lib : Library) where
  -- The file is a record of the tree of a checkpoint that the key has signed for the log of its
  -- name, by the proof in the file's signature.
  pub record Verified (vkey : NoteVerifier) (files : Bytes → Option Bytes) (path : Bytes)
      : Type 0 where
    pub content : Bytes
    pub signature_text : Bytes
    pub signature : Signature
    pub text : Bytes
    pub checkpoint : Checkpoint
    pub here : files path ≡ some content
    pub beside : files (path ++ spicy) ≡ some signature_text
    pub reads : read_signature lib signature_text ≡ some signature
    pub spells : Spells lib signature_text signature
    pub opens : lib.open_note signature.checkpoint vkey ≡ some text
    pub parses : parse_checkpoint text ≡ some checkpoint
    pub same_log : checkpoint.origin ≡ vkey.name
    pub included :
        lib.check_record signature.proof checkpoint.size checkpoint.hash signature.index
          (lib.record_hash content)
        ≡ true

  pub verify_file-Verified :
      (vkey : NoteVerifier) (path : Bytes) (d : Disk) {d' : Disk}
      → Returns (verify_file lib vkey path) d tt d'
      → Verified vkey d.files path × (d'.files ≡ d.files)
  unfolding verify_file
  verify_file-Verified vkey path d h =
      let (content, d1, m1, h1) = >>=-Returns (read unreadable path) _ d h in
      let (sig, d2, m2, h2) = >>=-Returns (read unreadable (path ++ spicy)) _ d1 h1 in
      let (s, d3, m3, h3) =
        >>=-Returns (some_or malformed_signature (read_signature lib sig)) _ d2 h2 in
      let (text, d4, m4, h4) =
        >>=-Returns (some_or unverified_checkpoint (lib.open_note s.checkpoint vkey)) _ d3 h3 in
      let (c, d5, m5, h5) = >>=-Returns (some_or bad_checkpoint (parse_checkpoint text)) _ d4 h4 in
      let (_, d6, m6, h6) = >>=-Returns (require other_log (bytes_eq c.origin vkey.name)) _ d5 h5 in
      let (here, f1) = read-Returns unreadable path d m1 in
      let (beside, f2) = read-Returns unreadable (path ++ spicy) d1 m2 in
      let (reads, f3) = some_or-Returns malformed_signature (read_signature lib sig) d2 m3 in
      let (opens, f4) =
        some_or-Returns unverified_checkpoint (lib.open_note s.checkpoint vkey) d3 m4 in
      let (parses, f5) = some_or-Returns bad_checkpoint (parse_checkpoint text) d4 m5 in
      let (same, f6) = require-Returns other_log (bytes_eq c.origin vkey.name) d5 m6 in
      let (included, f7) =
        require-Returns not_included
          (lib.check_record s.proof c.size c.hash s.index (lib.record_hash content)) d6 h6 in
      (
        record {
          content = content;
          signature_text = sig;
          signature = s;
          text = text;
          checkpoint = c;
          here = here;
          beside = subst (λ (f : Bytes → Option Bytes). f (path ++ spicy) ≡ some sig) f1 beside;
          reads = reads;
          spells = read_signature-Spells lib sig reads;
          opens = opens;
          parses = parses;
          same_log = (bytes_eq_iff c.origin vkey.name).0 same;
          included = included;
        },
        ap (λ (x : Disk). x.files) (sym (f3 ∙ f4 ∙ f5 ∙ f6 ∙ f7)) ∙ f2 ∙ f1,
      )

  -- Where no call of the system fails, nothing else is checked.
  pub Verified-verify_file :
      (vkey : NoteVerifier) (path : Bytes) (files : Bytes → Option Bytes)
      → Verified vkey files path
      → verify_file lib vkey path (quiet files) ≡ (ok tt, quiet files)
  unfolding verify_file
  Verified-verify_file vkey path files v =
      rw
        (
          read-quiet unreadable path files v.here,
          read-quiet unreadable (path ++ spicy) files v.beside,
          v.reads,
          v.opens,
          v.parses,
          v.same_log,
          bytes_eq_refl vkey.name,
          v.included,
        )
        refl

  verify_files-Verified :
      (vkey : NoteVerifier) (paths : List Bytes) (d : Disk) {d' : Disk}
      → Returns (verify_files lib vkey paths) d tt d'
      → All (Verified vkey d.files) paths
  unfolding verify_files
  verify_files-Verified vkey [] d h = tt
  verify_files-Verified vkey (path ∷ paths) d h =
      let (_, d1, m1, h1) = >>=-Returns (verify_file lib vkey path) _ d h in
      let (first, same) = verify_file-Verified vkey path d m1 in
      (
        first,
        subst (λ f. All (Verified vkey f) paths) same (verify_files-Verified vkey paths d1 h1),
      )

  -- If spicy -verify reports a success, there was a file to verify, the key is one, and every file
  -- stands beside a signature that is spelled as an index, lines of hashes, an empty line and a
  -- note, which the key has signed, whose text is a checkpoint of the log of the key's name, and
  -- in whose tree CheckRecord found the file by the hashes at the index.
  pub verify-Verified :
      (key : Bytes) (paths : List Bytes) (d : Disk) {d' : Disk}
      → Returns (verify lib key paths) d tt d'
      → (paths ≢ [])
        × (vkey : NoteVerifier) × (lib.new_verifier key ≡ some vkey)
        × All (Verified vkey d.files) paths
  unfolding verify
  verify-Verified key [] d h = cc (ap (λ p. p.0) h)
  verify-Verified key (path ∷ paths) d h =
      let (vkey, d1, m1, h1) = >>=-Returns (some_or bad_public_key (lib.new_verifier key)) _ d h in
      let (known, same) = some_or-Returns bad_public_key (lib.new_verifier key) d m1 in
      (
        (λ e. cc e),
        vkey,
        known,
        subst (λ (x : Disk). All (Verified vkey x.files) (path ∷ paths)) (sym same)
            (verify_files-Verified vkey (path ∷ paths) d1 h1),
      )
