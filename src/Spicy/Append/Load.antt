-- ===== src/Spicy/Append/Load.antt =====
-- The log that `spicy` of cmd/spicy/spicy.go loads is the one that the files hold.
use litetlog.Prelude.{
  ◌<◌, ◌^◌, ◌≡◌, sym, ap, subst, ◌∙◌, inr, Option, some, some_injective, List, length, Bytes, ℤ,
  pos, arith,
}
use litetlog.Std.Trim.{trim_space}
use litetlog.Tlogx.Checkpoint.{Checkpoint, parse_checkpoint}
use litetlog.Tlogx.Cosignature.{NoteVerifier}
use litetlog.Tlogx.Edge.{right_edge}
use litetlog.Tlogx.Edge.Reference.{digits, right_edge-digits}
use litetlog.Tlogx.Edge.Tiling.{indexes}
use litetlog.Tlogx.Note.{new_verifier_from_signer}
use litetlog.Witness.Library.{Signer}
use litetlog.Spicy.Library.{Library, Hashes, read_hashes}
use litetlog.Spicy.Library.Laws.{TextLaws}
use litetlog.Spicy.Disk.{
  unreadable_key, bad_key, no_verifier, unreadable_latest, unverified_latest, bad_latest,
  unreadable_edge, Outcome, ok, Disk, read, some_or,
}
use litetlog.Spicy.Disk.Bind.{Returns, >>=-Returns, some_or-Returns, read-Returns, ok_injective}
use litetlog.Spicy.Init.{latest_path, edge_path}
use litetlog.Spicy.Edge.{load_edge, format_edge}
use litetlog.Spicy.Edge.RoundTrip.{load_edge-format_edge}
use litetlog.Spicy.Append.{Log, right_of, load_log}
use litetlog.Spicy.Append.Laws.{Holds, LogLaws}
use litetlog.Spicy.Append.Present.{present-IsHash, found-Holds}
use litetlog.Spicy.Append.Files.{EntriesIn}

module _ (lib : Library) (laws : LogLaws lib) where
  -- The files hold the log of the records `es`: its key, a checkpoint of their number that the key
  -- has signed, the hashes of the subtrees of the binary digits of their number, and the records.
  pub record Keeps (key_path assets : Bytes) (verifier : NoteVerifier) (origin : Bytes)
      (es : List Bytes) (files : Bytes → Option Bytes) : Type 0 where
    pub skey : Bytes
    pub signer : Signer
    pub latest : Bytes
    pub text : Bytes
    pub checkpoint : Checkpoint
    pub idx : List ℤ
    pub hashes : Hashes
    pub list : List Bytes
    pub key_here : files key_path ≡ some skey
    pub signs : lib.new_signer (trim_space skey) ≡ some signer
    pub verifies : new_verifier_from_signer lib.crypto (trim_space skey) ≡ inr verifier
    pub latest_here : files (latest_path assets) ≡ some latest
    pub opens : lib.open_note latest verifier ≡ some text
    pub parses : parse_checkpoint text ≡ some checkpoint
    pub own : checkpoint.origin ≡ origin
    pub size : checkpoint.size ≡ length es
    pub edge_here : files (edge_path assets) ≡ some (format_edge lib checkpoint.size idx hashes)
    pub whole_edge : idx ≡ indexes lib.stored_hash_index (digits 62 checkpoint.size)
    pub present : read_hashes hashes idx ≡ some list
    pub holds : Holds laws.stored es hashes
    pub entries : EntriesIn assets es files

  -- The values that the calls of a loading have returned.
  record Steps (key_path assets : Bytes) (d : Disk) (l : Log) (d' : Disk) : Type 0 where
    skey : Bytes
    verifier : NoteVerifier
    latest : Bytes
    text : Bytes
    edge : Bytes
    last : Disk
    key_here : d.files key_path ≡ some skey
    signs : lib.new_signer (trim_space skey) ≡ some l.signer
    verifies : right_of (new_verifier_from_signer lib.crypto (trim_space skey)) ≡ some verifier
    latest_here : d.files (latest_path assets) ≡ some latest
    opens : lib.open_note latest verifier ≡ some text
    parses : parse_checkpoint text ≡ some l.checkpoint
    edge_here : d.files (edge_path assets) ≡ some edge
    loads : Returns (load_edge lib l.checkpoint.size edge) last l.hashes d'
    unchanged : last.files ≡ d.files

  load_log-Steps :
      (key_path assets : Bytes) (d : Disk) {l : Log} {d' : Disk}
      → Returns (load_log lib key_path assets) d l d'
      → Steps key_path assets d l d'
  unfolding load_log
  load_log-Steps key_path assets d {l} {d'} h =
      let (skey, d1, m1, h1) = >>=-Returns (read unreadable_key key_path) _ d h in
      let (signer, d2, m2, h2) =
        >>=-Returns (some_or bad_key (lib.new_signer (trim_space skey))) _ d1 h1 in
      let (v, d3, m3, h3) =
        >>=-Returns
          (some_or no_verifier (right_of (new_verifier_from_signer lib.crypto (trim_space skey)))) _
          d2 h2 in
      let (latest, d4, m4, h4) =
        >>=-Returns (read unreadable_latest (latest_path assets)) _ d3 h3 in
      let (text, d5, m5, h5) =
        >>=-Returns (some_or unverified_latest (lib.open_note latest v)) _ d4 h4 in
      let (c, d6, m6, h6) = >>=-Returns (some_or bad_latest (parse_checkpoint text)) _ d5 h5 in
      let (edge, d7, m7, h7) = >>=-Returns (read unreadable_edge (edge_path assets)) _ d6 h6 in
      let (hashes, d8, m8, h8) = >>=-Returns (load_edge lib c.size edge) _ d7 h7 in
      let (key_here, f1) = read-Returns unreadable_key key_path d m1 in
      let (signs, f2) = some_or-Returns bad_key (lib.new_signer (trim_space skey)) d1 m2 in
      let (verifies, f3) =
        some_or-Returns no_verifier
          (right_of (new_verifier_from_signer lib.crypto (trim_space skey))) d2 m3 in
      let (latest_here, f4) = read-Returns unreadable_latest (latest_path assets) d3 m4 in
      let (opens, f5) = some_or-Returns unverified_latest (lib.open_note latest v) d4 m5 in
      let (parses, f6) = some_or-Returns bad_latest (parse_checkpoint text) d5 m6 in
      let (edge_here, f7) = read-Returns unreadable_edge (edge_path assets) d6 m7 in
      let to3 : d3.files ≡ d.files =
        ap (λ (x : Disk). x.files) (sym f3) ∙ ap (λ (x : Disk). x.files) (sym f2) ∙ f1 in
      let to6 : d6.files ≡ d.files =
        ap (λ (x : Disk). x.files) (sym f6) ∙ ap (λ (x : Disk). x.files) (sym f5) ∙ f4 ∙ to3 in
      let built : Steps key_path assets d
          (record { signer = signer; checkpoint = c; hashes = hashes }) d8 =
        record {
          skey = skey;
          verifier = v;
          latest = latest;
          text = text;
          edge = edge;
          last = d7;
          key_here = key_here;
          signs = signs;
          verifies = verifies;
          latest_here =
              subst (λ (x : Bytes → Option Bytes). x (latest_path assets) ≡ some latest) to3
                latest_here;
          opens = opens;
          parses = parses;
          edge_here =
              subst (λ (x : Bytes → Option Bytes). x (edge_path assets) ≡ some edge) to6 edge_here;
          loads = m8;
          unchanged = f7 ∙ to6;
        } in
      subst (λ x. Steps key_path assets d x d') (ok_injective (ap (λ p. p.0) h8))
        (subst
          (λ y.
            Steps key_path assets d (record { signer = signer; checkpoint = c; hashes = hashes }) y)
          (ap (λ p. p.1) h8) built)

  -- What is loaded of such files.
  pub record Loaded (skey : Bytes) (c : Checkpoint) (es : List Bytes) (l : Log) : Type 0 where
    pub signs : lib.new_signer (trim_space skey) ≡ some l.signer
    pub checkpoint : l.checkpoint ≡ c
    pub holds : Holds laws.stored es l.hashes

  Steps-Loaded :
      TextLaws lib
      → (key_path assets : Bytes) (verifier : NoteVerifier) (origin : Bytes) (es : List Bytes)
        (d : Disk) {l : Log} {d' : Disk}
      → length es < 2 ^ 62
      → (k : Keeps key_path assets verifier origin es d.files) → (t : Steps key_path assets d l d')
      → Loaded k.skey k.checkpoint es l × (d'.files ≡ d.files)
  Steps-Loaded texts key_path assets verifier origin es d {l} {d'} small k t =
      let same_key : t.skey ≡ k.skey = some_injective (sym t.key_here ∙ k.key_here) in
      let same_verifier : t.verifier ≡ verifier = some_injective (
        sym t.verifies
        ∙ ap (λ x. right_of (new_verifier_from_signer lib.crypto (trim_space x))) same_key
        ∙ ap right_of k.verifies) in
      let same_latest : t.latest ≡ k.latest = some_injective (sym t.latest_here ∙ k.latest_here) in
      let same_text : t.text ≡ k.text = some_injective (
        sym t.opens
        ∙ ap (lib.open_note t.latest) same_verifier
        ∙ ap (λ x. lib.open_note x verifier) same_latest
        ∙ k.opens) in
      let same_c : l.checkpoint ≡ k.checkpoint =
        some_injective (sym t.parses ∙ ap parse_checkpoint same_text ∙ k.parses) in
      let same_edge : t.edge ≡ format_edge lib k.checkpoint.size k.idx k.hashes =
        some_injective (sym t.edge_here ∙ k.edge_here) in
      let right : right_edge lib.stored_hash_index (pos k.checkpoint.size) ≡ some k.idx =
        right_edge-digits lib.stored_hash_index k.checkpoint.size (omega (arith, small, k.size))
        ∙ ap some (sym k.whole_edge) in
      let (found, loads, at) =
        load_edge-format_edge lib texts k.checkpoint.size k.idx k.hashes t.last
          (omega (arith, small, k.size)) right
          (present-IsHash lib laws es k.hashes k.idx k.list k.holds k.present) in
      let both : ◌≡◌ {A = Outcome Hashes × Disk} (ok found, t.last) (ok l.hashes, d') =
        sym loads
        ∙ sym (
            ap (λ (x : Checkpoint). load_edge lib x.size t.edge t.last) same_c
            ∙ ap (λ e. load_edge lib k.checkpoint.size e t.last) same_edge)
        ∙ t.loads in
      let same_hashes : found ≡ l.hashes = ok_injective (ap (λ p. p.0) both) in
      (
        record {
          signs = subst (λ x. lib.new_signer (trim_space x) ≡ some l.signer) same_key t.signs;
          checkpoint = same_c;
          holds =
              subst (Holds laws.stored es) same_hashes
                (found-Holds lib laws es k.hashes found k.idx k.list k.holds k.present at);
        },
        sym (ap (λ p. p.1.files) both) ∙ t.unchanged,
      )

  pub load_log-Loaded :
      TextLaws lib
      → (key_path assets : Bytes) (verifier : NoteVerifier) (origin : Bytes) (es : List Bytes)
        (d : Disk) {l : Log} {d' : Disk}
      → length es < 2 ^ 62
      → (k : Keeps key_path assets verifier origin es d.files)
      → Returns (load_log lib key_path assets) d l d'
      → Loaded k.skey k.checkpoint es l × (d'.files ≡ d.files)
  load_log-Loaded texts key_path assets verifier origin es d small k h =
      Steps-Loaded texts key_path assets verifier origin es d small k
        (load_log-Steps key_path assets d h)
