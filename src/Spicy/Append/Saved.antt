-- ===== src/Spicy/Append/Saved.antt =====
-- The checkpoint and the edge that `spicy` of cmd/spicy/spicy.go saves.
use litetlog.Prelude.{
  ℕ, ◌≤◌, ◌<◌, ◌^◌, ◌≡◌, refl, sym, ap, subst, ◌∙◌, Option, some, List, [], ◌∷◌, ◌++◌, length,
  length-append, Bytes, Lacks, ℤ, pos, arith,
}
use litetlog.Std.Base64.{encode, length-encode}
use litetlog.Std.Strconv.{format_int, length-format_int}
use litetlog.Tlogx.Checkpoint.{newline, Checkpoint, parse_checkpoint, format_checkpoint}
use litetlog.Tlogx.Checkpoint.Extension.{IsExtension}
use litetlog.Tlogx.Checkpoint.RoundTrip.{parse-format}
use litetlog.Tlogx.Edge.{right_edge}
use litetlog.Witness.Library.{IsHash, Signer}
use litetlog.Spicy.Library.{Library, Hashes, read_hashes}
use litetlog.Spicy.Disk.{
  no_tree_hash, unsigned_checkpoint, unwritten_latest, unwritten_edge, Disk, set_file, some_or,
  ends, write,
}
use litetlog.Spicy.Disk.Bind.{
  Returns, >>=-Returns, some_or-Returns, ends-Returns, write-Returns, ok_injective,
}
use litetlog.Spicy.Init.{latest_path, edge_path}
use litetlog.Spicy.Edge.{format_edge}
use litetlog.Spicy.Append.{save}

-- The checkpoint of a log with no extension.
abbrev pub head_of : Bytes → ℕ → Bytes → Checkpoint
head_of origin size hash = record { origin = origin; size = size; hash = hash; extension = [] }

pub parse-format_head :
    (origin : Bytes) (size : ℕ) (hash : Bytes)
    → Lacks newline origin
    → length origin ≤ 999_000
    → size < 2 ^ 63
    → IsHash hash
    → parse_checkpoint (format_checkpoint (head_of origin size hash))
      ≡ some (head_of origin size hash)
parse-format_head origin size hash lacks short fits (bytes, full) =
    parse-format (head_of origin size hash) (record {
      origin_line = lacks;
      size_fits = fits;
      hash_bytes = bytes;
      hash_length = full;
      extension_lines = IsExtension.none refl;
      text_fits =
          unfold format_checkpoint in
          omega (
            arith,
            length-append origin
                (newline ∷ (format_int size ++ (newline ∷ (encode hash ++ (newline ∷ []))))),
            length-append (format_int size) (newline ∷ (encode hash ++ (newline ∷ []))),
            length-append (encode hash) (newline ∷ []),
            length-format_int size fits,
            length-encode hash,
            full,
            short,
          );
    })

module _ (lib : Library) where
  pub record Saved (assets : Bytes) (signer : Signer) (origin : Bytes) (size : ℕ) (hashes : Hashes)
      (checkpoint : Bytes) (files files' : Bytes → Option Bytes) : Type 0 where
    pub hash : Bytes
    pub idx : List ℤ
    pub hashes_to : lib.tree_hash size (read_hashes hashes) ≡ some hash
    pub signs :
        lib.sign_note (format_checkpoint (head_of origin size hash)) signer ≡ some checkpoint
    pub edge : right_edge lib.stored_hash_index (pos size) ≡ some idx
    pub written :
        files'
        ≡ set_file
            (edge_path assets)
            (format_edge lib size idx hashes)
            (set_file (latest_path assets) checkpoint files)

  pub save-Saved :
      (assets : Bytes) (signer : Signer) (origin : Bytes) (size : ℕ) (hashes : Hashes) (d : Disk)
      {checkpoint : Bytes} {d' : Disk}
      → Returns (save lib assets signer origin size hashes) d checkpoint d'
      → Saved assets signer origin size hashes checkpoint d.files d'.files
  unfolding save
  save-Saved assets signer origin size hashes d {checkpoint} {d'} h =
      let (hash, d1, m1, h1) =
        >>=-Returns (some_or no_tree_hash (lib.tree_hash size (read_hashes hashes))) _ d h in
      let (cp, d2, m2, h2) =
        >>=-Returns
          (some_or unsigned_checkpoint
            (lib.sign_note (format_checkpoint (head_of origin size hash)) signer))
          _ d1 h1 in
      let (idx, d3, m3, h3) =
        >>=-Returns (ends (right_edge lib.stored_hash_index (pos size))) _ d2 h2 in
      let (_, d4, m4, h4) = >>=-Returns (write unwritten_latest (latest_path assets) cp) _ d3 h3 in
      let (_, d5, m5, h5) =
        >>=-Returns (write unwritten_edge (edge_path assets) (format_edge lib size idx hashes)) _ d4
          h4 in
      let (hashes_to, f1) =
        some_or-Returns no_tree_hash (lib.tree_hash size (read_hashes hashes)) d m1 in
      let (signs, f2) =
        some_or-Returns unsigned_checkpoint
          (lib.sign_note (format_checkpoint (head_of origin size hash)) signer) d1 m2 in
      let (edge, f3) = ends-Returns (right_edge lib.stored_hash_index (pos size)) d2 m3 in
      let f4 = write-Returns unwritten_latest (latest_path assets) cp d3 m4 in
      let f5 =
        write-Returns unwritten_edge (edge_path assets) (format_edge lib size idx hashes) d4 m5 in
      let start : d3.files ≡ d.files =
        ap (λ (x : Disk). x.files) (sym f3)
        ∙ ap (λ (x : Disk). x.files) (sym f2)
        ∙ ap (λ (x : Disk). x.files) (sym f1) in
      let built : Saved assets signer origin size hashes cp d.files d5.files = record {
        hash = hash;
        idx = idx;
        hashes_to = hashes_to;
        signs = signs;
        edge = edge;
        written =
            f5
            ∙ ap (set_file (edge_path assets) (format_edge lib size idx hashes))
                (f4 ∙ ap (set_file (latest_path assets) cp) start);
      } in
      subst (λ x. Saved assets signer origin size hashes x d.files d'.files)
        (ok_injective (ap (λ p. p.0) h5))
        (subst (λ (y : Disk). Saved assets signer origin size hashes cp d.files y.files)
          (ap (λ p. p.1) h5) built)
