-- ===== src/Spicy/Init/Fresh.antt =====
-- `spicy -init` of cmd/spicy/spicy.go makes an empty log.
use litetlog.Prelude.{
  ◌≤◌, ◌≡◌, ◌≢◌, refl, sym, ap, subst, ◌∙◌, inr, Option, some, true, [], ◌∷◌, ◌++◌, ℕ, pow2, length,
  Bytes, All, All-append, codes, arith, bytes_eq_refl, bytes_eq_ne,
}
use litetlog.Std.Base64.{IsByte, encode, encode-visible}
use litetlog.Std.Binary.{uint32}
use litetlog.Std.Hex.{format_hex8, format_hex8-All, hex_digit-graphic}
use litetlog.Std.Lines.{visible-Lacks, trim_space_visible_line}
use litetlog.Std.Trim.{IsVisible, trim_space}
use litetlog.Std.Strconv.{format_int, digits_onto}
use litetlog.Tlogx.Cosignature.{NoteVerifier, is_valid_name, key_hash}
use litetlog.Tlogx.Checkpoint.{newline, format_checkpoint}
use litetlog.Tlogx.Edge.Reference.{digits}
use litetlog.Tlogx.Note.{alg_ed25519, new_verifier_from_signer}
use litetlog.Tlogx.Note.Parse.{IsDigest, new_verifier_from_signer-generated_text}
use litetlog.Tlogx.Note.Text.{key_text}
use litetlog.Witness.Library.{IsHash}
use litetlog.Witness.Process.{zero_hash}
use litetlog.Spicy.Library.{Library, no_hashes, read_hashes}
use litetlog.Spicy.Signature.{hash_lines}
use litetlog.Spicy.Disk.{Disk}
use litetlog.Spicy.Disk.Bind.{Returns}
use litetlog.Spicy.Init.{latest_path, edge_path, empty_checkpoint, init}
use litetlog.Spicy.Init.Made.{Made, init-Made}
use litetlog.Spicy.Edge.{format_edge}
use litetlog.Spicy.Append.Laws.{LogLaws}
use litetlog.Spicy.Append.Paths.{latest_path-ne_edge}
use litetlog.Spicy.Append.Load.{Keeps}
use litetlog.Spicy.Append.Opened.{format_checkpoint-IsNoteText, open_note-own}
use litetlog.Spicy.Append.Saved.{parse-format_head}

-- `GenerateKey` writes the text of a private key: the name, the first four bytes of the digest of
-- the name, a newline, the algorithm's byte 1 and the public key, and the byte 1 and a seed.
abbrev pub Generates : Library → Type 0
Generates lib =
    (name skey vkey : Bytes)
    → lib.generate_key name ≡ some (skey, vkey)
    → (seed : Bytes) × All IsByte seed
      × (length seed ≡ 32)
      × (skey
          ≡ key_text (codes "PRIVATE") (codes "KEY") name
              (format_hex8 (
                uint32
                  (lib.crypto.sha256 (name ++ (newline ∷ 1 ∷ lib.crypto.public_of_seed seed)))))
              (encode (1 ∷ seed)))

key_text-trimmed :
    (name key : Bytes) (hash : ℕ)
    → All IsVisible name
    → All IsByte key
    → trim_space (key_text (codes "PRIVATE") (codes "KEY") name (format_hex8 hash) (encode key))
      ≡ key_text (codes "PRIVATE") (codes "KEY") name (format_hex8 hash) (encode key)
key_text-trimmed name key hash plain bytes = trim_space_visible_line b'P' _ (
  (omega arith, omega arith),
  All-append IsVisible (codes "RIVATE+KEY+") _ (ground arith) (
      All-append IsVisible name _ plain (
        (omega arith, omega arith),
        All-append IsVisible (format_hex8 hash) _ (format_hex8-All IsVisible hex_digit-graphic hash)
            ((omega arith, omega arith), encode-visible key bytes),
      )),
)

empty_edge : (lib : Library) → format_edge lib 0 [] no_hashes ≡ codes "size 0\n"
unfolding format_edge hash_lines format_int digits_onto
empty_edge lib = refl

zero_hash-IsHash : IsHash zero_hash
zero_hash-IsHash = (ground arith, refl)

module _ (lib : Library) (laws : LogLaws lib) where
  Made-Keeps :
      (name key_path assets vkey : Bytes) (verifier : NoteVerifier)
      (files files' : Bytes → Option Bytes)
      → key_path ≢ latest_path assets
      → key_path ≢ edge_path assets
      → All IsVisible name
      → length name ≤ 999_000
      → (m : Made lib name key_path assets vkey files files') → trim_space m.skey ≡ m.skey
      → new_verifier_from_signer lib.crypto m.skey ≡ inr verifier
      → verifier.name ≡ name
      → Keeps lib laws key_path assets verifier verifier.name [] files'
  unfolding read_hashes digits pow2
  Made-Keeps name key_path assets vkey verifier files files' not_latest not_edge plain short m
        trimmed verifies named =
      record {
        skey = m.skey;
        signer = m.signer;
        latest = m.latest;
        text = format_checkpoint (empty_checkpoint name);
        checkpoint = empty_checkpoint name;
        idx = [];
        hashes = no_hashes;
        list = [];
        key_here =
            ap (λ x. x key_path) m.written
            ∙ rw
                (
                  bytes_eq_ne key_path (edge_path assets) not_edge,
                  bytes_eq_ne key_path (latest_path assets) not_latest,
                  bytes_eq_refl key_path,
                )
                refl;
        signs = ap lib.new_signer trimmed ∙ m.signs;
        verifies = ap (new_verifier_from_signer lib.crypto) trimmed ∙ verifies;
        latest_here =
            ap (λ x. x (latest_path assets)) m.written
            ∙ rw
                (
                  bytes_eq_ne (latest_path assets) (edge_path assets) (latest_path-ne_edge assets),
                  bytes_eq_refl (latest_path assets),
                )
                refl;
        opens =
            open_note-own lib laws m.skey (format_checkpoint (empty_checkpoint name)) m.latest
              m.signer verifier (subst (All IsVisible) (sym named) plain)
              (format_checkpoint-IsNoteText name 0 zero_hash plain zero_hash-IsHash) m.signs
              verifies m.signed;
        parses =
            parse-format_head name 0 zero_hash (visible-Lacks name plain) short (omega arith)
              zero_hash-IsHash;
        own = sym named;
        size = refl;
        edge_here =
            ap (λ x. x (edge_path assets)) m.written
            ∙ rw (bytes_eq_refl (edge_path assets)) (ap some (sym (empty_edge lib)));
        whole_edge = refl;
        present = refl;
        holds = λ id h e. cc e;
        entries = λ k f e. cc e;
      }

  -- Under LogLaws of the library, where GenerateKey writes a key of the name in the format of
  -- golang.org/x/mod and every digest is bytes, the path of the key is not that of the checkpoint
  -- or the edge, and the name passes isValidName and has at most 999000 bytes, all graphic ASCII
  -- characters, spicy -init that ends without an error leaves files that keep an empty log under a
  -- key of that name.
  pub init-Keeps :
      Generates lib
      → IsDigest lib.crypto
      → (name key_path assets : Bytes) (d : Disk) {vkey : Bytes} {d' : Disk}
      → key_path ≢ latest_path assets
      → key_path ≢ edge_path assets
      → is_valid_name name ≡ true
      → All IsVisible name
      → length name ≤ 999_000
      → Returns (init lib name key_path assets) d vkey d'
      → (verifier : NoteVerifier) × (verifier.name ≡ name)
        × Keeps lib laws key_path assets verifier verifier.name [] d'.files
  unfolding key_hash
  init-Keeps generates digest name key_path assets d {vkey} {d'} not_latest not_edge valid plain
        short h =
      let m = init-Made lib name key_path assets d h in
      let (seed, bytes, full, text) = generates name m.skey vkey m.generated in
      let verifier : NoteVerifier = record {
        name = name;
        hash = key_hash lib.crypto name (alg_ed25519 ∷ lib.crypto.public_of_seed seed);
        verify = lib.crypto.ed25519_verify (lib.crypto.public_of_seed seed);
      } in
      (
        verifier,
        refl,
        Made-Keeps name key_path assets vkey verifier d.files d'.files not_latest not_edge plain
            short m
            (subst (λ x. trim_space x ≡ x) (sym text)
              (key_text-trimmed name (1 ∷ seed) _ plain (omega arith, bytes)))
            (ap (new_verifier_from_signer lib.crypto) text
              ∙ new_verifier_from_signer-generated_text lib.crypto name seed digest valid bytes
                  full)
            refl,
      )
