-- ===== src/Spicy/Demo/Runs.antt =====
-- Runs of cmd/spicy/spicy.go on the demonstration library.
use litetlog.Prelude.{
  ℕ, ◌≡◌, ◌≤◌, ◌<◌, refl, sym, ap, subst, ◌∙◌, inr, Option, none, some, List, [], ◌∷◌, length, All,
  true, Bytes, codes, bytes_eq, bytes_eq_iff, pow2, add_sub64, of_bits64, if◌then◌else◌, Bool-cases,
  some_injective, inl, arith,
}
use litetlog.Std.Base64.{IsByte, encode, decode}
use litetlog.Std.Strings.{cut, cut_prefix, count, ends_with, split, split_n}
use litetlog.Std.Strconv.{parse_int, scan, format_int, digits_onto, format_int-IsDigit}
use litetlog.Std.Utf8.{runes, read_byte, emit, has_space, is_space, is_rune}
use litetlog.Std.Hex.{format_hex8, hex_digit, parse_uint32, hex_value, scan_hex}
use litetlog.Std.Binary.{uint32}
use litetlog.Std.Trim.{IsVisible, trim_space, trim_from, space_size, space_size_back, reverse}
use litetlog.Std.Path.{join, clean, join_plain}
use litetlog.Spicy.Append.Paths.{ne_digit, number-IsName}
use litetlog.Spicy.Append.Files.{NoEntry}
use litetlog.Tlogx.Checkpoint.{parse_checkpoint, parse_hash, format_checkpoint}
use litetlog.Tlogx.Cosignature.{NoteVerifier, is_valid_name, has_spaces, key_hash}
use litetlog.Tlogx.Edge.{right_edge, maxpow2}
use litetlog.Tlogx.Note.{
  chop_fields, verifier_of, verifier_of_parsed, verifier_of_fields, new_verifier_from_signer,
}
use litetlog.Tlogx.Note.Text.{key_text}
use litetlog.Spicy.Library.{read_hashes, put_hashes}
use litetlog.Spicy.Signature.{hash_lines, format_signature}
use litetlog.Spicy.Disk.{Outcome, ok, Disk, quiet, read, exists, write}
use litetlog.Spicy.Disk.Bind.{Returns}
use litetlog.Spicy.Init.{latest_path, edge_path, unused, none_used, store_log, init}
use litetlog.Spicy.Init.Fresh.{Generates, init-Keeps}
use litetlog.Spicy.Edge.{load_hashes, load_lines, load_edge, format_edge}
use litetlog.Spicy.Append.{load_log, append_file, append_files, save, write_signatures, append}
use litetlog.Spicy.Append.Load.{Keeps}
use litetlog.Spicy.Append.Whole.{Extended, append-Extended}
use litetlog.Spicy.Append.Stages.{Apart}
use litetlog.Spicy.Demo.{demo, demo_seed, demo_new_signer, demo_name, demo_skey, demo_tree_hash}
use litetlog.Spicy.Demo.Laws.{demo-TextLaws, demo-LogLaws, demo-IsDigest}

abbrev pub blank : Bytes → Option Bytes
blank path = if bytes_eq path (codes "f") then some (codes "hello") else none

demo_seed-bytes : All IsByte demo_seed
demo_seed-bytes = ground arith

demo_key_spelled :
    demo_skey
    ≡ key_text
        (codes "PRIVATE")
        (codes "KEY")
        demo_name
        (format_hex8 0x07070707)
        (encode (1 ∷ demo_seed))
unfolding format_hex8 hex_digit encode
demo_key_spelled = refl

demo-Generates : Generates demo
unfolding uint32
demo-Generates name skey vkey h = elim (Bool-cases (bytes_eq name demo_name)) [
  | inl own ↦
      let same : ◌≡◌ {A = Bytes × Bytes} (demo_skey, codes "key") (skey, vkey) =
        some_injective (rw own at h) in
      (
        demo_seed,
        demo_seed-bytes,
        refl,
        sym (ap (λ p. p.0) same)
            ∙ demo_key_spelled
            ∙ ap
                (λ x.
                  key_text (codes "PRIVATE") (codes "KEY") x (format_hex8 0x07070707)
                    (encode (1 ∷ demo_seed)))
                (sym ((bytes_eq_iff name demo_name).0 own)),
      )
  | inr other ↦ cc (rw other at h)
]

demo_name_valid : is_valid_name demo_name ≡ true
unfolding is_valid_name has_spaces runes read_byte emit has_space is_space is_rune cut
demo_name_valid = refl

demo_name_plain : All IsVisible demo_name
demo_name_plain = ground arith

abbrev pub made : Disk
made = (init demo demo_name (codes "k") [] (quiet blank)).1

demo_made : (init demo demo_name (codes "k") [] (quiet blank)).0 ≡ ok (codes "key")
unfolding init unused none_used store_log exists write bytes_eq join clean split demo_new_signer
    chop_fields cut parse_uint32 hex_value scan_hex
demo_made = refl

demo_starts : Returns (init demo demo_name (codes "k") []) (quiet blank) (codes "key") made
demo_starts = λ i. (demo_made i, made)

pub latest_plain : latest_path [] ≡ codes "latest"
unfolding join clean split bytes_eq
latest_plain = refl

edge_plain : edge_path [] ≡ codes "edge"
unfolding join clean split bytes_eq
edge_plain = refl

-- The files that start with a letter are no entries.
no_entry : (c : ℕ) (s : Bytes) → b'9' < c → NoEntry [] (c ∷ s)
no_entry c s large k e =
    ne_digit (format_int k) (format_int-IsDigit k) (inr large) s
      (sym (e ∙ join_plain (format_int k) (number-IsName k)))

pub init-Keeps_demo :
    (verifier : NoteVerifier) × (verifier.name ≡ demo_name)
    × Keeps demo demo-LogLaws (codes "k") [] verifier verifier.name [] made.files
init-Keeps_demo =
    init-Keeps demo demo-LogLaws demo-Generates demo-IsDigest demo_name (codes "k") [] (quiet blank)
      (λ e. cc (e ∙ latest_plain)) (λ e. cc (e ∙ edge_plain)) demo_name_valid demo_name_plain
      (omega arith) demo_starts

abbrev paths : List Bytes
paths = codes "f" ∷ []

demo-Apart : Apart (codes "k") [] paths
demo-Apart = record {
  key_apart = record {
    no_entry = no_entry b'k' [] (omega arith);
    not_latest = λ e. cc (e ∙ latest_plain);
    not_edge = λ e. cc (e ∙ edge_plain);
    no_signature = (λ e. cc e, tt);
  };
  paths_apart = (
    record {
      no_entry = no_entry b'f' [] (omega arith);
      not_latest = λ e. cc (e ∙ latest_plain);
      not_edge = λ e. cc (e ∙ edge_plain);
      no_signature = (λ e. cc e, tt);
    },
    tt,
  );
  latest_apart = (λ e. cc (sym latest_plain ∙ e), tt);
  edge_apart = (λ e. cc (sym edge_plain ∙ e), tt);
  entries_apart = λ k. (λ e. no_entry b'f' (codes ".spicy") (omega arith) k (sym e), tt);
  distinct = (tt, tt);
}

abbrev appended : Outcome (Unit {0}) × Disk
appended = append demo (codes "k") [] paths made

demo_appended : appended.0 ≡ ok tt
unfolding append load_log append_files append_file save write_signatures load_edge load_lines
    load_hashes format_edge hash_lines format_signature read_hashes put_hashes init none_used unused
    store_log exists read write bytes_eq join clean split trim_space trim_from space_size
    space_size_back reverse new_verifier_from_signer chop_fields verifier_of verifier_of_parsed
    verifier_of_fields is_valid_name has_spaces runes read_byte emit has_space is_space is_rune cut
    parse_uint32 hex_value scan_hex decode encode key_hash uint32 parse_checkpoint format_checkpoint
    parse_hash parse_int format_int digits_onto scan count ends_with split_n cut_prefix right_edge
    maxpow2 pow2 add_sub64 of_bits64 demo_tree_hash demo_new_signer
demo_appended = refl

pub made_name : length init-Keeps_demo.0.name ≤ 999_000
made_name = subst (λ s. length s ≤ 999_000) (sym init-Keeps_demo.1) (omega arith)

pub made_plain : All IsVisible init-Keeps_demo.0.name
made_plain = subst (All IsVisible) (sym init-Keeps_demo.1) demo_name_plain

append-Extended_example :
    Extended demo demo-LogLaws (codes "k") [] init-Keeps_demo.0 [] paths made.files appended.1.files
append-Extended_example =
    append-Extended demo demo-LogLaws demo-TextLaws (codes "k") [] init-Keeps_demo.0 [] paths made
      made_name made_plain (omega arith) demo-Apart init-Keeps_demo.2
      (λ i. (demo_appended i, appended.1))

init-Keeps_example :
    (verifier : NoteVerifier) × (verifier.name ≡ demo_name)
    × Keeps demo demo-LogLaws (codes "k") [] verifier verifier.name [] made.files
init-Keeps_example =
    init-Keeps demo demo-LogLaws demo-Generates demo-IsDigest demo_name (codes "k") [] (quiet blank)
      (λ e. cc (e ∙ latest_plain)) (λ e. cc (e ∙ edge_plain)) demo_name_valid demo_name_plain
      (omega arith) demo_starts
