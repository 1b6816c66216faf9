-- ===== src/Spicy/Demo/Reads.antt =====
-- What cmd/spicy/spicy.go reads of the files of the demonstration.
use litetlog.Prelude.{
  ◌≡◌, ◌≢◌, refl, ◌∙◌, Option, some, none, [], ◌∷◌, Bytes, codes, ℤ, pos, All, pow2, add_sub64,
  of_bits64, if◌then◌else◌, bytes_eq, arith,
}
use litetlog.Std.Base64.{encode, decode}
use litetlog.Std.Strings.{cut, cut_prefix, count, ends_with, split_n}
use litetlog.Std.Strconv.{parse_int, scan, format_int, digits_onto}
use litetlog.Tlogx.Checkpoint.{parse_checkpoint, parse_hash, format_checkpoint}
use litetlog.Tlogx.Cosignature.{NoteVerifier}
use litetlog.Tlogx.Edge.{right_edge, maxpow2}
use litetlog.Witness.Process.{zero_hash}
use litetlog.Spicy.Library.{Hashes, put_hash, no_hashes, read_hashes}
use litetlog.Spicy.Signature.{read_proof, read_signature, format_signature, hash_lines}
use litetlog.Spicy.Signature.RoundTrip.{read_signature-format_signature}
use litetlog.Spicy.Disk.{ok, Disk, quiet, fatal, works, denied, unwritten_edge, size_mismatch, read}
use litetlog.Spicy.Edge.{load_edge, format_edge, hash_at}
use litetlog.Spicy.Edge.RoundTrip.{mem, load_edge-format_edge}
use litetlog.Spicy.Verify.{verify, verify_file, verify_files}
use litetlog.Spicy.Verify.Sound.{Verified, verify-Verified}
use litetlog.Spicy.Append.{load_log, save}
use litetlog.Spicy.Append.Torn.{save-load_torn}
use litetlog.Spicy.Append.Saved.{head_of}
use litetlog.Spicy.Demo.{demo, demo_name, demo_tree_hash, leaf}
use litetlog.Spicy.Demo.Laws.{demo-TextLaws, demo-LogLaws, leaf-IsHash}
use litetlog.Spicy.Demo.Runs.{made, latest_plain, made_name, made_plain, init-Keeps_demo}

abbrev one_hash : Hashes
one_hash = put_hash (pos 0) (leaf (codes "hello")) no_hashes

one_edge : right_edge demo.stored_hash_index (pos 1) ≡ some (pos 0 ∷ [])
unfolding right_edge maxpow2 pow2 add_sub64 of_bits64
one_edge = refl

load_edge-format_edge_example :
    (found : Hashes) × (load_edge demo 1
        (format_edge demo 1 (pos 0 ∷ []) one_hash)
        (quiet made.files)
      ≡ (ok found, quiet made.files))
    × ((j : ℤ) → found j ≡ (if mem j (pos 0 ∷ []) then some (hash_at one_hash j) else none))
load_edge-format_edge_example =
    load_edge-format_edge demo demo-TextLaws 1 (pos 0 ∷ []) one_hash (quiet made.files)
      (omega arith) one_edge (leaf-IsHash (codes "hello"), tt)

read_signature-format_signature_example :
    read_signature demo (format_signature demo 7 (zero_hash ∷ []) (codes "note"))
    ≡ some (record { index = pos 7; proof = zero_hash ∷ []; checkpoint = codes "note" })
read_signature-format_signature_example =
    read_signature-format_signature demo demo-TextLaws 7 (zero_hash ∷ []) (codes "note")
      (omega arith) (leaf-IsHash [], tt)

-- A file beside its signature.
abbrev signed_files : Bytes → Option Bytes
signed_files path =
    if bytes_eq path (codes "f")
    then some (codes "hello")
    else if bytes_eq path (codes "f.spicy")
    then some (
        format_signature demo 0 (leaf (codes "hello") ∷ [])
          (format_checkpoint (head_of demo_name 1 zero_hash)))
    else none

demo_verifies :
    verify demo (codes "key") (codes "f" ∷ []) (quiet signed_files) ≡ (ok tt, quiet signed_files)
unfolding verify verify_files verify_file read bytes_eq read_signature read_proof format_signature
    hash_lines cut cut_prefix parse_checkpoint format_checkpoint parse_hash parse_int format_int
    digits_onto scan count ends_with split_n decode encode
demo_verifies = refl

verify-Verified_example :
    (codes "f" ∷ [] ≢ [])
    × (vkey : NoteVerifier) × (demo.new_verifier (codes "key") ≡ some vkey)
    × All (Verified demo vkey signed_files) (codes "f" ∷ [])
verify-Verified_example =
    verify-Verified demo (codes "key") (codes "f" ∷ []) (quiet signed_files) demo_verifies

demo_tree : demo.tree_hash 1 (read_hashes one_hash) ≡ some zero_hash
unfolding demo_tree_hash right_edge maxpow2 pow2 add_sub64 of_bits64 read_hashes
demo_tree = refl

save-load_torn_example :
    (d' : Disk) × (save demo [] init-Keeps_demo.2.signer init-Keeps_demo.0.name 1 one_hash
        (record { files = made.files; faults = works ∷ denied ∷ [] })
      ≡ (fatal unwritten_edge, d'))
    × (load_log demo (codes "k") [] (quiet d'.files) ≡ (fatal size_mismatch, quiet d'.files))
save-load_torn_example =
    save-load_torn demo demo-LogLaws demo-TextLaws (codes "k") [] init-Keeps_demo.0 [] made.files
      init-Keeps_demo.2 made_name made_plain (λ e. cc (e ∙ latest_plain)) 1 (omega arith)
      (omega arith) init-Keeps_demo.2.signer init-Keeps_demo.2.signs one_hash zero_hash demo_tree
      (format_checkpoint (head_of init-Keeps_demo.0.name 1 zero_hash)) refl
