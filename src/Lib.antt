-- ===== src/Lib.antt =====
-- litetlog: a cosigning witness of transparency logs (internal/witness), the checkpoints and tree
-- arithmetic that it shares with the other commands (internal/tlogx), the command that runs it with
-- the key of an ssh-agent (cmd/litewitness), the command that adds logs to its database
-- (cmd/witnessctl), the bastion that forwards requests to it (bastion) with the command that runs
-- that (cmd/litebastion), and a command that keeps a small log in a directory (cmd/spicy).
--
-- A client posts to the witness a checkpoint that a log has signed, the size of the tree that the
-- witness last saw of this log, and a proof that the new tree extends the old one. The witness
-- checks the signature with the keys in its database, checks the proof against the row of the log,
-- moves the row and answers with its cosignature. The witness may be behind a bastion, which knows it
-- by the hash of its key. The command spicy appends files to its own log and writes beside each a
-- signature: the index, the proof, and the checkpoint that its key has signed.
--
--   Prelude    Boolean tests, byte strings, int64 sums, powers of two.
--   Std        strings, strconv, unicode/utf8, path/filepath, encoding/base64, encoding/hex and
--              encoding/binary of the standard library, as far as they are used.
--   Tlogx      internal/tlogx. Checkpoint is checkpoint.go: parse_checkpoint is ParseCheckpoint,
--              format_checkpoint is FormatCheckpoint. Edge is tlogx.go: right_edge is RightEdge,
--              maxpow2 is maxpow2. Cosignature is cosignature.go: new_cosignature_signer is
--              NewCosignatureV1Signer, format_cosignature is formatCosignatureV1. Note is note.go:
--              new_verifier_from_signer is NewVerifierFromSigner.
--   Witness    internal/witness/witness.go. Db holds the tables log and key and the statements on
--              them, Request the parts of a request's body, Process processAddCheckpointRequest
--              with getLog, getKeys, checkConsistency, persistTreeHead and splitSignatures under
--              their names, Serve the HTTP answer, Race the requests that run at the same time. Spec is
--              what the witness promises, with no tables and no statements: a map from logs to heads,
--              and the steps that it takes on it.
--   Ctl        cmd/witnessctl/witnessctl.go: add_log is addLog, add_sigsum_log is addSigsumLog, on
--              the tables of Witness.Db.
--   Bastion    bastion/bastion.go: serve_http is ServeHTTP, round_trip is RoundTrip, handle_backend is
--              handleBackend; the pool of connections is a state that Step changes.
--   Litebastion  cmd/litebastion/litebastion.go: reload_backends is reloadBackends, and Step interleaves
--              reloads with the steps of Bastion.
--   Litewitness  cmd/litewitness/litewitness.go: connect_to_ssh_agent is connectToSSHAgent, new_signer
--              is newSigner, sign and private_key the methods of signer, connect_to_bastions the loop
--              over the bastions.
--   Spicy      cmd/spicy/spicy.go: verify, init and append are the three commands of its main. Disk
--              is the file system, Library what it calls of golang.org/x/mod, Signature and Edge
--              the two formats of files, as they are read and written.
--
-- A string is a list of bytes, each a natural number. A tree size that was parsed is a natural
-- number, since the code refuses the negative ones; the sums of RightEdge are integers that wrap
-- around at 64 bits. An action of the witness is a function from the world to a result and a world:
-- the world is the database and, for each statement still to be run, whether it fails. An UPDATE
-- records how many rows it changed, for Changes. The requests that run at the same time share one
-- database and are interleaved between their calls of it. A command of spicy is a function from the
-- files and, for each call of the system still to be made, whether it works, is denied or is cut
-- short, to an outcome and the files behind it; a file is its path as it is spelled.
--
-- Fuel: maxpow2 has 63 rounds and RightEdge 64, enough for a tree of fewer than 2^62 records,
-- since an exponent is below 62 there and each level is below the one before. The loop over the
-- extension of a checkpoint has as many rounds as the extension has bytes, and the loop over the
-- proof of a signature file one more than the text has bytes (read_proof_fuel).
--
-- golang.org/x/mod/sumdb is a parameter: note.NewVerifier, note.Open, note.Sign,
-- note.NewEd25519VerifierKey, note.NewSigner, note.GenerateKey, tlog.ParseHash, tlog.CheckTree,
-- tlog.StoredHashIndex, tlog.StoredHashes, tlog.TreeHash, tlog.ProveRecord and tlog.CheckRecord.
-- So are the hashes of sigsum-go, golang.org/x/crypto/ssh, SHA-256, Ed25519 and the clock. What a
-- theorem needs of them is a hypothesis: note.Open returns a prefix of the note, CheckTree of two
-- trees of one size holds only of equal hashes, ParseHash reads the text of a hash back, Ed25519
-- accepts the signatures of its key, and a digest is bytes; for spicy, the hashes that
-- StoredHashes makes are those of the records, CheckRecord accepts the proofs that ProveRecord
-- makes of them, TreeHash reads the subtrees of the binary digits of the size, NewSigner reads the
-- text of a private key and signs with its seed, and note.Open opens a text of graphic ASCII
-- characters and newlines that note.Sign has signed, under a verifier of the signer's name and
-- hash that accepts the signature (LogLaws); for -init, GenerateKey writes the text of a private
-- key of the name (Generates).
--
-- The sizes of spicy are sums of natural numbers, which cannot wrap around: RightEdge returns only
-- for a size of at most 2^62, and a command line is shorter than that.
--
-- Not modelled: the flags of the commands other than those of spicy, and the listing of
-- cmd/witnessctl; the opening of the database, the logging, the certificates and the servers,
-- which call libraries only; symbolic links and other paths to one file; the modes of files; the
-- test data; cmd/apt-transport-tlog, which is Python.

pub mod Prelude
pub mod Std
pub mod Tlogx
pub mod Witness
pub mod Ctl
pub mod Bastion
pub mod Litebastion
pub mod Litewitness
pub mod Spicy
