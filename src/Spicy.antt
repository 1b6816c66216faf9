-- ===== src/Spicy.antt =====
-- cmd/spicy/spicy.go: a transparency log in a directory, which signs files with the proof that they
-- are in the log.
pub mod Library
pub mod Disk
pub mod Signature
pub mod Verify
pub mod Init
pub mod Edge
pub mod Append
pub mod Main
pub mod Demo
