-- ===== src/Witness.antt =====
-- internal/witness/witness.go: the cosigning witness.
pub mod Library
pub mod Db
pub mod Request
pub mod Process
pub mod Serve
pub mod Race
pub mod Signatures
pub mod Spec
pub mod Demo
