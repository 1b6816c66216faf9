-- ===== src/Tlogx.antt =====
-- internal/tlogx: checkpoints, cosignatures, note keys and the right edge of a tree.
pub mod Demo
pub mod Edge
pub mod Checkpoint
pub mod Cosignature
pub mod Note
