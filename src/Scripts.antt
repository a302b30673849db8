-- ===== src/Scripts.antt =====
-- The operators' scripts of the directory scripts/.
pub mod Checkpoints
pub mod Gap
pub mod Recovery
pub mod Restore
