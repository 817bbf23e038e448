-- ===== src/Batch.antt =====
-- src/batch.rs: the renewal of a state in an Ark batch.
pub mod Progress
pub mod Expiry
pub mod Graph
pub mod Trees
pub mod Signatures
pub mod Forfeits
pub mod Session
