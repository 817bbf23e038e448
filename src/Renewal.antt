-- ===== src/Renewal.antt =====
-- src/renewal.rs: the renewal of a state into a new batch.
pub mod Fees
