-- ===== src/Operator.antt =====
-- The operator of src/operator.rs.
pub mod Funding
