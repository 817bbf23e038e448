-- ===== src/World.antt =====
-- src/world.rs: the world's trees and their lineages.
pub mod Lineage
