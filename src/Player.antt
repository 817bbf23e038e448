-- ===== src/Player.antt =====
-- src/player.rs: the player's progression, luck and chop.
pub mod Progress
pub mod Luck
