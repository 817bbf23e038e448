-- ===== src/Chop.antt =====
-- The host-side mirrors of one chop: `PlayerChopTransition` (src/player.rs) and `ChopTransition`
-- (src/tree.rs), with the checks that accept one.
pub mod ByPlayer
pub mod ByTree
pub mod Agreement
mod Examples
use woodland_sh.Base.{
  ℕ, Bool, true, false, not, Result, ok, err, ◌>>=◌, reject, ok_or, ◌==◌, nat_eq,
}
use woodland_sh.Base.Words.{checked_add, checked_sub}
use woodland_sh.Player.Luck.{MaterialDrop, stone_drop, iron_ore_drop, no_material}

pub data ChopError : Type 0 where
  axe_changed invalid_luck overflow underflow wrong_player_xp wrong_player_logs : ChopError
  wrong_player_materials tree_state_changed marker_not_preserved depleted_tree : ChopError
  wrong_tree_health wrong_tree_inventory wrong_logs wrong_xp wrong_materials : ChopError
  player_value_changed tree_value_changed : ChopError

-- `u64::from(material == MaterialDrop::Stone)`, `u64::from(material == MaterialDrop::IronOre)`
abbrev pub is_stone : MaterialDrop → Bool
is_stone stone_drop = true
is_stone _ = false

abbrev pub is_iron_ore : MaterialDrop → Bool
is_iron_ore iron_ore_drop = true
is_iron_ore _ = false

-- `after != before.checked_add(amount)?` and `after != before.checked_sub(amount)?`
abbrev pub not_sum : ℕ → ℕ → ℕ → Result ChopError Bool
not_sum after before amount = do
  expected ← ok_or (checked_add before amount) overflow
  ok (not (after == expected))

abbrev pub not_difference : ℕ → ℕ → ℕ → Result ChopError Bool
not_difference after before amount = do
  expected ← ok_or (checked_sub before amount) underflow
  ok (not (after == expected))

-- `if test? { return Err(e); }`
abbrev pub reject_if : Result ChopError Bool → ChopError → Result ChopError (Unit {0})
reject_if test e = do failed ← test; reject failed e
