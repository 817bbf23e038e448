-- ===== src/Chop/ByPlayer.antt =====
-- `PlayerChopTransition` of src/player.rs.
pub mod Accepts
use woodland_sh.Base.{
  ℕ, ◌≡◌, Bool, true, false, not, ◌&&◌, ◌||◌, List, Result, ok, err, ◌>>=◌, ◌>>◌, reject, ok_or,
  either_test, ◌==◌, nat_eq, bool_eq, Eq, ◌↔◌,
}
use woodland_sh.Player.Progress.{AxeTier, axe_eq}
use woodland_sh.Player.Luck.{PlayerLuck, luck_eq, bit, advance, material_drop}
use woodland_sh.Tree.{TreeState, TreeHealth, tree_state_eq, tree_value_sats}
use woodland_sh.Chop.{
  ChopError, reject_if, not_sum, not_difference, axe_changed, invalid_luck, wrong_player_xp,
  wrong_player_logs, wrong_player_materials, tree_state_changed, marker_not_preserved,
  depleted_tree, wrong_tree_inventory, player_value_changed, tree_value_changed, is_stone,
  is_iron_ore,
}

pub record PlayerState : Type 0 where
  pub luck : PlayerLuck
  pub axe : AxeTier

pub record PlayerChopTransition : Type 0 where
  pub previous_state : PlayerState
  pub next_state : PlayerState
  pub previous_tree_state : TreeState
  pub next_tree_state : TreeState
  pub previous_tree_health : TreeHealth
  pub next_tree_health : TreeHealth
  pub success : Bool
  pub state_logs_before : ℕ
  pub state_logs_after : ℕ
  pub state_xp_balance_before : ℕ
  pub state_xp_balance_after : ℕ
  pub state_stone_before : ℕ
  pub state_stone_after : ℕ
  pub state_iron_ore_before : ℕ
  pub state_iron_ore_after : ℕ
  pub tree_markers_before : ℕ
  pub tree_markers_after : ℕ
  pub tree_logs_before : ℕ
  pub tree_logs_after : ℕ
  pub tree_xp_balance_before : ℕ
  pub tree_xp_balance_after : ℕ
  pub tree_stone_before : ℕ
  pub tree_stone_after : ℕ
  pub tree_iron_ore_before : ℕ
  pub tree_iron_ore_after : ℕ
  pub state_value_before : ℕ
  pub state_value_after : ℕ
  pub tree_value_before : ℕ
  pub tree_value_after : ℕ
  pub dust_sats : ℕ

module _ (t : PlayerChopTransition) where
  unfoldable pub check_player_balances : ℕ → ℕ → ℕ → Result ChopError (Unit {0})
  check_player_balances reward stone_reward iron_ore_reward = do
    reject_if (not_sum t.state_xp_balance_after t.state_xp_balance_before reward) wrong_player_xp
    reject_if (not_sum t.state_logs_after t.state_logs_before reward) wrong_player_logs
    reject_if
        (either_test (not_sum t.state_stone_after t.state_stone_before stone_reward)
          (not_sum t.state_iron_ore_after t.state_iron_ore_before iron_ore_reward))
        wrong_player_materials

  unfoldable pub check_tree_kept : Result ChopError (Unit {0})
  check_tree_kept = do
    reject (not (t.previous_tree_state == t.next_tree_state)) tree_state_changed
    reject (not (t.tree_markers_before == 1) || not (t.tree_markers_after == 1))
        marker_not_preserved
    reject
        (t.previous_tree_health.value == 0
          || (t.tree_logs_before == 0 || t.tree_xp_balance_before == 0))
        depleted_tree

  unfoldable pub check_tree_balances : ℕ → ℕ → ℕ → Result ChopError (Unit {0})
  check_tree_balances reward stone_reward iron_ore_reward =
      reject_if
        (either_test (not_difference t.next_tree_health.value t.previous_tree_health.value reward) (
          either_test (not_difference t.tree_logs_after t.tree_logs_before reward) (
            either_test (not_difference t.tree_xp_balance_after t.tree_xp_balance_before reward) (
              either_test (not_difference t.tree_stone_after t.tree_stone_before stone_reward)
                (not_difference t.tree_iron_ore_after t.tree_iron_ore_before iron_ore_reward)))))
        wrong_tree_inventory

  unfoldable pub check_values : Result ChopError (Unit {0})
  unfolding tree_value_sats
  check_values = do
    reject (not (t.state_value_before == t.dust_sats) || not (t.state_value_after == t.dust_sats))
        player_value_changed
    let expected_tree_value = tree_value_sats t.dust_sats
    reject
        (not (t.tree_value_before == expected_tree_value)
          || not (t.tree_value_after == expected_tree_value))
        tree_value_changed

  -- The checks after the luck, for the rewards that the luck gives.
  unfoldable pub validate_inventory : ℕ → ℕ → ℕ → Result ChopError (Unit {0})
  validate_inventory reward stone_reward iron_ore_reward = do
    check_player_balances reward stone_reward iron_ore_reward
    check_tree_kept
    check_tree_balances reward stone_reward iron_ore_reward
    check_values

unfoldable pub validate : (List ℕ → List ℕ) → PlayerChopTransition → Result ChopError (Unit {0})
validate sha256 t = do
  reject (not (t.next_state.axe == t.previous_state.axe)) axe_changed
  let (expected_luck, expected_success) =
      advance sha256 t.previous_state.luck t.state_xp_balance_before t.previous_state.axe
  reject (not (t.next_state.luck == expected_luck) || not (t.success == expected_success))
      invalid_luck
  let material = material_drop sha256 expected_luck.roll t.state_xp_balance_before t.success
  validate_inventory t (bit t.success) (bit (is_stone material)) (bit (is_iron_ore material))
