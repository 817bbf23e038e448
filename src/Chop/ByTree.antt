-- ===== src/Chop/ByTree.antt =====
-- `ChopTransition` of src/tree.rs.
pub mod Accepts
use woodland_sh.Base.{
  ℕ, Bool, true, false, not, ◌&&◌, ◌||◌, List, Result, ok, err, ◌>>=◌, ◌>>◌, reject, either_test,
  ◌==◌, nat_eq, bool_eq, Eq,
}
use woodland_sh.Player.Progress.{AxeTier}
use woodland_sh.Player.Luck.{PlayerLuck, luck_eq, bit, advance, material_drop}
use woodland_sh.Tree.{TreeState, TreeHealth, tree_state_eq, tree_value_sats}
use woodland_sh.Chop.{
  ChopError, reject_if, not_sum, not_difference, is_stone, is_iron_ore, invalid_luck,
  wrong_player_xp, tree_state_changed, marker_not_preserved, depleted_tree, wrong_tree_health,
  wrong_logs, wrong_xp, wrong_materials, player_value_changed, tree_value_changed,
}

pub record ChopTransition : Type 0 where
  pub previous_state : TreeState
  pub next_state : TreeState
  pub previous_player_luck : PlayerLuck
  pub next_player_luck : PlayerLuck
  pub player_axe : AxeTier
  pub previous_health : TreeHealth
  pub next_health : TreeHealth
  pub player_xp_before : ℕ
  pub success : Bool
  pub dust_sats : ℕ
  pub tree_markers_before : ℕ
  pub tree_markers_after : ℕ
  pub tree_logs_before : ℕ
  pub tree_logs_after : ℕ
  pub tree_xp_balance_before : ℕ
  pub tree_xp_balance_after : ℕ
  pub player_logs_before : ℕ
  pub player_logs_after : ℕ
  pub player_xp_balance_before : ℕ
  pub player_xp_balance_after : ℕ
  pub tree_stone_before : ℕ
  pub tree_stone_after : ℕ
  pub tree_iron_ore_before : ℕ
  pub tree_iron_ore_after : ℕ
  pub player_stone_before : ℕ
  pub player_stone_after : ℕ
  pub player_iron_ore_before : ℕ
  pub player_iron_ore_after : ℕ
  pub player_value_before : ℕ
  pub player_value_after : ℕ
  pub tree_value_before : ℕ
  pub tree_value_after : ℕ

module _ (t : ChopTransition) where
  unfoldable pub check_tree_kept : Result ChopError (Unit {0})
  check_tree_kept = do
    reject (not (t.next_state == t.previous_state)) tree_state_changed
    reject (not (t.tree_markers_before == 1) || not (t.tree_markers_after == 1))
        marker_not_preserved
    reject
        (t.previous_health.value == 0 || (t.tree_logs_before == 0 || t.tree_xp_balance_before == 0))
        depleted_tree

  unfoldable pub check_player_xp_and_health : ℕ → Result ChopError (Unit {0})
  check_player_xp_and_health reward = do
    reject_if
        (either_test (ok (not (t.player_xp_before == t.player_xp_balance_before)))
          (not_sum t.player_xp_balance_after t.player_xp_balance_before reward))
        wrong_player_xp
    reject_if (not_difference t.next_health.value t.previous_health.value reward) wrong_tree_health

  unfoldable pub check_logs_and_xp : ℕ → Result ChopError (Unit {0})
  check_logs_and_xp reward = do
    reject_if
        (either_test (not_difference t.tree_logs_after t.tree_logs_before reward)
          (not_sum t.player_logs_after t.player_logs_before reward))
        wrong_logs
    reject_if
        (either_test (not_difference t.tree_xp_balance_after t.tree_xp_balance_before reward)
          (not_sum t.player_xp_balance_after t.player_xp_balance_before reward))
        wrong_xp

  unfoldable pub check_materials : ℕ → ℕ → Result ChopError (Unit {0})
  check_materials stone_reward iron_ore_reward =
      reject_if
        (either_test (not_difference t.tree_stone_after t.tree_stone_before stone_reward) (
          either_test (not_sum t.player_stone_after t.player_stone_before stone_reward) (
            either_test
              (not_difference t.tree_iron_ore_after t.tree_iron_ore_before iron_ore_reward)
              (not_sum t.player_iron_ore_after t.player_iron_ore_before iron_ore_reward))))
        wrong_materials

  unfoldable pub check_values : Result ChopError (Unit {0})
  unfolding tree_value_sats
  check_values = do
    reject
        (t.dust_sats == 0
          || (not (t.player_value_before == t.dust_sats)
              || not (t.player_value_after == t.dust_sats)))
        player_value_changed
    let expected_tree_value = tree_value_sats t.dust_sats
    reject
        (not (t.tree_value_before == expected_tree_value)
          || not (t.tree_value_after == expected_tree_value))
        tree_value_changed

unfoldable pub validate : (List ℕ → List ℕ) → ChopTransition → Result ChopError (Unit {0})
validate sha256 t = do
  check_tree_kept t
  let (expected_luck, expected_success) =
      advance sha256 t.previous_player_luck t.player_xp_before t.player_axe
  reject (not (t.next_player_luck == expected_luck) || not (t.success == expected_success))
      invalid_luck
  let material = material_drop sha256 expected_luck.roll t.player_xp_before t.success
  check_player_xp_and_health t (bit t.success)
  check_logs_and_xp t (bit t.success)
  check_materials t (bit (is_stone material)) (bit (is_iron_ore material))
  check_values t
