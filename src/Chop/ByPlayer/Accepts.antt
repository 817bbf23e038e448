-- ===== src/Chop/ByPlayer/Accepts.antt =====
-- `PlayerChopTransition::validate` of src/player.rs, against the rules of a chop.
use woodland_sh.Base.{ℕ, ◌+◌, ◌≡◌, ◌≢◌, ◌↔◌, Bool, List, ok, nat_eq, bool_beq_iff, arith}
use woodland_sh.Base.Words.{IsU64}
use woodland_sh.Player.Progress.{axe_eq, axe_beq_iff}
use woodland_sh.Player.Luck.{
  PlayerLuck, MaterialDrop, luck_eq, luck_beq_iff, bit, advance, material_drop,
}
use woodland_sh.Tree.{tree_state_eq, tree_state_beq_iff}
use woodland_sh.Chop.{is_stone, is_iron_ore}
use woodland_sh.Chop.ByPlayer.{
  PlayerChopTransition, check_player_balances, check_tree_balances, check_tree_kept, check_values,
  validate_inventory, validate,
}

-- What `reward`, `stone_reward` and `iron_ore_reward` units do to the player's balances, which
-- stay 64-bit numbers.
pub record PlayerGains (t : PlayerChopTransition) (reward stone_reward iron_ore_reward : ℕ)
    : Type 0 where
  pub xp : t.state_xp_balance_after ≡ t.state_xp_balance_before + reward
  pub logs : t.state_logs_after ≡ t.state_logs_before + reward
  pub stone : t.state_stone_after ≡ t.state_stone_before + stone_reward
  pub iron_ore : t.state_iron_ore_after ≡ t.state_iron_ore_before + iron_ore_reward

pub record TreeLoses (t : PlayerChopTransition) (reward stone_reward iron_ore_reward : ℕ)
    : Type 0 where
  pub health : t.previous_tree_health.value ≡ t.next_tree_health.value + reward
  pub xp : t.tree_xp_balance_before ≡ t.tree_xp_balance_after + reward
  pub logs : t.tree_logs_before ≡ t.tree_logs_after + reward
  pub stone : t.tree_stone_before ≡ t.tree_stone_after + stone_reward
  pub iron_ore : t.tree_iron_ore_before ≡ t.tree_iron_ore_after + iron_ore_reward

-- What a chop needs of the tree, and what it leaves as it is.
pub record TreeStands (t : PlayerChopTransition) : Type 0 where
  pub state_kept : t.previous_tree_state ≡ t.next_tree_state
  pub marker_before : t.tree_markers_before ≡ 1
  pub marker_after : t.tree_markers_after ≡ 1
  pub health_left : t.previous_tree_health.value ≢ 0
  pub logs_left : t.tree_logs_before ≢ 0
  pub xp_left : t.tree_xp_balance_before ≢ 0

pub record ValuesKept (t : PlayerChopTransition) : Type 0 where
  pub player_before : t.state_value_before ≡ t.dust_sats
  pub player_after : t.state_value_after ≡ t.dust_sats
  pub tree_before : t.tree_value_before ≡ t.dust_sats
  pub tree_after : t.tree_value_after ≡ t.dust_sats

-- The balances of the player after the chop are 64-bit numbers.
pub record AreWords (t : PlayerChopTransition) : Type 0 where
  pub xp : IsU64 t.state_xp_balance_after
  pub logs : IsU64 t.state_logs_after
  pub stone : IsU64 t.state_stone_after
  pub iron_ore : IsU64 t.state_iron_ore_after

-- The luck and the reward that the previous state gives.
abbrev pub drawn : (List ℕ → List ℕ) → PlayerChopTransition → PlayerLuck × Bool
drawn sha256 t = advance sha256 t.previous_state.luck t.state_xp_balance_before t.previous_state.axe

abbrev pub material : (List ℕ → List ℕ) → PlayerChopTransition → MaterialDrop
material sha256 t = material_drop sha256 (drawn sha256 t).0.roll t.state_xp_balance_before t.success

-- A chop by the rules: the axe stays, the luck advances, and each balance moves by its bit.
pub record IsPlayerChop (sha256 : List ℕ → List ℕ) (t : PlayerChopTransition) : Type 0 where
  pub axe_kept : t.next_state.axe ≡ t.previous_state.axe
  pub luck_advanced : t.next_state.luck ≡ (drawn sha256 t).0
  pub reward_drawn : t.success ≡ (drawn sha256 t).1
  pub gains :
      PlayerGains t
        (bit t.success)
        (bit (is_stone (material sha256 t)))
        (bit (is_iron_ore (material sha256 t)))
  pub loses :
      TreeLoses t
        (bit t.success)
        (bit (is_stone (material sha256 t)))
        (bit (is_iron_ore (material sha256 t)))
  pub stands : TreeStands t
  pub values : ValuesKept t

module _ (t : PlayerChopTransition) (reward stone_reward iron_ore_reward : ℕ) where
  check_player_balances_lem :
      AreWords t
      → (check_player_balances t reward stone_reward iron_ore_reward ≡ ok tt)
        ↔ PlayerGains t reward stone_reward iron_ore_reward
  unfolding check_player_balances
  check_player_balances_lem w = ((λ h. ground arith), (λ h. ground arith))

  check_tree_balances_lem :
      (check_tree_balances t reward stone_reward iron_ore_reward ≡ ok tt)
      ↔ TreeLoses t reward stone_reward iron_ore_reward
  unfolding check_tree_balances
  check_tree_balances_lem = ((λ h. ground arith), (λ h. ground arith))

module _ (t : PlayerChopTransition) where
  check_tree_kept_lem : (check_tree_kept t ≡ ok tt) ↔ TreeStands t
  unfolding check_tree_kept
  check_tree_kept_lem = (
    (λ h. ground (arith, tree_state_beq_iff t.previous_tree_state t.next_tree_state)),
    (λ h. ground (arith, tree_state_beq_iff t.previous_tree_state t.next_tree_state)),
  )

  check_values_lem : (check_values t ≡ ok tt) ↔ ValuesKept t
  unfolding check_values
  check_values_lem = ((λ h. ground arith), (λ h. ground arith))

  validate_inventory_lem :
      (reward stone_reward iron_ore_reward : ℕ)
      → AreWords t
      → (validate_inventory t reward stone_reward iron_ore_reward ≡ ok tt) ↔ (
          PlayerGains t reward stone_reward iron_ore_reward
          × TreeStands t
          × TreeLoses t reward stone_reward iron_ore_reward
          × ValuesKept t)
  unfolding validate_inventory
  validate_inventory_lem reward stone_reward iron_ore_reward w = ground (
    arith,
    check_player_balances_lem t reward stone_reward iron_ore_reward w,
    check_tree_kept_lem,
    check_tree_balances_lem t reward stone_reward iron_ore_reward,
    check_values_lem,
  )

-- Where the player's balances after it fit 64 bits, the player's mirror accepts a chop exactly when
-- it is one by the rules: the axe stays, the luck advances, each balance moves by its bit, the tree
-- stands, and the sats stay one dust.
pub validate-IsPlayerChop :
    (sha256 : List ℕ → List ℕ) (t : PlayerChopTransition)
    → AreWords t
    → (validate sha256 t ≡ ok tt) ↔ IsPlayerChop sha256 t
unfolding validate
validate-IsPlayerChop sha256 t w =
    let inventory =
      validate_inventory_lem t (bit t.success) (bit (is_stone (material sha256 t)))
        (bit (is_iron_ore (material sha256 t))) w in
    let axes = axe_beq_iff t.next_state.axe t.previous_state.axe in
    let lucks = luck_beq_iff t.next_state.luck (drawn sha256 t).0 in
    let bits = bool_beq_iff t.success (drawn sha256 t).1 in
    (
      (λ h. ground (arith, inventory, axes, lucks, bits)),
      (λ h. ground (arith, inventory, axes, lucks, bits)),
    )
