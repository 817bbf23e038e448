-- ===== src/Chop/ByTree/Accepts.antt =====
-- `ChopTransition::validate` of src/tree.rs, against the rules of a chop.
use woodland_sh.Base.{ℕ, ◌+◌, ◌≡◌, ◌≢◌, ◌↔◌, Bool, List, ok, bool_beq_iff, arith}
use woodland_sh.Base.Words.{IsU64}
use woodland_sh.Player.Luck.{PlayerLuck, MaterialDrop, luck_beq_iff, bit, advance, material_drop}
use woodland_sh.Tree.{tree_state_beq_iff}
use woodland_sh.Chop.{is_stone, is_iron_ore}
use woodland_sh.Chop.ByTree.{
  ChopTransition, check_tree_kept, check_player_xp_and_health, check_logs_and_xp, check_materials,
  check_values, validate,
}

pub record TreeStands (t : ChopTransition) : Type 0 where
  pub state_kept : t.next_state ≡ t.previous_state
  pub marker_before : t.tree_markers_before ≡ 1
  pub marker_after : t.tree_markers_after ≡ 1
  pub health_left : t.previous_health.value ≢ 0
  pub logs_left : t.tree_logs_before ≢ 0
  pub xp_left : t.tree_xp_balance_before ≢ 0

-- LOG and XP move by `reward` units, from the tree to the player, and the health falls by it.
pub record RewardMoves (t : ChopTransition) (reward : ℕ) : Type 0 where
  pub rate_balance : t.player_xp_before ≡ t.player_xp_balance_before
  pub player_xp : t.player_xp_balance_after ≡ t.player_xp_balance_before + reward
  pub player_logs : t.player_logs_after ≡ t.player_logs_before + reward
  pub health : t.previous_health.value ≡ t.next_health.value + reward
  pub tree_logs : t.tree_logs_before ≡ t.tree_logs_after + reward
  pub tree_xp : t.tree_xp_balance_before ≡ t.tree_xp_balance_after + reward

pub record MaterialsMove (t : ChopTransition) (stone_reward iron_ore_reward : ℕ) : Type 0 where
  pub player_stone : t.player_stone_after ≡ t.player_stone_before + stone_reward
  pub player_iron_ore : t.player_iron_ore_after ≡ t.player_iron_ore_before + iron_ore_reward
  pub tree_stone : t.tree_stone_before ≡ t.tree_stone_after + stone_reward
  pub tree_iron_ore : t.tree_iron_ore_before ≡ t.tree_iron_ore_after + iron_ore_reward

pub record ValuesKept (t : ChopTransition) : Type 0 where
  pub dust_positive : t.dust_sats ≢ 0
  pub player_before : t.player_value_before ≡ t.dust_sats
  pub player_after : t.player_value_after ≡ t.dust_sats
  pub tree_before : t.tree_value_before ≡ t.dust_sats
  pub tree_after : t.tree_value_after ≡ t.dust_sats

-- The balances of the player after the chop are 64-bit numbers.
pub record AreWords (t : ChopTransition) : Type 0 where
  pub xp : IsU64 t.player_xp_balance_after
  pub logs : IsU64 t.player_logs_after
  pub stone : IsU64 t.player_stone_after
  pub iron_ore : IsU64 t.player_iron_ore_after

-- The luck and the reward that the player's input gives.
abbrev pub drawn : (List ℕ → List ℕ) → ChopTransition → PlayerLuck × Bool
drawn sha256 t = advance sha256 t.previous_player_luck t.player_xp_before t.player_axe

abbrev pub material : (List ℕ → List ℕ) → ChopTransition → MaterialDrop
material sha256 t = material_drop sha256 (drawn sha256 t).0.roll t.player_xp_before t.success

-- A chop by the rules, as the tree sees it.
pub record IsTreeChop (sha256 : List ℕ → List ℕ) (t : ChopTransition) : Type 0 where
  pub luck_advanced : t.next_player_luck ≡ (drawn sha256 t).0
  pub reward_drawn : t.success ≡ (drawn sha256 t).1
  pub stands : TreeStands t
  pub reward_moves : RewardMoves t (bit t.success)
  pub materials_move :
      MaterialsMove t (bit (is_stone (material sha256 t))) (bit (is_iron_ore (material sha256 t)))
  pub values : ValuesKept t

module _ (t : ChopTransition) where
  check_tree_kept_lem : (check_tree_kept t ≡ ok tt) ↔ TreeStands t
  unfolding check_tree_kept
  check_tree_kept_lem = (
    (λ h. ground (arith, tree_state_beq_iff t.next_state t.previous_state)),
    (λ h. ground (arith, tree_state_beq_iff t.next_state t.previous_state)),
  )

  check_values_lem : (check_values t ≡ ok tt) ↔ ValuesKept t
  unfolding check_values
  check_values_lem = ((λ h. ground arith), (λ h. ground arith))

  check_rewards_lem :
      (reward : ℕ)
      → AreWords t
      → ((check_player_xp_and_health t reward ≡ ok tt) × (check_logs_and_xp t reward ≡ ok tt))
        ↔ RewardMoves t reward
  unfolding check_player_xp_and_health check_logs_and_xp
  check_rewards_lem reward w = ((λ h. ground arith), (λ h. ground arith))

  check_materials_lem :
      (stone_reward iron_ore_reward : ℕ)
      → AreWords t
      → (check_materials t stone_reward iron_ore_reward ≡ ok tt)
        ↔ MaterialsMove t stone_reward iron_ore_reward
  unfolding check_materials
  check_materials_lem stone_reward iron_ore_reward w = ((λ h. ground arith), (λ h. ground arith))

-- Where the player's balances after it fit 64 bits, the tree's mirror accepts a chop exactly when it
-- is one by the rules, as the tree sees it.
pub validate-IsTreeChop :
    (sha256 : List ℕ → List ℕ) (t : ChopTransition)
    → AreWords t
    → (validate sha256 t ≡ ok tt) ↔ IsTreeChop sha256 t
unfolding validate
validate-IsTreeChop sha256 t w =
    let kept = check_tree_kept_lem t in
    let lucks = luck_beq_iff t.next_player_luck (drawn sha256 t).0 in
    let bits = bool_beq_iff t.success (drawn sha256 t).1 in
    let moves = check_rewards_lem t (bit t.success) w in
    let materials =
      check_materials_lem t (bit (is_stone (material sha256 t)))
        (bit (is_iron_ore (material sha256 t))) w in
    let values = check_values_lem t in
    (
      (λ h. ground (arith, kept, lucks, bits, moves, materials, values)),
      (λ h. ground (arith, kept, lucks, bits, moves, materials, values)),
    )
