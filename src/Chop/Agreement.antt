-- ===== src/Chop/Agreement.antt =====
-- The two mirrors of one chop, and what both promise.
use woodland_sh.Base.{ℕ, ◌+◌, ◌≤◌, ◌≡◌, ◌≢◌, ◌↔◌, List, ok, arith}
use woodland_sh.Player.Luck.{bit, material_drop}
use woodland_sh.Chop.{is_stone, is_iron_ore}
use woodland_sh.Chop.ByPlayer
use woodland_sh.Chop.ByPlayer.Accepts
use woodland_sh.Chop.ByTree
use woodland_sh.Chop.ByTree.Accepts as TreeAccepts
use woodland_sh.Chop.ByPlayer.{PlayerChopTransition}
use woodland_sh.Chop.ByTree.{ChopTransition}

-- The chop of the player's mirror as the tree's mirror records it.
unfoldable pub seen_by_tree : PlayerChopTransition → ChopTransition
seen_by_tree t = record {
  previous_state = t.previous_tree_state;
  next_state = t.next_tree_state;
  previous_player_luck = t.previous_state.luck;
  next_player_luck = t.next_state.luck;
  player_axe = t.previous_state.axe;
  previous_health = t.previous_tree_health;
  next_health = t.next_tree_health;
  player_xp_before = t.state_xp_balance_before;
  success = t.success;
  dust_sats = t.dust_sats;
  tree_markers_before = t.tree_markers_before;
  tree_markers_after = t.tree_markers_after;
  tree_logs_before = t.tree_logs_before;
  tree_logs_after = t.tree_logs_after;
  tree_xp_balance_before = t.tree_xp_balance_before;
  tree_xp_balance_after = t.tree_xp_balance_after;
  player_logs_before = t.state_logs_before;
  player_logs_after = t.state_logs_after;
  player_xp_balance_before = t.state_xp_balance_before;
  player_xp_balance_after = t.state_xp_balance_after;
  tree_stone_before = t.tree_stone_before;
  tree_stone_after = t.tree_stone_after;
  tree_iron_ore_before = t.tree_iron_ore_before;
  tree_iron_ore_after = t.tree_iron_ore_after;
  player_stone_before = t.state_stone_before;
  player_stone_after = t.state_stone_after;
  player_iron_ore_before = t.state_iron_ore_before;
  player_iron_ore_after = t.state_iron_ore_after;
  player_value_before = t.state_value_before;
  player_value_after = t.state_value_after;
  tree_value_before = t.tree_value_before;
  tree_value_after = t.tree_value_after;
}

module _ (sha256 : List ℕ → List ℕ) (t : PlayerChopTransition) (words : Accepts.AreWords t) where
  tree-player :
      t.dust_sats ≢ 0
      → Accepts.IsPlayerChop sha256 t
      → TreeAccepts.IsTreeChop sha256 (seen_by_tree t)
  unfolding seen_by_tree
  tree-player dust c = ground arith

  player-tree :
      t.next_state.axe ≡ t.previous_state.axe
      → TreeAccepts.IsTreeChop sha256 (seen_by_tree t)
      → Accepts.IsPlayerChop sha256 t
  unfolding seen_by_tree
  player-tree axe c = ground arith

  words_seen : TreeAccepts.AreWords (seen_by_tree t)
  unfolding seen_by_tree
  words_seen = ground arith

  -- Over positive dust, an axe that the chop keeps, and player balances after it that fit 64 bits,
  -- the tree's mirror accepts the chop exactly when the player's mirror does.
  pub mirrors_agree :
      t.dust_sats ≢ 0
      → t.next_state.axe ≡ t.previous_state.axe
      → (ByTree.validate sha256 (seen_by_tree t) ≡ ok tt) ↔ (ByPlayer.validate sha256 t ≡ ok tt)
  mirrors_agree dust axe =
      let by_tree = TreeAccepts.validate-IsTreeChop sha256 (seen_by_tree t) words_seen in
      let by_player = Accepts.validate-IsPlayerChop sha256 t words in
      (
        (λ h. by_player.1 (player-tree axe (by_tree.0 h))),
        (λ h. by_tree.1 (tree-player dust (by_player.0 h))),
      )

-- What moves in a chop.
pub record Conserves (t : PlayerChopTransition) : Type 0 where
  pub logs : t.state_logs_after + t.tree_logs_after ≡ t.state_logs_before + t.tree_logs_before
  pub xp :
      t.state_xp_balance_after + t.tree_xp_balance_after
      ≡ t.state_xp_balance_before + t.tree_xp_balance_before
  pub stone : t.state_stone_after + t.tree_stone_after ≡ t.state_stone_before + t.tree_stone_before
  pub iron_ore :
      t.state_iron_ore_after + t.tree_iron_ore_after
      ≡ t.state_iron_ore_before + t.tree_iron_ore_before
  pub reward_at_most_one : t.state_logs_after ≤ t.state_logs_before + 1
  pub xp_with_logs :
      t.state_xp_balance_after + t.state_logs_before
      ≡ t.state_xp_balance_before + t.state_logs_after
  pub health_with_logs :
      t.next_tree_health.value + t.tree_logs_before
      ≡ t.previous_tree_health.value + t.tree_logs_after
  pub materials_with_logs :
      t.state_stone_after + t.state_iron_ore_after + t.state_logs_before
      ≤ t.state_stone_before + t.state_iron_ore_before + t.state_logs_after

module _ (sha256 : List ℕ → List ℕ) (t : PlayerChopTransition) where
  -- At most one unit of one material, and none without a LOG.
  material_at_most_reward :
      bit (is_stone (Accepts.material sha256 t)) + bit (is_iron_ore (Accepts.material sha256 t))
      ≤ bit t.success
  unfolding material_drop
  material_at_most_reward = ground arith

  -- An accepted chop, with player balances after it that fit 64 bits, makes and destroys nothing: LOG, XP, STONE and IRON ORE are conserved between
  -- player and tree, XP and health move with LOG, and the materials do not outnumber the LOG.
  pub validate-Conserves : Accepts.AreWords t → ByPlayer.validate sha256 t ≡ ok tt → Conserves t
  validate-Conserves words h =
      let c = (Accepts.validate-IsPlayerChop sha256 t words).0 h in
      ground (arith, c, material_at_most_reward)
