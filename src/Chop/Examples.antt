-- ===== src/Chop/Examples.antt =====
-- A rewarded chop of a full tree by a new player, over a digest that gives zeros.
use woodland_sh.Base.{ℕ, ◌≡◌, ◌↔◌, refl, true, ok, List, [], ◌∷◌, arith}
use woodland_sh.Player.Progress.{no_axe, log_drop_basis_points}
use woodland_sh.Player.Luck.{initial_credit, advance, bucket, material_drop}
use woodland_sh.Chop.ByPlayer
use woodland_sh.Chop.ByTree
use woodland_sh.Chop.ByPlayer.Accepts
use woodland_sh.Chop.ByTree.Accepts as TreeAccepts
use woodland_sh.Chop.Agreement.{seen_by_tree, mirrors_agree, Conserves, validate-Conserves}
use woodland_sh.Chop.ByPlayer.{
  PlayerChopTransition, validate, validate_inventory, check_player_balances, check_tree_kept,
  check_tree_balances, check_values,
}

abbrev no_digest : List ℕ → List ℕ
no_digest bytes = 0 ∷ 0 ∷ []

abbrev first_chop : PlayerChopTransition
first_chop = record {
  previous_state = record {
    luck = record { roll = record { bytes = 5 ∷ [] }; credit = initial_credit };
    axe = no_axe;
  };
  next_state = record {
    luck = record { roll = record { bytes = 0 ∷ 0 ∷ [] }; credit = record { value = 0 } };
    axe = no_axe;
  };
  previous_tree_state = record { tree_id = 1; x = 2; y = 3 };
  next_tree_state = record { tree_id = 1; x = 2; y = 3 };
  previous_tree_health = record { value = 10 };
  next_tree_health = record { value = 9 };
  success = true;
  state_logs_before = 0;
  state_logs_after = 1;
  state_xp_balance_before = 0;
  state_xp_balance_after = 1;
  state_stone_before = 0;
  state_stone_after = 1;
  state_iron_ore_before = 0;
  state_iron_ore_after = 0;
  tree_markers_before = 1;
  tree_markers_after = 1;
  tree_logs_before = 1000;
  tree_logs_after = 999;
  tree_xp_balance_before = 1000;
  tree_xp_balance_after = 999;
  tree_stone_before = 1000;
  tree_stone_after = 999;
  tree_iron_ore_before = 1000;
  tree_iron_ore_after = 1000;
  state_value_before = 330;
  state_value_after = 330;
  tree_value_before = 330;
  tree_value_after = 330;
  dust_sats = 330;
}

words : Accepts.AreWords first_chop
words = record { xp = omega arith; logs = omega arith; stone = omega arith; iron_ore = omega arith }

first_chop_accepted : ByPlayer.validate no_digest first_chop ≡ ok tt
unfolding validate validate_inventory check_player_balances check_tree_kept check_tree_balances
    check_values advance log_drop_basis_points bucket material_drop
first_chop_accepted = refl

validate-IsPlayerChop_example : Accepts.IsPlayerChop no_digest first_chop
validate-IsPlayerChop_example =
    (Accepts.validate-IsPlayerChop no_digest first_chop words).0 first_chop_accepted

seen_words : TreeAccepts.AreWords (seen_by_tree first_chop)
unfolding seen_by_tree
seen_words = record {
  xp = omega arith;
  logs = omega arith;
  stone = omega arith;
  iron_ore = omega arith;
}

validate-IsTreeChop_example :
    (ByTree.validate no_digest (seen_by_tree first_chop) ≡ ok tt)
    ↔ TreeAccepts.IsTreeChop no_digest (seen_by_tree first_chop)
validate-IsTreeChop_example =
    TreeAccepts.validate-IsTreeChop no_digest (seen_by_tree first_chop) seen_words

mirrors_agree_example :
    (ByTree.validate no_digest (seen_by_tree first_chop) ≡ ok tt)
    ↔ (ByPlayer.validate no_digest first_chop ≡ ok tt)
mirrors_agree_example = mirrors_agree no_digest first_chop words (omega arith) refl

validate-Conserves_example : Conserves first_chop
validate-Conserves_example = validate-Conserves no_digest first_chop words first_chop_accepted
