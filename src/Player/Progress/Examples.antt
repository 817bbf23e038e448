-- ===== src/Player/Progress/Examples.antt =====
-- The progress of src/player.rs at concrete balances and packets.
use woodland_sh.Base.{◌+◌, ◌*◌, ◌/◌, ◌≤◌, min, ◌≡◌, ◌↔◌, refl, arith}
use woodland_sh.Player.Progress.{
  no_axe, stone, iron, level_from_xp, xp_for_level, max_player_level, woodcutting_xp,
  xp_balance_for_woodcutting_xp, log_drop_basis_points, bonus_basis_points,
}
use woodland_sh.Player.Progress.Level.{level_from_xp-xp_for_level, level_from_xp_bounds}
use woodland_sh.Player.Progress.Rate.{balance_at_level, log_drop_basis_points-level}

level_from_xp-xp_for_level_example : (1154 ≤ 1200) ↔ (10 ≤ level_from_xp 1200)
unfolding xp_for_level
level_from_xp-xp_for_level_example = level_from_xp-xp_for_level 1200 10 1154 refl

level_from_xp_bounds_example : (1 ≤ level_from_xp 1200) × (level_from_xp 1200 ≤ max_player_level)
level_from_xp_bounds_example = level_from_xp_bounds 1200

balance_at_level_example :
    (xp_balance_for_woodcutting_xp 83 ≤ 4) ↔ (2 ≤ level_from_xp (woodcutting_xp 4))
unfolding xp_for_level
balance_at_level_example = balance_at_level 4 2 83 refl (omega arith)

log_drop_basis_points-level_example :
    log_drop_basis_points 200 stone
    ≡ 2000 + 200 * min 5 (level_from_xp (woodcutting_xp 200) / 10) + bonus_basis_points stone
log_drop_basis_points-level_example = log_drop_basis_points-level 200 stone

rate_of_a_new_player : log_drop_basis_points 0 no_axe ≡ 2000
unfolding log_drop_basis_points
rate_of_a_new_player = refl

rate_at_the_top : log_drop_basis_points 5000 iron ≡ 3800
unfolding log_drop_basis_points
rate_at_the_top = refl
