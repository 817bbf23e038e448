-- ===== src/Player/Progress/Rate.antt =====
-- The drop rate against levels, and its bounds.
use woodland_sh.Base.{ℕ, ◌+◌, ◌*◌, ◌/◌, ◌^◌, ◌≤◌, ◌<◌, min, some, ◌≡◌, refl, ◌↔◌, arith}
use woodland_sh.Player.Progress.{
  AxeTier, woodcutting_xp, xp_balance_for_woodcutting_xp, level_from_xp, xp_for_level,
  bonus_basis_points, log_drop_basis_points, base_log_drop_basis_points, max_log_drop_basis_points,
}
use woodland_sh.Player.Progress.Level.{level_from_xp-xp_for_level, xp_balance_for_woodcutting_xp-le}

-- A balance is at a level's balance exactly when its XP is at the level.
pub balance_at_level :
    (balance level threshold : ℕ)
    → xp_for_level level ≡ some threshold
    → threshold < 2 ^ 64
    → (xp_balance_for_woodcutting_xp threshold ≤ balance)
      ↔ (level ≤ level_from_xp (woodcutting_xp balance))
balance_at_level balance level threshold e h =
    let (f, g) = xp_balance_for_woodcutting_xp-le threshold balance h in
    let (f', g') = level_from_xp-xp_for_level (woodcutting_xp balance) level threshold e in
    ((λ p. f' (f p)), (λ p. g (g' p)))

bonus_basis_points-le : (axe : AxeTier) → bonus_basis_points axe ≤ 800
unfolding bonus_basis_points
bonus_basis_points-le axe = ground arith

-- At every balance the level part of the rate is 2,000 basis points and 200 more for each of the
-- levels 10, 20, 30, 40 and 50 that the player has reached; the axe's bonus is added.
pub log_drop_basis_points-level :
    (balance : ℕ) (axe : AxeTier)
    → log_drop_basis_points balance axe
      ≡ 2000 + 200 * min 5 (level_from_xp (woodcutting_xp balance) / 10) + bonus_basis_points axe
unfolding log_drop_basis_points xp_for_level
log_drop_basis_points-level balance axe = ground (
  arith,
  balance_at_level balance 10 1154 refl (omega arith),
  balance_at_level balance 20 4470 refl (omega arith),
  balance_at_level balance 30 13363 refl (omega arith),
  balance_at_level balance 40 37224 refl (omega arith),
  balance_at_level balance 50 101333 refl (omega arith),
)

-- The rate lies between the base rate and the highest rate, whatever the balance and the axe.
pub log_drop_basis_points_bounds :
    (balance : ℕ) (axe : AxeTier)
    → (base_log_drop_basis_points ≤ log_drop_basis_points balance axe)
      × (log_drop_basis_points balance axe ≤ max_log_drop_basis_points)
log_drop_basis_points_bounds balance axe =
    omega (arith, log_drop_basis_points-level balance axe, bonus_basis_points-le axe)
