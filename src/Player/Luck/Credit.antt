-- ===== src/Player/Luck/Credit.antt =====
-- `PlayerLuck::advance` of src/player.rs: the credit along one swing.
use woodland_sh.Base.{ℕ, ◌+◌, ◌*◌, ◌≤◌, ◌<◌, true, List, ◌≡◌, ◌↔◌, arith, ◌⊎◌}
use woodland_sh.Player.Progress.{AxeTier, log_drop_basis_points}
use woodland_sh.Player.Progress.Rate.{log_drop_basis_points_bounds}
use woodland_sh.Player.Luck.{PlayerLuck, bit, bucket, next, advance, max_luck_credit}

-- The credit of a well-formed state, which `PlayerLuckCredit::new` checks.
abbrev pub IsInCorridor : PlayerLuck → Type 0
IsInCorridor luck = luck.credit.value ≤ max_luck_credit

-- From a credit of at most 20,000, the rate that one swing adds is accounted for by the reward and the
-- new credit, with no subtraction cut off, and the new credit is at most 20,000.
pub advance_credit :
    (sha256 : List ℕ → List ℕ) (luck : PlayerLuck) (balance : ℕ) (axe : AxeTier)
    → IsInCorridor luck
    → ((advance sha256 luck balance axe).0.credit.value
          + 10000 * bit (advance sha256 luck balance axe).1
        ≡ luck.credit.value + log_drop_basis_points balance axe)
      × IsInCorridor (advance sha256 luck balance axe).0
unfolding advance
advance_credit sha256 luck balance axe h = ground (arith, log_drop_basis_points_bounds balance axe)

-- A swing is rewarded exactly when the credit forces it, or when it may and the bucket is below the
-- rate.
pub advance_reward :
    (sha256 : List ℕ → List ℕ) (luck : PlayerLuck) (balance : ℕ) (axe : AxeTier)
    → let p = log_drop_basis_points balance axe in
      let q = luck.credit.value + p in
      ((advance sha256 luck balance axe).1 ≡ true)
      ↔ ((20000 < q) ⊎ ((10000 ≤ q) × (bucket (next sha256 luck.roll) < p)))
unfolding advance
advance_reward sha256 luck balance axe = ground (arith)
