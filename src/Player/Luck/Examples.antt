-- ===== src/Player/Luck/Examples.antt =====
-- The luck of src/player.rs over a digest that gives zeros.
use woodland_sh.Base.{ℕ, ◌+◌, ◌*◌, ◌≤◌, ◌≡◌, refl, true, List, [], ◌∷◌, length, All, arith}
use woodland_sh.Player.Progress.{no_axe, log_drop_basis_points}
use woodland_sh.Player.Luck.{PlayerLuck, initial_credit, advance, bit, bucket}
use woodland_sh.Player.Luck.Credit.{IsInCorridor, advance_credit}
use woodland_sh.Player.Luck.Streaks.{
  Swing, rate, rewards, after, total_rate, after-rewards, streaks_bounded,
}

abbrev zero_digest : List ℕ → List ℕ
zero_digest bytes =
    0 ∷ 0 ∷ 0 ∷ 0 ∷ 0 ∷ 0 ∷ 0 ∷ 0 ∷ 0 ∷ 0 ∷ 0 ∷ 0 ∷ 0 ∷ 0 ∷ 0 ∷ 0 ∷ 0 ∷ 0 ∷ 0 ∷ 0 ∷ 0 ∷ 0 ∷ 0 ∷ 0
    ∷ 0 ∷ 0 ∷ 0 ∷ 0 ∷ 0 ∷ 0 ∷ 0 ∷ 0 ∷ []

abbrev new_player : PlayerLuck
new_player = record { roll = record { bytes = 16 ∷ 39 ∷ 1 ∷ [] }; credit = initial_credit }

abbrev two_swings : List Swing
two_swings = (0, no_axe) ∷ (1, no_axe) ∷ []

first_swing_rewarded : (advance zero_digest new_player 0 no_axe).1 ≡ true
unfolding advance log_drop_basis_points bucket
first_swing_rewarded = refl

advance_credit_example :
    ((advance zero_digest new_player 0 no_axe).0.credit.value
        + 10000 * bit (advance zero_digest new_player 0 no_axe).1
      ≡ 8000 + log_drop_basis_points 0 no_axe)
    × IsInCorridor (advance zero_digest new_player 0 no_axe).0
advance_credit_example = advance_credit zero_digest new_player 0 no_axe (omega arith)

after-rewards_example :
    ((after zero_digest new_player two_swings).credit.value
        + 10000 * rewards zero_digest new_player two_swings
      ≡ 8000 + total_rate two_swings)
    × IsInCorridor (after zero_digest new_player two_swings)
after-rewards_example = after-rewards zero_digest new_player two_swings (omega arith)

streaks_bounded_example :
    (rewards zero_digest new_player two_swings ≡ 0 → length two_swings ≤ 10)
    × (rewards zero_digest new_player two_swings ≡ length two_swings → length two_swings ≤ 3)
    × (All (λ s. rate s ≤ 3333) two_swings
        → rewards zero_digest new_player two_swings ≡ length two_swings
        → length two_swings ≤ 2)
streaks_bounded_example = streaks_bounded zero_digest new_player two_swings (omega arith)

abbrev credit_packet : List ℕ
credit_packet = 32 ∷ 78 ∷ 0 ∷ 0 ∷ 0 ∷ 0 ∷ 0 ∷ 0 ∷ 0 ∷ []
