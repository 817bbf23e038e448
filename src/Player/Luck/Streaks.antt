-- ===== src/Player/Luck/Streaks.antt =====
-- Sequences of swings: the balance and the axe of each swing may be any.
use woodland_sh.Base.{ℕ, ◌+◌, ◌*◌, ◌≤◌, List, [], ◌∷◌, length, All, ◌≡◌, arith}
use woodland_sh.Player.Progress.{AxeTier, log_drop_basis_points}
use woodland_sh.Player.Progress.Rate.{log_drop_basis_points_bounds}
use woodland_sh.Player.Luck.{PlayerLuck, bit, advance}
use woodland_sh.Player.Luck.Credit.{IsInCorridor, advance_credit}

-- The balance and the axe at a swing.
abbrev pub Swing : Type 0
Swing = ℕ × AxeTier

abbrev pub rate : Swing → ℕ
rate s = log_drop_basis_points s.0 s.1

abbrev pub total_rate : List Swing → ℕ
total_rate [] = 0
total_rate (s ∷ rest) = rate s + total_rate rest

module _ (sha256 : List ℕ → List ℕ) where
  pub after : PlayerLuck → List Swing → PlayerLuck
  after luck [] = luck
  after luck (s ∷ rest) = after (advance sha256 luck s.0 s.1).0 rest

  pub rewards : PlayerLuck → List Swing → ℕ
  rewards luck [] = 0
  rewards luck (s ∷ rest) =
      bit (advance sha256 luck s.0 s.1).1 + rewards (advance sha256 luck s.0 s.1).0 rest

  -- After any swings the rewards paid out and the credit left add up to the rates and the credit
  -- at the start, and the credit is still in the corridor.
  pub after-rewards :
      (luck : PlayerLuck) (swings : List Swing)
      → IsInCorridor luck
      → ((after luck swings).credit.value + 10000 * rewards luck swings
          ≡ luck.credit.value + total_rate swings)
        × IsInCorridor (after luck swings)
  unfolding after rewards
  after-rewards luck [] h = omega arith
  after-rewards luck (s ∷ rest) h =
      let step = advance_credit sha256 luck s.0 s.1 h in
      omega (arith, step.0, after-rewards (advance sha256 luck s.0 s.1).0 rest step.1)

  -- From a credit in the corridor, whatever the swings, 10,000 times the number of rewards is within 20,000 of the sum of the rates.
  pub rewards_corridor :
      (luck : PlayerLuck) (swings : List Swing)
      → IsInCorridor luck
      → (total_rate swings ≤ 10000 * rewards luck swings + 20000)
        × (10000 * rewards luck swings ≤ total_rate swings + 20000)
  rewards_corridor luck swings h = omega (arith, after-rewards luck swings h)

total_rate-least : (swings : List Swing) → 2000 * length swings ≤ total_rate swings
total_rate-least [] = omega arith
total_rate-least (s ∷ rest) =
    omega (arith, total_rate-least rest, log_drop_basis_points_bounds s.0 s.1)

total_rate-most :
    (p : ℕ) (swings : List Swing)
    → All (λ s. rate s ≤ p) swings
    → total_rate swings ≤ p * length swings
total_rate-most p [] h = omega arith
total_rate-most p (s ∷ rest) h = omega (arith, total_rate-most p rest h.1, h.0)

rate-le : (swings : List Swing) → All (λ s. rate s ≤ 3800) swings
rate-le [] = tt
rate-le (s ∷ rest) = ((log_drop_basis_points_bounds s.0 s.1).1, rate-le rest)

module _ (sha256 : List ℕ → List ℕ) (luck : PlayerLuck) (swings : List Swing) where
  -- From a credit in the corridor no more than ten swings in a row miss, no more than three are
  -- rewarded, and no more than two where no rate passes a third.
  pub streaks_bounded :
      IsInCorridor luck
      → (rewards sha256 luck swings ≡ 0 → length swings ≤ 10)
        × (rewards sha256 luck swings ≡ length swings → length swings ≤ 3)
        × (All (λ s. rate s ≤ 3333) swings
            → rewards sha256 luck swings ≡ length swings
            → length swings ≤ 2)
  streaks_bounded h = (
    (λ missed. omega (arith, total_rate-least swings, rewards_corridor sha256 luck swings h)),
    (λ hit. omega (
      arith,
      total_rate-most 3800 swings (rate-le swings),
      rewards_corridor sha256 luck swings h,
    )),
    (λ low hit.
        omega (arith, total_rate-most 3333 swings low, rewards_corridor sha256 luck swings h)),
  )
