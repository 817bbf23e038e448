-- ===== src/Player/Progress/Level.antt =====
-- Levels against the curve, and XP against balances.
use woodland_sh.Base.{
  ℕ, zero, suc, ◌+◌, ◌^◌, ◌≤◌, ◌<◌, Bool, true, ◌&&◌, some, List, [], ◌∷◌, leb, length, get_elem?,
  ◌≡◌, refl, ◌↔◌, arith, sym, ◌∙◌,
}
use woodland_sh.Base.Words.{checked_sub}
use woodland_sh.Player.Progress.{
  level_curve, partition_point, level_from_xp, xp_for_level, woodcutting_xp,
  xp_balance_for_woodcutting_xp, max_player_level,
}

-- Every element is above `lo`, and above those before it.
abbrev increasing_from : ℕ → List ℕ → Bool
increasing_from lo [] = true
increasing_from lo (x ∷ xs) = leb lo x && increasing_from (x + 1) xs

abbrev curve_increases : increasing_from 0 level_curve ≡ true
curve_increases = refl

increasing-lower :
    (lo : ℕ) (xs : List ℕ) (i t : ℕ)
    → increasing_from lo xs ≡ true
    → get_elem? xs i ≡ some t
    → lo ≤ t
increasing-lower lo [] i t s e = cc
increasing-lower lo (x ∷ xs) zero t s e = ground arith
increasing-lower lo (x ∷ xs) (suc i) t s e = ground (arith, increasing-lower (x + 1) xs i t)

-- In an increasing list the elements up to `xp` are those before the partition point.
partition_point-le :
    (xp lo : ℕ) (xs : List ℕ) (i t : ℕ)
    → increasing_from lo xs ≡ true
    → get_elem? xs i ≡ some t
    → (t ≤ xp) ↔ (i < partition_point (λ x. leb x xp) xs)
unfolding partition_point
partition_point-le xp lo [] i t s e = cc
partition_point-le xp lo (x ∷ xs) zero t s e = ground arith
partition_point-le xp lo (x ∷ xs) (suc i) t s e =
    ground (arith, partition_point-le xp (x + 1) xs i t, increasing-lower (x + 1) xs i t)

partition_point-le-length {ℓ} :
    {A : Type ℓ} (p : A → Bool) (xs : List A) → partition_point p xs ≤ length xs
unfolding partition_point
partition_point-le-length p [] = omega arith
partition_point-le-length p (x ∷ xs) = ground (arith, partition_point-le-length p xs)

checked_sub-suc_one : (i : ℕ) → checked_sub (suc i) 1 ≡ some i
checked_sub-suc_one i = ground arith

xp_for_level-suc : (i : ℕ) → xp_for_level (suc i) ≡ get_elem? level_curve i
unfolding xp_for_level
xp_for_level-suc i = rw (checked_sub-suc_one i, xp_for_level)

-- A player has reached a level that has a threshold exactly when the XP has reached it.
pub level_from_xp-xp_for_level :
    (xp level threshold : ℕ)
    → xp_for_level level ≡ some threshold
    → (threshold ≤ xp) ↔ (level ≤ level_from_xp xp)
unfolding xp_for_level level_from_xp
level_from_xp-xp_for_level xp zero threshold e = ground arith
level_from_xp-xp_for_level xp (suc i) threshold e =
    partition_point-le xp 0 level_curve i threshold curve_increases (sym (xp_for_level-suc i) ∙ e)

-- Levels run from 1 to 99.
pub level_from_xp_bounds : (xp : ℕ) → (1 ≤ level_from_xp xp) × (level_from_xp xp ≤ max_player_level)
unfolding level_from_xp xp_for_level
level_from_xp_bounds xp = (
  (level_from_xp-xp_for_level xp 1 0 refl).0 (omega arith),
  partition_point-le-length (λ x. leb x xp) level_curve,
)

-- A balance reaches an XP amount of 64 bits exactly when it is at least the amount's balance.
pub xp_balance_for_woodcutting_xp-le :
    (xp balance : ℕ)
    → xp < 2 ^ 64
    → (xp_balance_for_woodcutting_xp xp ≤ balance) ↔ (xp ≤ woodcutting_xp balance)
unfolding xp_balance_for_woodcutting_xp woodcutting_xp
xp_balance_for_woodcutting_xp-le xp balance h = ((λ p. omega arith), (λ p. omega arith))
