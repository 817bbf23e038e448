-- ===== src/Player/Progress.antt =====
-- Woodcutting XP, levels, axe tiers and the LOG drop rate of src/player.rs.
pub mod Level
pub mod Rate
pub mod Axe
mod Examples
use woodland_sh.Base.{
  ℕ, zero, suc, ◌+◌, ◌-◌, ◌*◌, ◌/◌, Bool, true, false, Option, none, some, List, [], ◌∷◌, map, ltb,
  leb, if◌then◌else◌, length, get_elem?, ◌==◌, nat_eq, Eq, ◌≡◌, ◌↔◌, arith,
}
use woodland_sh.Base.Words.{saturating_mul, checked_sub}

abbrev pub woodcutting_xp_per_log : ℕ
woodcutting_xp_per_log = 25

abbrev pub max_player_level : ℕ
max_player_level = 99

-- `XP_FOR_LEVEL`, levels 1 to 99.
abbrev pub level_curve : List ℕ
level_curve =
    0 ∷ 83 ∷ 174 ∷ 276 ∷ 388 ∷ 512 ∷ 650 ∷ 801 ∷ 969 ∷ 1154 ∷ 1358 ∷ 1584 ∷ 1833 ∷ 2107 ∷ 2411
    ∷ 2746 ∷ 3115 ∷ 3523 ∷ 3973 ∷ 4470 ∷ 5018 ∷ 5624 ∷ 6291 ∷ 7028 ∷ 7842 ∷ 8740 ∷ 9730 ∷ 10824
    ∷ 12031 ∷ 13363 ∷ 14833 ∷ 16456 ∷ 18247 ∷ 20224 ∷ 22406 ∷ 24815 ∷ 27473 ∷ 30408 ∷ 33648 ∷ 37224
    ∷ 41171 ∷ 45529 ∷ 50339 ∷ 55649 ∷ 61512 ∷ 67983 ∷ 75127 ∷ 83014 ∷ 91721 ∷ 101333 ∷ 111945
    ∷ 123660 ∷ 136594 ∷ 150872 ∷ 166636 ∷ 184040 ∷ 203254 ∷ 224466 ∷ 247886 ∷ 273742 ∷ 302288
    ∷ 333804 ∷ 368599 ∷ 407015 ∷ 449428 ∷ 496254 ∷ 547953 ∷ 605032 ∷ 668051 ∷ 737627 ∷ 814445
    ∷ 899257 ∷ 992895 ∷ 1096278 ∷ 1210421 ∷ 1336443 ∷ 1475581 ∷ 1629200 ∷ 1798808 ∷ 1986068
    ∷ 2192818 ∷ 2421087 ∷ 2673114 ∷ 2951373 ∷ 3258594 ∷ 3597792 ∷ 3972294 ∷ 4385776 ∷ 4842295
    ∷ 5346332 ∷ 5902831 ∷ 6517253 ∷ 7195629 ∷ 7944614 ∷ 8771558 ∷ 9684577 ∷ 10692629 ∷ 11805606
    ∷ 13034431 ∷ []

abbrev pub base_log_drop_basis_points : ℕ
base_log_drop_basis_points = 2000

abbrev pub level_log_drop_bonus_basis_points : ℕ
level_log_drop_bonus_basis_points = 200

abbrev pub max_level_log_drop_basis_points : ℕ
max_level_log_drop_basis_points = 3000

abbrev pub wooden_axe_bonus_basis_points : ℕ
wooden_axe_bonus_basis_points = 200

abbrev pub stone_axe_bonus_basis_points : ℕ
stone_axe_bonus_basis_points = 500

abbrev pub iron_axe_bonus_basis_points : ℕ
iron_axe_bonus_basis_points = 800

abbrev pub max_log_drop_basis_points : ℕ
max_log_drop_basis_points = max_level_log_drop_basis_points + iron_axe_bonus_basis_points

-- User-facing XP at levels 10, 20, 30, 40 and 50.
abbrev pub level_log_drop_xp_thresholds : List ℕ
level_log_drop_xp_thresholds = 1154 ∷ 4470 ∷ 13363 ∷ 37224 ∷ 101333 ∷ []

pub woodcutting_xp : ℕ → ℕ
woodcutting_xp player_xp_balance = saturating_mul player_xp_balance woodcutting_xp_per_log

-- `div_ceil`
unfoldable pub xp_balance_for_woodcutting_xp : ℕ → ℕ
xp_balance_for_woodcutting_xp xp = (xp + (woodcutting_xp_per_log - 1)) / woodcutting_xp_per_log

abbrev pub level_log_drop_xp_balance_thresholds : List ℕ
level_log_drop_xp_balance_thresholds =
    map xp_balance_for_woodcutting_xp level_log_drop_xp_thresholds

-- `partition_point` on a slice that its predicate splits in two: how many elements pass.
pub partition_point {ℓ} : {A : Type ℓ} → (A → Bool) → List A → ℕ
partition_point p [] = 0
partition_point p (x ∷ xs) = let rest = partition_point p xs in if p x then suc rest else 0

unfoldable pub level_from_xp : ℕ → ℕ
unfolding partition_point
level_from_xp xp = partition_point (λ threshold. leb threshold xp) level_curve

unfoldable pub xp_for_level : ℕ → Option ℕ
xp_for_level level = elim (checked_sub level 1) [ none ↦ none | some i ↦ get_elem? level_curve i ]

pub data AxeTier : Type 0 where
  no_axe wooden stone iron : AxeTier

abbrev pub tier_number : AxeTier → ℕ
tier_number no_axe = 0
tier_number wooden = 1
tier_number stone = 2
tier_number iron = 3

abbrev pub axe_beq : AxeTier → AxeTier → Bool
axe_beq a b = tier_number a == tier_number b

pub axe_beq_iff : (a b : AxeTier) → (axe_beq a b ≡ true) ↔ (a ≡ b)
axe_beq_iff a b = ground arith

instance abbrev pub axe_eq : Eq AxeTier
axe_eq = record { beq = axe_beq; beq_iff = axe_beq_iff }

pub record AxeRecipe : Type 0 where
  pub axe : AxeTier
  pub required_level : ℕ
  pub log_cost : ℕ
  pub stone_cost : ℕ
  pub iron_ore_cost : ℕ

pub encode_axe : AxeTier → List ℕ
encode_axe axe = tier_number axe ∷ []

-- Anything but one byte of value 0 to 3 is an invalid packet.
pub decode_axe : List ℕ → Option AxeTier
decode_axe (zero ∷ []) = some no_axe
decode_axe (suc zero ∷ []) = some wooden
decode_axe (suc (suc zero) ∷ []) = some stone
decode_axe (suc (suc (suc zero)) ∷ []) = some iron
decode_axe _ = none

unfoldable pub bonus_basis_points : AxeTier → ℕ
bonus_basis_points no_axe = 0
bonus_basis_points wooden = wooden_axe_bonus_basis_points
bonus_basis_points stone = stone_axe_bonus_basis_points
bonus_basis_points iron = iron_axe_bonus_basis_points

abbrev pub wooden_recipe : AxeRecipe
wooden_recipe = record {
  axe = wooden;
  required_level = 1;
  log_cost = 1;
  stone_cost = 0;
  iron_ore_cost = 0;
}

abbrev pub stone_recipe : AxeRecipe
stone_recipe = record {
  axe = stone;
  required_level = 5;
  log_cost = 2;
  stone_cost = 2;
  iron_ore_cost = 0;
}

abbrev pub iron_recipe : AxeRecipe
iron_recipe = record {
  axe = iron;
  required_level = 15;
  log_cost = 5;
  stone_cost = 0;
  iron_ore_cost = 2;
}

unfoldable pub next_recipe : AxeTier → Option AxeRecipe
next_recipe no_axe = some wooden_recipe
next_recipe wooden = some stone_recipe
next_recipe stone = some iron_recipe
next_recipe iron = none

-- `none` is the panic of an index out of `XP_FOR_LEVEL`.
unfoldable pub required_xp_balance : AxeRecipe → Option ℕ
unfolding xp_for_level xp_balance_for_woodcutting_xp
required_xp_balance r = elim (xp_for_level r.required_level) [
  | none ↦ none
  | some xp ↦
      let level_balance = xp_balance_for_woodcutting_xp xp in
      some (if leb level_balance 0 then 1 else level_balance)
]

-- The loop over the thresholds, from the rate that it has reached.
pub add_level_bonuses : ℕ → ℕ → List ℕ → ℕ
add_level_bonuses balance basis_points [] = basis_points
add_level_bonuses balance basis_points (threshold ∷ rest) =
    add_level_bonuses balance
      (if leb threshold balance
        then basis_points + level_log_drop_bonus_basis_points
        else basis_points)
      rest

unfoldable pub log_drop_basis_points : ℕ → AxeTier → ℕ
unfolding add_level_bonuses xp_balance_for_woodcutting_xp bonus_basis_points
log_drop_basis_points balance axe =
    let basis_points =
      add_level_bonuses balance base_log_drop_basis_points level_log_drop_xp_balance_thresholds in
    (if ltb max_level_log_drop_basis_points basis_points
      then max_level_log_drop_basis_points
      else basis_points)
    + bonus_basis_points axe
