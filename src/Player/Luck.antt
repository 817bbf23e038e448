-- ===== src/Player/Luck.antt =====
-- The public luck of src/player.rs: rolls, the luck credit, and the materials.
-- SHA-256 is a library of the source, so it is a parameter; texts are lists of bytes.

pub mod Credit
pub mod Roll
pub mod Streaks
mod Examples
use woodland_sh.Base.Texts.{codes}
use woodland_sh.Base.{
  ℕ, zero, suc, ◌+◌, ◌-◌, ◌*◌, ◌%◌, ◌≤◌, Bool, true, false, not, ◌&&◌, ◌||◌, List, [], ◌∷◌, ◌++◌,
  reverse, ltb, leb, if◌then◌else◌, length, take, drop, get_or, ◌==◌, Eq, Result, ok, err, ◌>>=◌,
  ◌>>◌, reject, ◌≡◌, refl, ◌↔◌, arith, list_beq_iff, nat_eq, list_eq,
}
use woodland_sh.Base.Words.{to_le_bytes, from_le_bytes}
use woodland_sh.Player.Progress.{
  AxeTier, level_curve, xp_balance_for_woodcutting_xp, log_drop_basis_points,
  base_log_drop_basis_points,
}
use mathlib.Core.List.{foldl}

abbrev pub player_roll_len : ℕ
player_roll_len = 32

abbrev pub player_luck_credit_len : ℕ
player_luck_credit_len = 9

abbrev pub chop_roll_basis_points : ℕ
chop_roll_basis_points = 10000

abbrev pub luck_window_basis_points : ℕ
luck_window_basis_points = 10000

abbrev pub max_luck_credit : ℕ
max_luck_credit = luck_window_basis_points * 2

abbrev pub initial_luck_credit : ℕ
initial_luck_credit = luck_window_basis_points - base_log_drop_basis_points

abbrev pub stone_drop_basis_points : ℕ
stone_drop_basis_points = 1000

abbrev pub iron_ore_drop_basis_points : ℕ
iron_ore_drop_basis_points = 200

abbrev pub iron_ore_unlock_level : ℕ
iron_ore_unlock_level = 10

-- `XP_FOR_LEVEL[IRON_ORE_UNLOCK_LEVEL - 1]`, in range, as a balance.
pub iron_ore_unlock_xp_balance : ℕ
unfolding xp_balance_for_woodcutting_xp
iron_ore_unlock_xp_balance =
    xp_balance_for_woodcutting_xp (get_or level_curve (iron_ore_unlock_level - 1) 0)

pub data LuckError : Type 0 where
  roll_seed_not_p2tr invalid_roll_packet invalid_credit_packet credit_exceeds_maximum : LuckError

-- 32 bytes.
pub record PlayerRoll : Type 0 where
  pub bytes : List ℕ

pub record PlayerLuckCredit : Type 0 where
  pub value : ℕ

pub record PlayerLuck : Type 0 where
  pub roll : PlayerRoll
  pub credit : PlayerLuckCredit

-- The derived `PartialEq`.
abbrev pub luck_beq : PlayerLuck → PlayerLuck → Bool
luck_beq a b = (a.roll.bytes == b.roll.bytes) && (a.credit.value == b.credit.value)

pub luck_beq_iff : (a b : PlayerLuck) → (luck_beq a b ≡ true) ↔ (a ≡ b)
luck_beq_iff a b = ground (arith, list_beq_iff a.roll.bytes b.roll.bytes)

instance abbrev pub luck_eq : Eq PlayerLuck
luck_eq = record { beq = luck_beq; beq_iff = luck_beq_iff }

-- `fold(0, |value, byte| (value * 256 + byte) % 10_000)` over the bytes, last first.
pub bucket_of : List ℕ → ℕ
bucket_of bytes =
    foldl (λ value byte. (value * 256 + byte) % chop_roll_basis_points) 0 (reverse bytes)

unfoldable pub bucket : PlayerRoll → ℕ
unfolding bucket_of
bucket roll = bucket_of roll.bytes

pub encode_roll : PlayerRoll → List ℕ
encode_roll roll = roll.bytes

pub decode_roll : List ℕ → Result LuckError PlayerRoll
decode_roll encoded =
    if length encoded == player_roll_len
    then ok (record { bytes = encoded })
    else err invalid_roll_packet

pub new_credit : ℕ → Result LuckError PlayerLuckCredit
new_credit value =
    if ltb max_luck_credit value then err credit_exceeds_maximum else ok (record { value = value })

abbrev pub initial_credit : PlayerLuckCredit
initial_credit = record { value = initial_luck_credit }

pub encode_credit : PlayerLuckCredit → List ℕ
encode_credit credit = to_le_bytes 8 credit.value ++ (0 ∷ [])

pub decode_credit : List ℕ → Result LuckError PlayerLuckCredit
unfolding new_credit
decode_credit encoded = do
  reject (not (length encoded == player_luck_credit_len) || not (get_or encoded 8 0 == 0))
      invalid_credit_packet
  new_credit (from_le_bytes (take 8 encoded))

pub data MaterialDrop : Type 0 where
  no_material stone_drop iron_ore_drop : MaterialDrop

-- The credit step of `PlayerLuck::advance` for the drawn candidate bit.
unfoldable pub reward_bit : ℕ → Bool → Bool
reward_bit raw_credit candidate =
    if ltb max_luck_credit raw_credit
    then true
    else if ltb raw_credit chop_roll_basis_points
    then false
    else candidate

abbrev pub bit : Bool → ℕ
bit true = 1
bit false = 0

-- The material of a bucket.
pub material_of_bucket : ℕ → ℕ → MaterialDrop
unfolding iron_ore_unlock_xp_balance
material_of_bucket bucket balance =
    if leb iron_ore_unlock_xp_balance balance
    then (if ltb bucket iron_ore_drop_basis_points
        then iron_ore_drop
        else if ltb bucket (iron_ore_drop_basis_points + stone_drop_basis_points)
        then stone_drop
        else no_material)
    else if ltb bucket stone_drop_basis_points
    then stone_drop
    else no_material

module _ (sha256 : List ℕ → List ℕ) where
  -- `ScriptBuf::is_p2tr` is a library's too.
  unfoldable pub initial_roll : (List ℕ → Bool) → List ℕ → Result LuckError PlayerRoll
  initial_roll is_p2tr player_script = do
    reject (not (is_p2tr player_script)) roll_seed_not_p2tr
    ok (record { bytes = sha256 (codes "woodland.sh/player-roll/v2" ++ drop 2 player_script) })

  unfoldable pub next : PlayerRoll → PlayerRoll
  next roll = record { bytes = sha256 roll.bytes }

  unfoldable pub material_bucket : PlayerRoll → ℕ
  unfolding bucket_of
  material_bucket roll = bucket_of (sha256 (codes "woodland.sh/material-roll/v1" ++ roll.bytes))

  unfoldable pub material_drop : PlayerRoll → ℕ → Bool → MaterialDrop
  unfolding material_bucket material_of_bucket
  material_drop next_roll balance success =
      if not success then no_material else material_of_bucket (material_bucket next_roll) balance

  unfoldable pub initial_luck : (List ℕ → Bool) → List ℕ → Result LuckError PlayerLuck
  unfolding initial_roll
  initial_luck is_p2tr player_script = do
    roll ← initial_roll is_p2tr player_script
    ok (record { roll = roll; credit = initial_credit })

  unfoldable pub advance : PlayerLuck → ℕ → AxeTier → PlayerLuck × Bool
  unfolding next bucket reward_bit
  advance luck balance axe =
      let next_roll = next luck.roll in
      let drop_basis_points = log_drop_basis_points balance axe in
      let raw_credit = luck.credit.value + drop_basis_points in
      let success = reward_bit raw_credit (ltb (bucket next_roll) drop_basis_points) in
      (
        record {
          roll = next_roll;
          credit = record { value = raw_credit - bit success * chop_roll_basis_points };
        },
        success,
      )
