-- ===== src/Player/Luck/Roll.antt =====
-- Buckets, materials, and the packets of the luck state.
use woodland_sh.Base.{
  ℕ, ◌%◌, ◌≤◌, ◌<◌, Bool, true, false, List, [], ◌∷◌, All, ◌≡◌, refl, ◌↔◌, arith, ok, ◌⊎◌,
}
use mathlib.Core.List.{foldl-append, reverse-cons}
use woodland_sh.Base.Words.{IsByte, from_le_bytes, numeric_packet-eq, from_le_bytes-numeric_packet}
use woodland_sh.Player.Progress.{
  woodcutting_xp, level_from_xp, xp_for_level, xp_balance_for_woodcutting_xp,
}
use woodland_sh.Player.Progress.Rate.{balance_at_level}
use woodland_sh.Player.Luck.{
  PlayerRoll, PlayerLuckCredit, bucket_of, bucket, material_bucket, material_drop, stone_drop,
  iron_ore_drop, encode_credit, decode_credit,
}

-- The bytes reversed and folded from the front give their little-endian number modulo 10,000.
pub bucket_of-from_le_bytes : (bytes : List ℕ) → bucket_of bytes ≡ from_le_bytes bytes % 10000
unfolding bucket_of
bucket_of-from_le_bytes [] = refl
bucket_of-from_le_bytes (b ∷ bs) =
    rw (reverse-cons b bs) (rw (foldl-append) (omega (arith, bucket_of-from_le_bytes bs)))

-- A bucket is the roll's little-endian number modulo 10,000.
pub bucket-from_le_bytes : (roll : PlayerRoll) → bucket roll ≡ from_le_bytes roll.bytes % 10000
unfolding bucket
bucket-from_le_bytes roll = bucket_of-from_le_bytes roll.bytes

at_unlock :
    (balance : ℕ)
    → (xp_balance_for_woodcutting_xp 1154 ≤ balance) ↔ (10 ≤ level_from_xp (woodcutting_xp balance))
unfolding xp_for_level
at_unlock balance = balance_at_level balance 10 1154 refl (omega arith)

-- A swing that drops no LOG drops no material. With a LOG, STONE takes the buckets below 1,000
-- before level 10 and those from 200 to 1,199 after it; IRON ORE takes those below 200 from level
-- 10 on.
pub material_drop-level :
    (sha256 : List ℕ → List ℕ) (roll : PlayerRoll) (balance : ℕ) (success : Bool)
    → let level = level_from_xp (woodcutting_xp balance) in
      let b = material_bucket sha256 roll in
      ((material_drop sha256 roll balance success ≡ iron_ore_drop)
        ↔ ((success ≡ true) × (10 ≤ level) × (b < 200)))
      × ((material_drop sha256 roll balance success ≡ stone_drop) ↔ (
          (success ≡ true)
          × (((level < 10) × (b < 1000)) ⊎ ((10 ≤ level) × (200 ≤ b) × (b < 1200)))))
unfolding material_drop
material_drop-level sha256 roll balance false = ground arith
material_drop-level sha256 roll balance true = ground (arith, at_unlock balance)

-- A packet of bytes decodes to a credit exactly when it is the encoding of one that is at most
-- 20,000.
pub decode_credit-encode_credit :
    (bytes : List ℕ) (credit : PlayerLuckCredit)
    → All IsByte bytes
    → (decode_credit bytes ≡ ok credit) ↔ ((bytes ≡ encode_credit credit) × (credit.value ≤ 20000))
unfolding decode_credit encode_credit
decode_credit-encode_credit bytes credit h = (there, back)
  where
    there :
        decode_credit bytes ≡ ok credit → (bytes ≡ encode_credit credit) × (credit.value ≤ 20000)
    there e = ground (arith, numeric_packet-eq bytes h)

    back : (bytes ≡ encode_credit credit) × (credit.value ≤ 20000) → decode_credit bytes ≡ ok credit
    back (e, fits) = rw e (ground (arith, from_le_bytes-numeric_packet credit.value))
