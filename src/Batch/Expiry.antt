-- ===== src/Batch/Expiry.antt =====
-- `validate_batch_expiry` of src/batch.rs. The relative lock time that a sequence number stands for is
-- read by `bitcoin`, so it is an argument.
mod Examples
use woodland_sh.Base.{
  ℕ, ◌+◌, ◌*◌, ◌≤◌, ◌<◌, ◌^◌, Bool, true, false, Option, none, some, Result, ok, err, ◌>>=◌, ◌>>◌,
  reject, ok_or, ◌≡◌, ◌↔◌, refl, arith, if◌then◌else◌,
}
use woodland_sh.Base.Int.{ℤ, pos, negsuc, int_ltb, int_leb, checked_sub64}

pub data ExpiryError : Type 0 where
  arithmetic_overflow input_expired block_based disabled too_short : ExpiryError

-- `bitcoin::relative::LockTime`, in units of 512 seconds or in blocks.
pub data LockTime : Type 0 where
  by_time : ℕ → LockTime
  by_blocks : ℕ → LockTime

-- The lifetime in seconds. A u16 of units does not overflow.
unfoldable pub lifetime_secs : Option LockTime → Result ExpiryError ℤ
lifetime_secs none = err disabled
lifetime_secs (some (by_time units)) = ok (pos (units * 512))
lifetime_secs (some (by_blocks blocks)) = err block_based

unfoldable pub validate_batch_expiry : Option LockTime → ℤ → ℤ → Result ExpiryError (Unit {0})
unfolding lifetime_secs
validate_batch_expiry batch_expiry input_expires_at now_unix = do
  remaining ← ok_or (checked_sub64 input_expires_at now_unix) arithmetic_overflow
  reject (int_leb remaining (pos 0)) input_expired
  lifetime ← lifetime_secs batch_expiry
  reject (int_ltb lifetime remaining) too_short
  ok tt

-- For an input that expires at a 64-bit time, from the Unix epoch on, a batch is accepted exactly when
-- the input is not expired and the batch gives a lifetime in seconds that reaches its expiry.
pub validate_batch_expiry_lem :
    (batch_expiry : Option LockTime) (expires now : ℕ)
    → expires < 2 ^ 63
    → (validate_batch_expiry batch_expiry (pos expires) (pos now) ≡ ok tt) ↔ (
        (units : ℕ) × (batch_expiry ≡ some (by_time units))
        × (now < expires)
        × (expires ≤ now + units * 512))
unfolding validate_batch_expiry
validate_batch_expiry_lem none expires now h = ((λ e. absurd (ground arith)), (λ e. ground arith))
validate_batch_expiry_lem (some (by_time units)) expires now h =
    ((λ e. (units, refl, ground arith, ground arith)), (λ e. ground arith))
validate_batch_expiry_lem (some (by_blocks blocks)) expires now h =
    ((λ e. absurd (ground arith)), (λ e. ground arith))
