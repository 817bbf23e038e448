-- ===== src/Batch/Expiry/Examples.antt =====
-- A batch of two units of 512 seconds, for an input with a thousand seconds left.
use woodland_sh.Base.{ℕ, ◌+◌, ◌*◌, ◌≤◌, ◌<◌, ◌≡◌, ◌↔◌, some, ok, arith}
use woodland_sh.Base.Int.{pos}
use woodland_sh.Batch.Expiry.{by_time, validate_batch_expiry, validate_batch_expiry_lem}

validate_batch_expiry_example :
    (validate_batch_expiry (some (by_time 2)) (pos 6000) (pos 5000) ≡ ok tt) ↔ (
      (units : ℕ) × (some (by_time 2) ≡ some (by_time units))
      × (5000 < 6000)
      × (6000 ≤ 5000 + units * 512))
validate_batch_expiry_example = validate_batch_expiry_lem (some (by_time 2)) 6000 5000 (omega arith)
