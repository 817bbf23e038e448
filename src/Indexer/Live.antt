-- ===== src/Indexer/Live.antt =====
-- `VtxoRecord::ensure_live` of src/arkade.rs.
use woodland_sh.Base.{ℕ, ◌+◌, ◌<◌, ◌^◌, true, false, Option, none, some, ok, ◌≡◌, ◌↔◌, refl, arith}
use woodland_sh.Base.Int.{ℤ, pos, negsuc, int_ltb}
use woodland_sh.Indexer.{VtxoRecord, ensure_live, check_lifetime}

-- A record that is unspent, unswept and not unrolled, was created before it expires, and outlives the
-- deadline, which fits an `i64`.
pub record IsLive (r : VtxoRecord) (now margin : ℕ) : Type 0 where
  pub created : ℤ
  pub expires : ℕ
  pub unspent : r.is_spent ≡ false
  pub unswept : r.is_swept ≡ false
  pub rolled : r.is_unrolled ≡ false
  pub created_at : r.created_at ≡ some created
  pub expires_at : r.expires_at ≡ some (pos expires)
  pub lifetime : int_ltb created (pos expires) ≡ true
  pub outlives : now + margin < expires
  pub fits : now + margin < 2 ^ 63

check_lifetime_lem :
    (created expires : ℤ) (now margin : ℕ)
    → (check_lifetime (some created) (some expires) (pos now) (pos margin) ≡ ok tt) ↔ (
        (e : ℕ) × (expires ≡ pos e)
        × (int_ltb created (pos e) ≡ true)
        × (now + margin < e)
        × (now + margin < 2 ^ 63))
unfolding check_lifetime
check_lifetime_lem created (pos e) now margin =
    ((λ h. (e, refl, ground arith, ground arith, ground arith)), (λ h. ground arith))
check_lifetime_lem created (negsuc e) now margin =
    ((λ h. absurd (ground arith)), (λ h. ground arith))

-- From the Unix epoch on and for a margin that is not negative, `ensure_live` accepts exactly the
-- live records that outlive the margin.
pub ensure_live-IsLive :
    (r : VtxoRecord) (now margin : ℕ)
    → (ensure_live r (pos now) (pos margin) ≡ ok tt) ↔ IsLive r now margin
unfolding ensure_live
ensure_live-IsLive r now margin = by_times r.created_at r.expires_at refl refl
  where
    by_times :
        (created expires : Option ℤ)
        → r.created_at ≡ created
        → r.expires_at ≡ expires
        → (ensure_live r (pos now) (pos margin) ≡ ok tt) ↔ IsLive r now margin
    by_times none expires c e = (
      (λ h. absurd (unfold check_lifetime in ground arith)),
      (λ l. absurd (ground (arith, l.created_at))),
    )
    by_times (some created) none c e = (
      (λ h. absurd (unfold check_lifetime in ground arith)),
      (λ l. absurd (ground (arith, l.expires_at))),
    )
    by_times (some created) (some expires) c e =
        let times = check_lifetime_lem created expires now margin in
        (
          (λ h.
              let (x, same, lifetime, outlives, fits) = times.0 (ground arith) in
              record {
                created = created;
                expires = x;
                unspent = ground arith;
                unswept = ground arith;
                rolled = ground arith;
                created_at = c;
                expires_at = ground arith;
                lifetime = lifetime;
                outlives = outlives;
                fits = fits;
              }),
          (λ l.
              let accepted : check_lifetime (some created) (some expires) (pos now) (pos margin)
                  ≡ ok tt =
                times.1 (
                  l.expires,
                  ground (arith, l.expires_at),
                  ground (arith, l.created_at, l.lifetime),
                  l.outlives,
                  l.fits,
                ) in
              ground (arith, l.unspent, l.unswept, l.rolled)),
        )
