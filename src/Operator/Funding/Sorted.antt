-- ===== src/Operator/Funding/Sorted.antt =====
-- The sort of the funding selection of src/operator.rs.
use mathlib.Core.List.Perm
use mathlib.Core.List.{Perm}
use woodland_sh.Base.{
  ℕ, ◌+◌, Bool, true, false, List, [], ◌∷◌, All, All-imp, Bool-cases, inl, inr, ◌≡◌, refl, arith,
}
use woodland_sh.Indexer.{OutPoint, VtxoRecord}
use woodland_sh.Operator.Funding.{insert_record, sort_records}

abbrev pub total_sats : List VtxoRecord → ℕ
total_sats [] = 0
total_sats (r ∷ rest) = r.amount_sats + total_sats rest

module _ (outpoint_leb : OutPoint → OutPoint → Bool) where
  total_sats-insert_record :
      (r : VtxoRecord) (xs : List VtxoRecord)
      → total_sats (insert_record outpoint_leb r xs) ≡ r.amount_sats + total_sats xs
  total_sats-insert_record r [] = refl
  total_sats-insert_record r (x ∷ rest) = elim (Bool-cases (outpoint_leb r.outpoint x.outpoint)) [
    | inl first ↦ rw first refl
    | inr later ↦ rw later (omega (arith, total_sats-insert_record r rest))
  ]

  pub total_sats-sort_records :
      (xs : List VtxoRecord) → total_sats (sort_records outpoint_leb xs) ≡ total_sats xs
  total_sats-sort_records [] = refl
  total_sats-sort_records (x ∷ rest) = omega (
    arith,
    total_sats-insert_record x (sort_records outpoint_leb rest),
    total_sats-sort_records rest,
  )

  module _ (P : VtxoRecord → Type 0) where
    All-insert_record :
        (r : VtxoRecord) (xs : List VtxoRecord)
        → P r
        → All P xs
        → All P (insert_record outpoint_leb r xs)
    All-insert_record r [] p ps = (p, tt)
    All-insert_record r (x ∷ rest) p ps = elim (Bool-cases (outpoint_leb r.outpoint x.outpoint)) [
      | inl first ↦ rw first (p, ps)
      | inr later ↦ rw later (ps.0, All-insert_record r rest p ps.1)
    ]

    pub All-sort_records : (xs : List VtxoRecord) → All P xs → All P (sort_records outpoint_leb xs)
    All-sort_records [] ps = tt
    All-sort_records (x ∷ rest) ps =
        All-insert_record x (sort_records outpoint_leb rest) ps.0 (All-sort_records rest ps.1)

  insert_record-Perm :
      (r : VtxoRecord) (xs : List VtxoRecord) → Perm (insert_record outpoint_leb r xs) (r ∷ xs)
  insert_record-Perm r [] = Perm.refl (r ∷ [])
  insert_record-Perm r (x ∷ rest) = elim (Bool-cases (outpoint_leb r.outpoint x.outpoint)) [
    | inl first ↦ rw first (Perm.refl (r ∷ x ∷ rest))
    | inr later ↦
        rw later (Perm.trans (Perm.cons x (insert_record-Perm r rest)) (Perm.swap r x rest))
  ]

  pub sort_records-Perm : (xs : List VtxoRecord) → Perm (sort_records outpoint_leb xs) xs
  sort_records-Perm [] = Perm.refl []
  sort_records-Perm (x ∷ rest) =
      Perm.trans (insert_record-Perm x (sort_records outpoint_leb rest))
        (Perm.cons x (sort_records-Perm rest))

  -- The records stand in the order of their outpoints.
  abbrev pub InOrder : List VtxoRecord → Type 0
  InOrder [] = Unit
  InOrder (r ∷ rest) =
      All (λ later. outpoint_leb r.outpoint later.outpoint ≡ true) rest × InOrder rest

  abbrev pub IsTotal : Type 0
  IsTotal = (a b : OutPoint) → outpoint_leb a b ≡ false → outpoint_leb b a ≡ true

  abbrev pub IsTransitive : Type 0
  IsTransitive =
      (a b c : OutPoint)
      → outpoint_leb a b ≡ true
      → outpoint_leb b c ≡ true
      → outpoint_leb a c ≡ true

  insert_record-InOrder :
      (total : IsTotal) (trans : IsTransitive) (r : VtxoRecord) (xs : List VtxoRecord)
      → InOrder xs
      → InOrder (insert_record outpoint_leb r xs)
  insert_record-InOrder total trans r [] h = (tt, tt)
  insert_record-InOrder total trans r (x ∷ rest) h =
      elim (Bool-cases (outpoint_leb r.outpoint x.outpoint)) [
        | inl first ↦ rw first (
          (
            first,
            All-imp (λ later. outpoint_leb x.outpoint later.outpoint ≡ true)
                (λ later. outpoint_leb r.outpoint later.outpoint ≡ true) rest
                (λ later k. trans r.outpoint x.outpoint later.outpoint first k) h.0,
          ),
          h,
        )
        | inr later ↦ rw later (
          All-insert_record (λ y. outpoint_leb x.outpoint y.outpoint ≡ true) r rest
              (total r.outpoint x.outpoint later) h.0,
          insert_record-InOrder total trans r rest h.1,
        )
      ]

  pub sort_records-InOrder :
      (total : IsTotal) (trans : IsTransitive) (xs : List VtxoRecord)
      → InOrder (sort_records outpoint_leb xs)
  sort_records-InOrder total trans [] = tt
  sort_records-InOrder total trans (x ∷ rest) =
      insert_record-InOrder total trans x (sort_records outpoint_leb rest)
        (sort_records-InOrder total trans rest)
