-- ===== src/Operator/Funding/Exact.antt =====
-- What the funding selection of src/operator.rs finds.
use mathlib.Core.List.{Perm}
use woodland_sh.Base.{
  ℕ, ◌+◌, ◌<◌, ◌^◌, Bool, true, length, ◌&&◌, Option, none, some, List, [], ◌∷◌, if◌then◌else◌,
  ◌==◌, nat_eq, All, Bool-cases, ◌⊎◌, inl, inr, ◌≡◌, ◌↔◌, ◌≢◌, refl, arith,
}
use woodland_sh.AssetPacket.{Asset}
use woodland_sh.Indexer.{OutPoint, VtxoRecord}
use woodland_sh.Operator.Funding.{
  is_clean, clean_records, add_balances, clean_funding_balance, find_exact, has_total, sort_records,
  select_funding,
}
use woodland_sh.Operator.Funding.Sorted.{
  total_sats, InOrder, IsTotal, IsTransitive, total_sats-sort_records, All-sort_records,
  sort_records-Perm, sort_records-InOrder,
}

-- The record is among these, and holds no asset.
abbrev pub IsCleanOf : List VtxoRecord → VtxoRecord → Type 0
IsCleanOf [] r = ⊥
IsCleanOf (x ∷ rest) r = ((r ≡ x) × (x.assets ≡ [])) ⊎ IsCleanOf rest r

is_clean_lem : (r : VtxoRecord) → (is_clean r ≡ true) ↔ (r.assets ≡ [])
is_clean_lem r = by_assets r.assets
  where
    by_assets : (assets : List Asset) → ((length assets == 0) ≡ true) ↔ (assets ≡ [])
    by_assets [] = ((λ e. refl), (λ e. refl))
    by_assets (a ∷ rest) = ((λ e. absurd (ground arith)), (λ e. cc))

-- Just the records without assets.
pub data IsClean : List VtxoRecord → List VtxoRecord → Type 0 where
  none_left : IsClean [] []
  takes :
      {r : VtxoRecord} {rest clean : List VtxoRecord}
      → r.assets ≡ []
      → IsClean rest clean
      → IsClean (r ∷ rest) (r ∷ clean)
  leaves :
      {r : VtxoRecord} {rest clean : List VtxoRecord}
      → r.assets ≢ []
      → IsClean rest clean
      → IsClean (r ∷ rest) clean

clean_records-IsClean : (records : List VtxoRecord) → IsClean records (clean_records records)
clean_records-IsClean [] = none_left
clean_records-IsClean (r ∷ rest) = elim (Bool-cases (is_clean r)) [
  | inl clean ↦ rw clean (takes ((is_clean_lem r).0 clean) (clean_records-IsClean rest))
  | inr other ↦
      rw other
        (leaves (λ e. ground (arith, (is_clean_lem r).1 e, other)) (clean_records-IsClean rest))
]

add_balances-has_total :
    (records : List VtxoRecord) (total amount : ℕ)
    → amount < 2 ^ 64
    → has_total (add_balances records total) amount ≡ ((total + total_sats records) == amount)
unfolding add_balances
add_balances-has_total [] total amount h = ground arith
add_balances-has_total (r ∷ rest) total amount h =
    ground (arith, add_balances-has_total rest (total + r.amount_sats) amount h)

add_balances-from_zero :
    (records : List VtxoRecord) (amount : ℕ)
    → amount < 2 ^ 64
    → has_total (add_balances records 0) amount ≡ (total_sats records == amount)
add_balances-from_zero records amount h = ground (arith, add_balances-has_total records 0 amount h)

clean_again :
    (records : List VtxoRecord)
    → All (λ r. is_clean r ≡ true) records
    → clean_records records ≡ records
clean_again [] h = refl
clean_again (r ∷ rest) h = rw (h.0, clean_again rest h.1) refl

clean_records-clean :
    (records : List VtxoRecord) → All (λ r. is_clean r ≡ true) (clean_records records)
clean_records-clean [] = tt
clean_records-clean (r ∷ rest) = elim (Bool-cases (is_clean r)) [
  | inl clean ↦ rw clean (clean, clean_records-clean rest)
  | inr other ↦ rw other (clean_records-clean rest)
]

-- No record without assets has the amount.
abbrev pub HasNone : List VtxoRecord → ℕ → Type 0
HasNone records amount = All (λ r. r.assets ≡ [] → r.amount_sats ≢ amount) records

-- An exact record, where one is found; otherwise there is none.
abbrev IsFound : List VtxoRecord → ℕ → Option VtxoRecord → Type 0
IsFound records amount (some r) = IsCleanOf records r × (r.amount_sats ≡ amount)
IsFound records amount none = HasNone records amount

IsFound-cons :
    (r : VtxoRecord) (rest : List VtxoRecord) (amount : ℕ) (found : Option VtxoRecord)
    → (r.assets ≡ [] → r.amount_sats ≢ amount)
    → IsFound rest amount found
    → IsFound (r ∷ rest) amount found
IsFound-cons r rest amount none h f = (h, f)
IsFound-cons r rest amount (some x) h f = (inr f.0, f.1)

find_exact-IsFound :
    (records : List VtxoRecord) (amount : ℕ) → IsFound records amount (find_exact records amount)
find_exact-IsFound [] amount = tt
find_exact-IsFound (r ∷ rest) amount = elim (Bool-cases ((r.amount_sats == amount) && is_clean r)) [
  | inl here ↦ rw here (inl (refl, (is_clean_lem r).0 (ground arith)), ground arith)
  | inr past ↦ rw past (
      IsFound-cons r rest amount (find_exact rest amount)
        (λ clean. ground (arith, (is_clean_lem r).1 clean)) (find_exact-IsFound rest amount))
]

module _ (outpoint_leb : OutPoint → OutPoint → Bool) where
  -- One record of the list has the amount, and holds no asset.
  pub record IsSingle (records : List VtxoRecord) (amount : ℕ) (funding : List VtxoRecord)
      : Type 0 where
    pub single : VtxoRecord
    pub alone : funding ≡ single ∷ []
    pub among : IsCleanOf records single
    pub exact : single.amount_sats ≡ amount

  -- No such record has the amount, and all of them together do.
  pub record IsWhole (records : List VtxoRecord) (amount : ℕ) (funding : List VtxoRecord)
      : Type 0 where
    pub clean : List VtxoRecord
    pub is_clean : IsClean records clean
    pub no_single : HasNone records amount
    pub all_of : Perm funding clean
    pub sorted : InOrder outpoint_leb funding
    pub total : total_sats clean ≡ amount

  -- What a selection is; and where there is none, no record without assets has the amount, nor do all.
  abbrev pub IsSelection : List VtxoRecord → ℕ → Option (List VtxoRecord) → Type 0
  IsSelection records amount (some funding) =
      IsSingle records amount funding ⊎ IsWhole records amount funding
  IsSelection records amount none =
      (clean : List VtxoRecord) × IsClean records clean
      × HasNone records amount
      × (total_sats clean ≢ amount)

  clean_funding_balance-sort_records :
      (records : List VtxoRecord) (amount : ℕ)
      → amount < 2 ^ 64
      → has_total (clean_funding_balance (sort_records outpoint_leb (clean_records records))) amount
        ≡ (total_sats (clean_records records) == amount)
  unfolding clean_funding_balance
  clean_funding_balance-sort_records records amount h =
      rw
        (
          clean_again (sort_records outpoint_leb (clean_records records)) (
              All-sort_records outpoint_leb (λ r. is_clean r ≡ true) (clean_records records)
                (clean_records-clean records)),
          ← total_sats-sort_records outpoint_leb (clean_records records),
        )
        (add_balances-from_zero (sort_records outpoint_leb (clean_records records)) amount h)

  -- Where the order of outpoints is total and transitive, and for an amount in 64 bits, what is selected is one
  -- record without assets that has the amount; or, where there is no such record, all the records without
  -- assets, in the order of their outpoints, if they add up to the amount. Otherwise nothing is selected.
  pub select_funding-IsSelection :
      (is_total : IsTotal outpoint_leb) (trans : IsTransitive outpoint_leb)
      (records : List VtxoRecord) (amount : ℕ)
      → amount < 2 ^ 64
      → IsSelection records amount (select_funding outpoint_leb records amount)
  unfolding select_funding
  select_funding-IsSelection is_total trans records amount h =
      by_found (find_exact records amount) (find_exact-IsFound records amount)
    where
      by_found :
          (found : Option VtxoRecord)
          → IsFound records amount found
          → IsSelection records amount (elim found [
            | some r ↦ some (r ∷ [])
            | none ↦
                if has_total
                  (clean_funding_balance (sort_records outpoint_leb (clean_records records)))
                  amount
                then some (sort_records outpoint_leb (clean_records records))
                else none
          ])
      by_found (some r) f = inl (record { single = r; alone = refl; among = f.0; exact = f.1 })
      by_found none f =
          rw (clean_funding_balance-sort_records records amount h)
            (elim (Bool-cases (total_sats (clean_records records) == amount)) [
              | inl same ↦ rw same (
                  inr (record {
                    clean = clean_records records;
                    is_clean = clean_records-IsClean records;
                    no_single = f;
                    all_of = sort_records-Perm outpoint_leb (clean_records records);
                    sorted =
                        sort_records-InOrder outpoint_leb is_total trans (clean_records records);
                    total = ground (arith, same);
                  }))
              | inr other ↦
                  rw other
                    (clean_records records, clean_records-IsClean records, f, ground (arith, other))
            ])
