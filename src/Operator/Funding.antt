-- ===== src/Operator/Funding.antt =====
-- The deployer's funding in src/operator.rs: the records of its wallet that make up an amount.
pub mod Sorted
pub mod Exact
mod Examples
use woodland_sh.Base.{
  ℕ, zero, Bool, true, false, ◌&&◌, Option, none, some, List, [], ◌∷◌, if◌then◌else◌, length, ◌==◌,
  Eq, nat_eq, Result, ok, err, ◌>>=◌, ok_or,
}
use woodland_sh.Base.Words.{checked_add}
use woodland_sh.Indexer.{OutPoint, VtxoRecord}

pub data FundingError : Type 0 where
  balance_overflow : FundingError

abbrev pub is_clean : VtxoRecord → Bool
is_clean r = length r.assets == 0

abbrev pub clean_records : List VtxoRecord → List VtxoRecord
clean_records [] = []
clean_records (r ∷ rest) = if is_clean r then r ∷ clean_records rest else clean_records rest

-- The records that are left, and the total so far.
unfoldable pub add_balances : List VtxoRecord → ℕ → Result FundingError ℕ
add_balances [] total = ok total
add_balances (r ∷ rest) total = do
  sum ← ok_or (checked_add total r.amount_sats) balance_overflow
  add_balances rest sum

unfoldable pub clean_funding_balance : List VtxoRecord → Result FundingError ℕ
unfolding add_balances
clean_funding_balance records = add_balances (clean_records records) 0

abbrev pub find_exact : List VtxoRecord → ℕ → Option VtxoRecord
find_exact [] amount = none
find_exact (r ∷ rest) amount =
    if (r.amount_sats == amount) && is_clean r then some r else find_exact rest amount

abbrev pub has_total : Result FundingError ℕ → ℕ → Bool
has_total (ok total) amount = total == amount
has_total (err e) amount = false

-- Over the order of outpoints, by transaction ID and index.
module _ (outpoint_leb : OutPoint → OutPoint → Bool) where
  abbrev pub insert_record : VtxoRecord → List VtxoRecord → List VtxoRecord
  insert_record r [] = r ∷ []
  insert_record r (x ∷ rest) =
      if outpoint_leb r.outpoint x.outpoint then r ∷ x ∷ rest else x ∷ insert_record r rest

  -- A stable sort.
  abbrev pub sort_records : List VtxoRecord → List VtxoRecord
  sort_records [] = []
  sort_records (r ∷ rest) = insert_record r (sort_records rest)

  unfoldable pub select_funding : List VtxoRecord → ℕ → Option (List VtxoRecord)
  unfolding clean_funding_balance
  select_funding records amount =
      let funding = sort_records (clean_records records) in
      elim (find_exact records amount) [
        | some r ↦ some (r ∷ [])
        | none ↦ if has_total (clean_funding_balance funding) amount then some funding else none
      ]
