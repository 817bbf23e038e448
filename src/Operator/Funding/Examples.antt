-- ===== src/Operator/Funding/Examples.antt =====
-- A deployer's wallet.
use woodland_sh.Base.{ℕ, Bool, true, false, ltb, none, some, List, [], ◌∷◌, ok, ◌≡◌, refl, arith}
use woodland_sh.Base.Int.{pos}
use woodland_sh.Indexer.{OutPoint, VtxoRecord}
use woodland_sh.Operator.Funding.{clean_funding_balance, select_funding}
use woodland_sh.Operator.Funding.Sorted.{IsTotal, IsTransitive}
use woodland_sh.Operator.Funding.Exact.{IsSelection, select_funding-IsSelection}

abbrev by_vout : OutPoint → OutPoint → Bool
by_vout a b = elim (ltb b.vout a.vout) [ true ↦ false | false ↦ true ]

abbrev coin : ℕ → ℕ → VtxoRecord
coin vout sats = record {
  outpoint = record { txid = 1 ∷ []; vout = vout };
  script = 81 ∷ [];
  amount_sats = sats;
  assets = [];
  created_at = some (pos 100);
  expires_at = some (pos 5000);
  is_swept = false;
  is_unrolled = false;
  is_spent = false;
}

abbrev wallet : List VtxoRecord
wallet = coin 1 400 ∷ coin 0 330 ∷ []

balance : clean_funding_balance wallet ≡ ok 730
unfolding clean_funding_balance
balance = refl

one_record : select_funding by_vout wallet 330 ≡ some (coin 0 330 ∷ [])
unfolding select_funding
one_record = refl

all_records : select_funding by_vout wallet 730 ≡ some (coin 0 330 ∷ coin 1 400 ∷ [])
unfolding select_funding
all_records = refl

too_little : select_funding by_vout wallet 731 ≡ none
unfolding select_funding
too_little = refl

by_vout-IsTotal : IsTotal by_vout
by_vout-IsTotal a b h = ground arith

by_vout-IsTransitive : IsTransitive by_vout
by_vout-IsTransitive a b c h k = ground arith

select_funding-IsSelection_example :
    IsSelection by_vout wallet 730 (select_funding by_vout wallet 730)
select_funding-IsSelection_example =
    select_funding-IsSelection by_vout by_vout-IsTotal by_vout-IsTransitive wallet 730 (omega arith)
