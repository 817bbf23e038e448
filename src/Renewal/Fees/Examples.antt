-- ===== src/Renewal/Fees/Examples.antt =====
-- A renewal that a wallet's coin pays for.
use woodland_sh.Base.{◌*◌, Bool, true, false, some, none, List, [], ◌∷◌, length, ok, err, ◌≡◌, refl}
use woodland_sh.Base.Int.{pos}
use woodland_sh.AssetPacket.Cursor.{AssetId}
use woodland_sh.AssetPacket.{output_assets, equal_asset_sets}
use woodland_sh.Indexer.{VtxoRecord, TxOutput}
use woodland_sh.Renewal.Fees.{
  offchain, asset_packet, Estimator, RenewalIntent, Funding, small_change, estimate_sponsored_fee,
  add_fee_funding, estimate_base_fee,
}
use woodland_sh.Renewal.Fees.Covered.{IsFunded}
use woodland_sh.Renewal.Fees.Funded.{add_fee_funding-IsFunded}

abbrev any_leb : AssetId → AssetId → Bool
any_leb a b = true

abbrev state : TxOutput
state = record { script_pubkey = 51 ∷ []; value = 330 }

abbrev extension : TxOutput
extension = record { script_pubkey = 106 ∷ []; value = 0 }

abbrev intent : RenewalIntent
intent = record {
  outpoint = record { txid = 9 ∷ []; vout = 0 };
  amount_sats = 330;
  input_created_at = pos 50;
  input_expires_at = pos 6000;
  outputs = offchain state ∷ asset_packet extension ∷ [];
  funding = none;
}

abbrev coin : VtxoRecord
coin = record {
  outpoint = record { txid = 1 ∷ []; vout = 0 };
  script = 81 ∷ [];
  amount_sats = 330;
  assets = [];
  created_at = some (pos 100);
  expires_at = some (pos 5000);
  is_swept = false;
  is_unrolled = false;
  is_spent = false;
}

abbrev wallet : Funding
wallet = record {
  vtxo_record = coin;
  previous_tx = record {
    txid = 1 ∷ [];
    inputs = 1;
    outputs = 1;
    find_packet_payload = λ kind. ok none;
  };
  previous_outputs = record { script_pubkey = 81 ∷ []; value = 330 } ∷ [];
  script_pubkey = 81 ∷ [];
  has_spend_info = true;
}

-- A fee for each output, and a fee for each input.
abbrev programs : List Estimator
programs =
    (λ inputs outputs. some (length outputs * 5))
    ∷ (λ inputs outputs. some (length inputs * 4))
    ∷ []

estimated : estimate_sponsored_fee any_leb (pos 1000) intent wallet programs 100 (pos 300) ≡ ok 15
unfolding estimate_sponsored_fee output_assets equal_asset_sets
estimated = refl

base_fee : estimate_base_fee intent programs ≡ ok 10
unfolding estimate_base_fee
base_fee = refl

-- A program that asks for more than the coin can pay and keep its change.
abbrev greedy : List Estimator
greedy = (λ inputs outputs. some 316) ∷ []

too_small :
    estimate_sponsored_fee any_leb (pos 1000) intent wallet greedy 100 (pos 300) ≡ err small_change
unfolding estimate_sponsored_fee output_assets equal_asset_sets
too_small = refl

add_fee_funding-IsFunded_example :
    (funded : RenewalIntent) × (add_fee_funding any_leb (pos 1000) intent wallet 15 100 (pos 300)
      ≡ ok funded)
    × IsFunded any_leb (pos 1000) intent wallet programs 100 (pos 300) 15 funded
add_fee_funding-IsFunded_example =
    add_fee_funding-IsFunded any_leb (pos 1000) wallet (pos 300) intent programs 100 15 state
      extension (offchain state) (asset_packet extension) refl refl refl refl estimated
