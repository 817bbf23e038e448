-- ===== src/Indexer/Examples.antt =====
-- An indexer with two pages.
use woodland_sh.Base.{
  ℕ, ◌≤◌, ◌≡◌, ◌≢◌, ◌↔◌, refl, true, false, Option, none, some, List, [], ◌∷◌, length, ok, err,
  if◌then◌else◌,
}
use woodland_sh.Base.Int.{ℤ, pos, int_beq}
use woodland_sh.AssetPacket.{Transaction, output_assets, equal_asset_sets}
use woodland_sh.Indexer.Created.{IsCreatedBy, validate_creating_transaction-IsCreatedBy}
use woodland_sh.Indexer.{
  TxOutput, validate_creating_transaction, VtxoRecord, VtxoPage, ensure_live, get_vtxos_many,
  out_of_fuel, max_index_records,
}
use woodland_sh.Indexer.Live.{IsLive, ensure_live-IsLive}
use woodland_sh.Indexer.Pages.{IsOnce, get_vtxos_many_lem}

abbrev coin : ℕ → VtxoRecord
coin vout = record {
  outpoint = record { txid = 1 ∷ []; vout = vout };
  script = 81 ∷ [];
  amount_sats = 330;
  assets = [];
  created_at = some (pos 100);
  expires_at = some (pos 5000);
  is_swept = false;
  is_unrolled = false;
  is_spent = false;
}

abbrev two_pages : ℤ → Option VtxoPage
two_pages index =
    if int_beq index (pos 1)
    then some
        (record { vtxos = coin 0 ∷ coin 1 ∷ []; current = pos 1; next = pos 2; total = pos 2 })
    else some
        (record { vtxos = coin 1 ∷ coin 2 ∷ []; current = pos 2; next = pos 2; total = pos 2 })

ensure_live-IsLive_example :
    (ensure_live (coin 0) (pos 1000) (pos 300) ≡ ok tt) ↔ IsLive (coin 0) 1000 300
ensure_live-IsLive_example = ensure_live-IsLive (coin 0) 1000 300

get_vtxos_many_example :
    (get_vtxos_many two_pages ≢ err out_of_fuel)
    × ((all : List VtxoRecord)
        → get_vtxos_many two_pages ≡ ok all
        → IsOnce all × (length all ≤ max_index_records))
get_vtxos_many_example = get_vtxos_many_lem two_pages

two_pages_read : get_vtxos_many two_pages ≡ ok (coin 0 ∷ coin 1 ∷ coin 2 ∷ [])
unfolding get_vtxos_many
two_pages_read = refl

-- A transaction without an asset packet, which assigns nothing.
abbrev plain : Transaction
plain = record { txid = 1 ∷ []; inputs = 1; outputs = 1; find_packet_payload = λ kind. ok none }

abbrev plain_outputs : List TxOutput
plain_outputs = record { script_pubkey = 81 ∷ []; value = 330 } ∷ []

plain_accepted : validate_creating_transaction (λ a b. true) (coin 0) plain plain_outputs ≡ ok tt
unfolding validate_creating_transaction output_assets equal_asset_sets
plain_accepted = refl

validate_creating_transaction-IsCreatedBy_example :
    IsCreatedBy (λ a b. true) (coin 0) plain plain_outputs
validate_creating_transaction-IsCreatedBy_example =
    validate_creating_transaction-IsCreatedBy (λ a b. true) (coin 0) plain plain_outputs tt
      plain_accepted
