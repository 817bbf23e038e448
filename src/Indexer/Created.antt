-- ===== src/Indexer/Created.antt =====
-- A record of src/arkade.rs against its creating transaction.
use woodland_sh.Base.{
  Bool, true, Option, none, some, List, get_elem?, list_eq, list_beq_iff, nat_eq, Result, ok, err,
  ◌≡◌, refl, arith,
}
use woodland_sh.AssetPacket.Cursor.{AssetId, PacketError}
use woodland_sh.AssetPacket.{Asset, Transaction, output_assets, equal_asset_sets}
use woodland_sh.AssetPacket.Strict.{Distinct, output_assets-IsStrict}
use woodland_sh.AssetPacket.Sets.{amount_of, equal_asset_sets-amount_of}
use woodland_sh.Indexer.{VtxoRecord, TxOutput, validate_creating_transaction}

-- The record is an output of the transaction, with the assets that the transaction's packet assigns to it.
pub record IsCreatedBy (id_leb : AssetId → AssetId → Bool) (r : VtxoRecord) (tx : Transaction)
    (outputs : List TxOutput) : Type 0 where
  pub output : TxOutput
  pub assigned : List Asset
  pub txid : tx.txid ≡ r.outpoint.txid
  pub output_at : get_elem? outputs r.outpoint.vout ≡ some output
  pub script : output.script_pubkey ≡ r.script
  pub value : output.value ≡ r.amount_sats
  pub decoded : output_assets id_leb tx r.outpoint.vout ≡ ok assigned
  pub amounts : (id : AssetId) → amount_of r.assets id ≡ amount_of assigned id

-- A record whose assets are of different IDs, and whose creating transaction is accepted, is an output
-- of that transaction: script and sats are the output's, and each asset's amount is the one that the
-- strict decoder assigns to the output.
pub validate_creating_transaction-IsCreatedBy :
    (id_leb : AssetId → AssetId → Bool) (r : VtxoRecord) (tx : Transaction)
    (outputs : List TxOutput)
    → Distinct r.assets
    → validate_creating_transaction id_leb r tx outputs ≡ ok tt
    → IsCreatedBy id_leb r tx outputs
unfolding validate_creating_transaction
validate_creating_transaction-IsCreatedBy id_leb r tx outputs distinct h =
    by_parts (get_elem? outputs r.outpoint.vout) (output_assets id_leb tx r.outpoint.vout) refl refl
  where
    by_parts :
        (at : Option TxOutput) (decoded : Result PacketError (List Asset))
        → get_elem? outputs r.outpoint.vout ≡ at
        → output_assets id_leb tx r.outpoint.vout ≡ decoded
        → IsCreatedBy id_leb r tx outputs
    by_parts none decoded a d = absurd (ground arith)
    by_parts (some output) (err e) a d = absurd (ground arith)
    by_parts (some output) (ok assigned) a d =
        let sets : equal_asset_sets r.assets assigned ≡ true = ground arith in
        record {
          output = output;
          assigned = assigned;
          txid = ground (arith, list_beq_iff tx.txid r.outpoint.txid);
          output_at = a;
          script = ground (arith, list_beq_iff output.script_pubkey r.script);
          value = ground arith;
          decoded = d;
          amounts =
              (equal_asset_sets-amount_of r.assets assigned distinct
                  (output_assets-IsStrict id_leb tx r.outpoint.vout assigned d).distinct).0
                sets;
        }
