-- ===== src/Renewal/Fees.antt =====
-- The fees of a renewal in src/renewal.rs: what the service's fee programs ask, and the wallet input that
-- pays. The programs are `ark_fees`' (vendored), each a function of the inputs and outputs; the kinds and
-- weights that they are given do not vary. A VTXO's spend info is `ark_core`'s: whether there is one.
pub mod Covered
mod Examples
pub mod Funded
use woodland_sh.Base.{
  ℕ, zero, suc, ◌-◌, max, Bool, true, false, not, ◌||◌, Option, none, some, List, [], ◌∷◌, leb,
  if◌then◌else◌, length, ◌==◌, Eq, nat_eq, list_eq, Result, ok, err, ◌>>=◌, ◌>>◌, reject, ok_or,
}
use woodland_sh.Base.Int.{ℤ, int_ltb}
use woodland_sh.Base.Words.{checked_sub}
use woodland_sh.AssetPacket.Cursor.{AssetId}
use woodland_sh.AssetPacket.{Transaction}
use woodland_sh.Indexer.{
  IndexError, OutPoint, outpoint_eq, VtxoRecord, TxOutput, validate_creating_transaction,
  ensure_live,
}

pub data FeeError : Type 0 where
  in_record : IndexError → FeeError
  onchain_output program_failed not_a_wallet_vtxo duplicate_input : FeeError
  no_state_output no_extension_output small_change did_not_converge no_spend_info : FeeError
  missing_expiry index_panic : FeeError

pub data RenewalOutput : Type 0 where
  offchain asset_packet onchain : TxOutput → RenewalOutput

pub record FeeInput : Type 0 where
  pub amount : ℕ
  pub expiry : Option ℤ
  pub birth : Option ℤ

abbrev pub Estimator : Type 0
Estimator = List FeeInput → List TxOutput → Option ℕ

-- The input, the outputs and the funding of a `RenewalIntent`.
pub record RenewalIntent : Type 0 where
  pub outpoint : OutPoint
  pub amount_sats : ℕ
  pub input_created_at : ℤ
  pub input_expires_at : ℤ
  pub outputs : List RenewalOutput
  pub funding : Option OutPoint

-- The wallet's record, the outputs of the transaction that created it, and the wallet's script.
pub record Funding : Type 0 where
  pub vtxo_record : VtxoRecord
  pub previous_tx : Transaction
  pub previous_outputs : List TxOutput
  pub script_pubkey : List ℕ
  pub has_spend_info : Bool

abbrev pub in_index : Result IndexError (Unit {0}) → Result FeeError (Unit {0})
in_index (ok u) = ok u
in_index (err e) = err (in_record e)

abbrev pub output_txout : RenewalOutput → Result FeeError TxOutput
output_txout (offchain output) = ok output
output_txout (asset_packet output) = ok output
output_txout (onchain output) = err onchain_output

unfoldable pub output_txouts : List RenewalOutput → Result FeeError (List TxOutput)
output_txouts [] = ok []
output_txouts (output ∷ rest) = do
  first ← output_txout output
  others ← output_txouts rest
  ok (first ∷ others)

abbrev pub last_or : RenewalOutput → List RenewalOutput → RenewalOutput
last_or d [] = d
last_or d (x ∷ rest) = last_or x rest

abbrev pub last_output : List RenewalOutput → Option RenewalOutput
last_output [] = none
last_output (x ∷ rest) = some (last_or x rest)

abbrev pub first_output : List RenewalOutput → Option RenewalOutput
first_output [] = none
first_output (x ∷ rest) = some x

-- The largest fee that a program asks, or zero.
unfoldable pub required_fee : List Estimator → List FeeInput → List TxOutput → Result FeeError ℕ
required_fee [] inputs outputs = ok 0
required_fee (eval ∷ rest) inputs outputs = do
  fee ← ok_or (eval inputs outputs) program_failed
  others ← required_fee rest inputs outputs
  ok (max fee others)

abbrev pub state_input : RenewalIntent → FeeInput
state_input intent = record {
  amount = intent.amount_sats;
  expiry = some intent.input_expires_at;
  birth = some intent.input_created_at;
}

unfoldable pub estimate_base_fee : RenewalIntent → List Estimator → Result FeeError ℕ
unfolding output_txouts required_fee
estimate_base_fee intent estimators = do
  outputs ← output_txouts intent.outputs
  required_fee estimators (state_input intent ∷ []) outputs

-- `checked_sub(fee).filter(|change| *change >= minimum)`
abbrev pub change_of : ℕ → ℕ → ℕ → Option ℕ
change_of amount fee minimum =
    if leb fee amount
    then (if leb minimum (amount - fee) then some (amount - fee) else none)
    else none

abbrev pub earlier : ℤ → ℤ → ℤ
earlier a b = if int_ltb b a then b else a

module _ (id_leb : AssetId → AssetId → Bool) (now_unix : ℤ) where
  unfoldable pub validate_fee_funding : Funding → ℤ → Result FeeError (Unit {0})
  unfolding validate_creating_transaction ensure_live
  validate_fee_funding funding expiry_margin_secs = do
    in_index (
        validate_creating_transaction id_leb funding.vtxo_record funding.previous_tx
          funding.previous_outputs)
    in_index (ensure_live funding.vtxo_record now_unix expiry_margin_secs)
    reject
        (not (length funding.vtxo_record.assets == 0)
          || ((funding.vtxo_record.amount_sats == 0)
              || not (funding.vtxo_record.script == funding.script_pubkey)))
        not_a_wallet_vtxo

  module _ (estimators : List Estimator) (inputs : List FeeInput)
      (state_output extension_output : TxOutput) (funding_record : VtxoRecord)
      (minimum_change_sats : ℕ) where
    abbrev pub funded_outputs : ℕ → List TxOutput
    funded_outputs change_sats =
        state_output
        ∷ record { script_pubkey = funding_record.script; value = change_sats }
        ∷ extension_output
        ∷ []

    -- The rounds that are left, and the fee paid so far.
    unfoldable pub fee_rounds : ℕ → ℕ → Result FeeError ℕ
    unfolding required_fee
    fee_rounds zero paid_fee = err did_not_converge
    fee_rounds (suc rounds) paid_fee = do
      change_sats ←
          ok_or (change_of funding_record.amount_sats paid_fee minimum_change_sats) small_change
      required ← required_fee estimators inputs (funded_outputs change_sats)
      elim (leb required paid_fee) [ true ↦ ok paid_fee | false ↦ fee_rounds rounds required ]

  abbrev pub fee_inputs : RenewalIntent → VtxoRecord → List FeeInput
  fee_inputs intent funding_record =
      state_input intent
      ∷ record {
        amount = funding_record.amount_sats;
        expiry = funding_record.expires_at;
        birth = funding_record.created_at;
      }
      ∷ []

  unfoldable pub estimate_sponsored_fee :
      RenewalIntent → Funding → List Estimator → ℕ → ℤ → Result FeeError ℕ
  unfolding validate_fee_funding fee_rounds
  estimate_sponsored_fee intent funding estimators minimum_change_sats expiry_margin_secs = do
    validate_fee_funding funding expiry_margin_secs
    reject (funding.vtxo_record.outpoint == intent.outpoint) duplicate_input
    first ← ok_or (first_output intent.outputs) no_state_output
    state_output ← output_txout first
    last ← ok_or (last_output intent.outputs) no_extension_output
    extension_output ← output_txout last
    fee_rounds estimators (fee_inputs intent funding.vtxo_record) state_output extension_output
        funding.vtxo_record minimum_change_sats 64 0

  -- `insert(1, …)`, which panics where there is no output.
  abbrev pub insert_change : List RenewalOutput → TxOutput → Result FeeError (List RenewalOutput)
  insert_change [] change = err index_panic
  insert_change (first ∷ rest) change = ok (first ∷ offchain change ∷ rest)

  unfoldable pub add_fee_funding :
      RenewalIntent → Funding → ℕ → ℕ → ℤ → Result FeeError RenewalIntent
  unfolding validate_fee_funding
  add_fee_funding intent funding fee_sats minimum_change_sats expiry_margin_secs = do
    validate_fee_funding funding expiry_margin_secs
    reject (funding.vtxo_record.outpoint == intent.outpoint) duplicate_input
    change_sats ←
        ok_or (change_of funding.vtxo_record.amount_sats fee_sats minimum_change_sats) small_change
    reject (not funding.has_spend_info) no_spend_info
    outputs ←
        insert_change intent.outputs
          (record { script_pubkey = funding.script_pubkey; value = change_sats })
    expires_at ← ok_or funding.vtxo_record.expires_at missing_expiry
    ok (record intent {
      outputs = outputs;
      input_expires_at = earlier intent.input_expires_at expires_at;
      funding = some funding.vtxo_record.outpoint;
    })
