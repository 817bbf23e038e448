-- ===== src/Renewal/Fees/Covered.antt =====
-- What the fee of src/renewal.rs covers.
use woodland_sh.Base.{
  ℕ, zero, suc, ◌+◌, ◌≤◌, max, Bool, some, List, [], ◌∷◌, leb, ◌==◌, nat_eq, list_eq, ok, ok_or,
  ok_or-eq-ok, Ensures, returns, fails, Ensures-bind, Ensures-reject, ◌≢◌, Ensures-ok, ◌≡◌, All,
  All-imp, arith, Bool-cases, inl, inr,
}
use woodland_sh.Base.Int.{ℤ}
use woodland_sh.AssetPacket.Cursor.{AssetId}
use woodland_sh.Indexer.{outpoint_eq, VtxoRecord, TxOutput}
use woodland_sh.Renewal.Fees.{
  program_failed, duplicate_input, small_change, RenewalOutput, FeeInput, Estimator, RenewalIntent,
  Funding, output_txout, output_txouts, required_fee, change_of, validate_fee_funding, fee_rounds,
  fee_inputs, estimate_sponsored_fee,
}

-- The program asks at most this fee.
abbrev pub IsWithinFee : List FeeInput → List TxOutput → ℕ → Estimator → Type 0
IsWithinFee inputs outputs fee eval =
    (asked : ℕ) × (eval inputs outputs ≡ some asked) × (asked ≤ fee)

required_fee_lem :
    (estimators : List Estimator) (inputs : List FeeInput) (outputs : List TxOutput)
    → Ensures
        (λ fee. All (IsWithinFee inputs outputs fee) estimators)
        (required_fee estimators inputs outputs)
unfolding required_fee
required_fee_lem [] inputs outputs = returns tt
required_fee_lem (eval ∷ rest) inputs outputs =
    Ensures-bind (ok_or (eval inputs outputs) program_failed) _ (λ fee e.
      Ensures-bind (required_fee rest inputs outputs) _ (λ others o. returns (
        (fee, ok_or-eq-ok (eval inputs outputs) program_failed e, omega arith),
        All-imp (IsWithinFee inputs outputs others) (IsWithinFee inputs outputs (max fee others))
            rest (λ other w. (w.0, w.1, omega (arith, w.2)))
            (Ensures-ok _ others (required_fee_lem rest inputs outputs) o),
      )))

pub change_of_lem :
    (amount fee minimum change : ℕ)
    → change_of amount fee minimum ≡ some change
    → (change + fee ≡ amount) × (minimum ≤ change)
change_of_lem amount fee minimum change h = (ground arith, ground arith)

module _ (id_leb : AssetId → AssetId → Bool) (now_unix : ℤ) (estimators : List Estimator)
    (inputs : List FeeInput) (state_output extension_output : TxOutput)
    (funding_record : VtxoRecord) (minimum_change_sats : ℕ) where
  -- The fee leaves enough change of the wallet's input, and no program asks more for these outputs.
  pub record IsCovered (fee : ℕ) : Type 0 where
    pub change_sats : ℕ
    pub change : change_of funding_record.amount_sats fee minimum_change_sats ≡ some change_sats
    pub covered :
        All
          (IsWithinFee inputs
            (state_output
              ∷ record { script_pubkey = funding_record.script; value = change_sats }
              ∷ extension_output
              ∷ [])
            fee)
          estimators

  fee_rounds-IsCovered :
      (rounds paid_fee : ℕ)
      → Ensures IsCovered (
          fee_rounds id_leb now_unix estimators inputs state_output extension_output funding_record
            minimum_change_sats rounds paid_fee)
  unfolding fee_rounds
  fee_rounds-IsCovered zero paid_fee = fails
  fee_rounds-IsCovered (suc rounds) paid_fee =
      Ensures-bind
        (ok_or (change_of funding_record.amount_sats paid_fee minimum_change_sats) small_change) _
        (λ change_sats c. Ensures-bind (required_fee estimators inputs _) _ (λ required r.
          elim (Bool-cases (leb required paid_fee)) [
            | inl le ↦ rw le (
                returns (record {
                  change_sats = change_sats;
                  change =
                      ok_or-eq-ok
                        (change_of funding_record.amount_sats paid_fee minimum_change_sats)
                        small_change c;
                  covered =
                      All-imp (IsWithinFee inputs _ required) (IsWithinFee inputs _ paid_fee)
                        estimators (λ other w. (w.0, w.1, ground (arith, w.2, le)))
                        (Ensures-ok _ required (required_fee_lem estimators inputs _) r);
                }))
            | inr gt ↦ rw gt (fee_rounds-IsCovered rounds required)
          ]))

module _ (id_leb : AssetId → AssetId → Bool) (now_unix : ℤ) (intent : RenewalIntent)
    (funding : Funding) (estimators : List Estimator) (minimum : ℕ) (margin : ℤ) where
  -- The wallet's input pays the fee and keeps enough change, and no program asks more than the fee
  -- for the outputs that the funded intent has.
  pub record IsFunded (fee : ℕ) (funded : RenewalIntent) : Type 0 where
    pub outputs : List TxOutput
    pub has_outputs : output_txouts funded.outputs ≡ ok outputs
    pub change_sats : ℕ
    pub pays : change_sats + fee ≡ funding.vtxo_record.amount_sats
    pub keeps : minimum ≤ change_sats
    pub covered :
        All
          (IsWithinFee (fee_inputs id_leb now_unix intent funding.vtxo_record) outputs fee)
          estimators
    pub is_funding : funded.funding ≡ some funding.vtxo_record.outpoint
    pub is_other_input : funding.vtxo_record.outpoint ≢ intent.outpoint

  pub estimate_sponsored_fee-IsCovered :
      (state extension : TxOutput) (first last : RenewalOutput)
      → output_txout first ≡ ok state
      → output_txout last ≡ ok extension
      → intent.outputs ≡ first ∷ last ∷ []
      → Ensures
          (IsCovered id_leb now_unix estimators
            (fee_inputs id_leb now_unix intent funding.vtxo_record)
            state
            extension
            funding.vtxo_record
            minimum)
          (estimate_sponsored_fee id_leb now_unix intent funding estimators minimum margin)
  unfolding estimate_sponsored_fee
  estimate_sponsored_fee-IsCovered state extension first last s e o =
      Ensures-bind (validate_fee_funding id_leb now_unix funding margin) _ (λ _ v.
        Ensures-reject (funding.vtxo_record.outpoint == intent.outpoint) duplicate_input _ (λ d.
          rw (o, s, e)
            (fee_rounds-IsCovered id_leb now_unix estimators _ state extension funding.vtxo_record
              minimum 64 0)))
