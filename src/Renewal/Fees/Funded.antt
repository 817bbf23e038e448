-- ===== src/Renewal/Fees/Funded.antt =====
-- A renewal of src/renewal.rs that a wallet's input pays for, from the estimate to the funded intent.
use woodland_sh.Base.{
  ℕ, Bool, true, false, none, some, List, [], ◌∷◌, ◌==◌, nat_eq, list_eq, list_beq_iff, Result, ok,
  err, >>=-eq-ok, reject-eq-ok, Ensures-ok, Option, ◌≡◌, refl, subst, All, arith,
}
use woodland_sh.Base.Int.{ℤ}
use woodland_sh.AssetPacket.Cursor.{AssetId}
use woodland_sh.Indexer.{
  IndexError, outpoint_eq, outpoint_beq_iff, VtxoRecord, TxOutput, ensure_live, check_lifetime,
  validate_creating_transaction,
}
use woodland_sh.Renewal.Fees.{
  duplicate_input, RenewalOutput, offchain, Estimator, RenewalIntent, Funding, in_index, change_of,
  output_txout, output_txouts, fee_inputs, earlier, validate_fee_funding, estimate_sponsored_fee,
  add_fee_funding,
}
use woodland_sh.Renewal.Fees.Covered.{
  IsWithinFee, IsFunded, change_of_lem, estimate_sponsored_fee-IsCovered,
}

in_index-eq-ok : (m : Result IndexError (Unit {0})) → in_index m ≡ ok tt → m ≡ ok tt
in_index-eq-ok (ok tt) h = refl
in_index-eq-ok (err e) h = cc

check_lifetime-expires :
    (created expires : Option ℤ) (now_unix margin : ℤ)
    → check_lifetime created expires now_unix margin ≡ ok tt
    → (e : ℤ) × (expires ≡ some e)
unfolding check_lifetime
check_lifetime-expires none expires now_unix margin h = cc
check_lifetime-expires (some c) none now_unix margin h = cc
check_lifetime-expires (some c) (some e) now_unix margin h = (e, refl)

ensure_live-expires :
    (r : VtxoRecord) (now_unix margin : ℤ)
    → ensure_live r now_unix margin ≡ ok tt
    → (e : ℤ) × (r.expires_at ≡ some e)
unfolding ensure_live
ensure_live-expires r now_unix margin h =
    check_lifetime-expires r.created_at r.expires_at now_unix margin (ground arith)

module _ (id_leb : AssetId → AssetId → Bool) (now_unix : ℤ) (funding : Funding) (margin : ℤ) where
  validate_fee_funding-IsWallet :
      validate_fee_funding id_leb now_unix funding margin ≡ ok tt
      → ((e : ℤ) × (funding.vtxo_record.expires_at ≡ some e))
        × (funding.vtxo_record.script ≡ funding.script_pubkey)
  unfolding validate_fee_funding
  validate_fee_funding-IsWallet h =
      let created =
        >>=-eq-ok
          (in_index (
            validate_creating_transaction id_leb funding.vtxo_record funding.previous_tx
              funding.previous_outputs))
          _ h in
      let live =
        >>=-eq-ok (in_index (ensure_live funding.vtxo_record now_unix margin)) _ created.2 in
      (
        ensure_live-expires funding.vtxo_record now_unix margin (in_index-eq-ok _ live.1),
        ground (arith, list_beq_iff funding.vtxo_record.script funding.script_pubkey, live.2),
      )

  estimate_sponsored_fee-validated :
      (intent : RenewalIntent) (estimators : List Estimator) (minimum fee : ℕ)
      → estimate_sponsored_fee id_leb now_unix intent funding estimators minimum margin ≡ ok fee
      → (validate_fee_funding id_leb now_unix funding margin ≡ ok tt)
        × ((funding.vtxo_record.outpoint == intent.outpoint) ≡ false)
  unfolding estimate_sponsored_fee
  estimate_sponsored_fee-validated intent estimators minimum fee h =
      let valid = >>=-eq-ok (validate_fee_funding id_leb now_unix funding margin) _ h in
      (valid.1, (reject-eq-ok _ duplicate_input _ valid.2).0)

  abbrev change_output : ℕ → TxOutput
  change_output change_sats = record { script_pubkey = funding.script_pubkey; value = change_sats }

  abbrev funded_intent : RenewalIntent → RenewalOutput → RenewalOutput → ℕ → ℤ → RenewalIntent
  funded_intent intent first last change_sats expires = record intent {
    outputs = first ∷ offchain (change_output change_sats) ∷ last ∷ [];
    input_expires_at = earlier intent.input_expires_at expires;
    funding = some funding.vtxo_record.outpoint;
  }

  add_fee_funding_lem :
      (intent : RenewalIntent) (minimum fee change_sats : ℕ) (first last : RenewalOutput)
      (expires : ℤ)
      → intent.outputs ≡ first ∷ last ∷ []
      → funding.has_spend_info ≡ true
      → validate_fee_funding id_leb now_unix funding margin ≡ ok tt
      → (funding.vtxo_record.outpoint == intent.outpoint) ≡ false
      → change_of funding.vtxo_record.amount_sats fee minimum ≡ some change_sats
      → funding.vtxo_record.expires_at ≡ some expires
      → add_fee_funding id_leb now_unix intent funding fee minimum margin
        ≡ ok (funded_intent intent first last change_sats expires)
  unfolding add_fee_funding
  add_fee_funding_lem intent minimum fee change_sats first last expires o spend v d c x =
      rw (v, d, c, spend, o, x) refl

  -- Where an intent has a state output and an extension output, both off chain, the wallet's VTXO can be
  -- spent and a fee has been estimated, the funding with that fee is accepted at the same moment. In the
  -- funded intent the fee and the change, which is at least the minimum, are the VTXO's sats, the VTXO is
  -- another input than the state's, and no fee program asks more than the fee for its outputs.
  pub add_fee_funding-IsFunded :
      (intent : RenewalIntent) (estimators : List Estimator) (minimum fee : ℕ)
      (state extension : TxOutput) (first last : RenewalOutput)
      → output_txout first ≡ ok state
      → output_txout last ≡ ok extension
      → intent.outputs ≡ first ∷ last ∷ []
      → funding.has_spend_info ≡ true
      → estimate_sponsored_fee id_leb now_unix intent funding estimators minimum margin ≡ ok fee
      → (funded : RenewalIntent) × (add_fee_funding id_leb now_unix intent funding fee minimum
            margin
          ≡ ok funded)
        × IsFunded id_leb now_unix intent funding estimators minimum margin fee funded
  unfolding output_txouts
  add_fee_funding-IsFunded intent estimators minimum fee state extension first last s e o spend h =
      let valid = estimate_sponsored_fee-validated intent estimators minimum fee h in
      let wallet = validate_fee_funding-IsWallet valid.0 in
      let c =
        Ensures-ok _ fee
          (estimate_sponsored_fee-IsCovered id_leb now_unix intent funding estimators minimum margin
            state extension first last s e o)
          h in
      let paid = change_of_lem funding.vtxo_record.amount_sats fee minimum c.change_sats c.change in
      (
        funded_intent intent first last c.change_sats wallet.0.0,
        add_fee_funding_lem intent minimum fee c.change_sats first last wallet.0.0 o spend valid.0
            valid.1 c.change wallet.0.1,
        record {
          outputs = state ∷ change_output c.change_sats ∷ extension ∷ [];
          has_outputs = rw (s, e) refl;
          change_sats = c.change_sats;
          pays = paid.0;
          keeps = paid.1;
          covered =
              subst
                (λ script.
                  All
                    (IsWithinFee (fee_inputs id_leb now_unix intent funding.vtxo_record)
                      (state
                        ∷ record { script_pubkey = script; value = c.change_sats }
                        ∷ extension
                        ∷ [])
                      fee)
                    estimators)
                wallet.1 c.covered;
          is_funding = refl;
          is_other_input =
              ground
                (arith, valid.1, outpoint_beq_iff funding.vtxo_record.outpoint intent.outpoint);
        },
      )
