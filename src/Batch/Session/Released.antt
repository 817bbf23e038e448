-- ===== src/Batch/Session/Released.antt =====
-- The handlers of `join_registered_batch` of src/batch.rs that sign and release, and the loop, keep the
-- session sound.
use woodland_sh.Base.{
  true, not, none, some, List, [], ◌∷◌, map, length, ◌==◌, nat_eq, list_eq, string_eq, String, ok,
  ◌∙◌, ◌≡◌, refl, sym, subst, ap, arith,
}
use woodland_sh.Base.Int.{ℤ}
use woodland_sh.Base.Dict.{Dict, get}
use woodland_sh.Batch.Graph.{Txid, Chunk, is_some}
use woodland_sh.Batch.Trees.{validate_connector_tree}
use woodland_sh.Batch.Trees.Connector.{validate_connector_tree_lem}
use woodland_sh.Batch.Signatures.{Psbt, verify_vtxo_tree_signatures}
use woodland_sh.Batch.Forfeits.{tx_eq, tx_beq_iff, combine_forfeits}
use woodland_sh.Batch.Progress.{
  matches_batch, accepts_nonces, mark_tree_signatures_submitted, accepts_finalization,
  mark_finalization_submitted, finalize,
}
use woodland_sh.Batch.Progress.Steps.{
  mark_tree_signatures_submitted-step, mark_finalization_submitted-step, finalize-expected,
}
use woodland_sh.Batch.Session.{
  in_progress, in_tree, in_signatures, in_forfeits, no_graph, unknown_transaction, no_chunks,
  no_expiry, graph_failed, duplicate_nonces, no_nonces, no_commitment, submit_signatures_failed,
  changed_commitment, forfeit_failed, emulator_failed, submit_forfeits_failed, no_outpoint,
  batch_failed, SessionLibrary, Renewal, emulator_tree_node,
}
use woodland_sh.Batch.Session.Justified.{
  IsValidated, IsRelease, IsSound, planned_of, planned-IsPlan, some-injective, no_expectation,
  combine_forfeits-IsCombination,
}
use woodland_sh.Batch.Session.Keeps.{
  Keeps, on, back, over, Keeps-try, Keeps-need, Keeps-fail_if, Keeps-skip_if,
}
use woodland_sh.Batch.Session.Sound.{
  IsRenewed, on_batch_started_lem, on_tree_tx_lem, on_tree_signature_lem, on_signing_started_lem,
}
use woodland_sh.Batch.Session.Handlers
use woodland_sh.Batch.Session.Handlers.{
  Event, stream_started, heartbeat, tree_nonces_aggregated, batch_started, tree_tx, tree_signature,
  tree_signing_started, tree_nonces, batch_finalization, batch_finalized, batch_failed_event, Next,
  continues, returned, failed, Session, Sent, confirmation, public_nonces, partial_signatures,
  emulator_request, signed_forfeits, initial, send,
}

module _ (lib : SessionLibrary) (renewal : Renewal) where
  abbrev Sound : Session lib → Type 0
  Sound = IsSound lib renewal

  abbrev Stays : Next lib → Type 0
  Stays = Keeps lib Sound Sound (IsRenewed lib renewal)

  on_tree_nonces_lem :
      (s : Session lib) (id : String) (txid : Txid) (received : lib.Received)
      → Sound s
      → Stays (Handlers.on_tree_nonces lib renewal s id txid received)
  unfolding Handlers.on_tree_nonces
  on_tree_nonces_lem s id txid received h =
      Keeps-skip_if lib (not (accepts_nonces s.progress id)) s _ h (λ _.
        Keeps-skip_if lib (not (lib.has_nonce received renewal.cosigner_xonly)) s _ h (λ _.
          Keeps-need lib s.vtxo_graph no_graph s _ h (λ graph n.
            Keeps-fail_if lib (not (lib.find graph txid)) unknown_transaction s _ h (λ _.
              Keeps-fail_if lib (is_some (get s.agg_nonce_pks txid)) duplicate_nonces s _ h (λ _.
                let aggregates : Dict Txid lib.Aggregate =
                  (txid, lib.aggregate_nonces received) ∷ s.agg_nonce_pks in
                let collected : Session lib = record s { agg_nonce_pks = aggregates } in
                let c : Sound collected = record {
                  justified = h.justified;
                  plan = h.plan;
                  expected = h.expected;
                  flagged = h.flagged;
                } in
                Keeps-skip_if lib (not (length aggregates == lib.nb_of_nodes graph)) collected _ c
                  (λ _. Keeps-need lib s.nonce_kps no_nonces collected _ c (λ nonces _.
                    Keeps-need lib s.unsigned_commitment_tx no_commitment collected _ c
                      (λ commitment u.
                        Keeps-need lib s.batch_expiry no_expiry collected _ c (λ expiry _.
                          Keeps-try lib (λ e. e)
                            (Handlers.sign_tree lib renewal expiry graph commitment aggregates
                              (lib.as_map graph) nonces lib.no_partials)
                            collected _ c
                            (λ signed g.
                              let plan =
                                planned-IsPlan lib renewal commitment graph s.unsigned_commitment_tx
                                  s.renewed_outpoint s.vtxo_graph h.plan u n in
                              let submitted : Session lib =
                                send lib (record collected { nonce_kps = some signed.1 })
                                  (partial_signatures id signed.0) in
                              let d : Sound submitted = record {
                                justified = (
                                  record {
                                    commitment = commitment;
                                    outpoint = plan.0;
                                    validated = plan.1.validated;
                                    expiry = expiry;
                                    graph = graph;
                                    whole = plan.1.whole;
                                    aggregates = aggregates;
                                    nonces = nonces;
                                    rest = signed.1;
                                    signed = g;
                                  },
                                  h.justified,
                                );
                                plan = h.plan;
                                expected = h.expected;
                                flagged = h.flagged;
                              } in
                              Keeps-fail_if lib (not (lib.submit_tree_signatures id signed.0))
                                submit_signatures_failed submitted _ d
                                (λ _.
                                  Keeps-try lib in_progress
                                    (mark_tree_signatures_submitted s.progress id) submitted _ d
                                    (λ progress e.
                                      let step =
                                        mark_tree_signatures_submitted-step s.progress progress id
                                          e in
                                      on (record {
                                        justified = d.justified;
                                        plan = d.plan;
                                        expected =
                                            no_expectation lib renewal s.progress progress _ _
                                              s.sent submitted.sent 2 h.expected step.0
                                              (omega arith) step.1;
                                        flagged = d.flagged;
                                      })))))))))))))

  release_forfeits_lem :
      (s : Session lib) (id : String) (chunks : List Chunk)
      (signing_commitment commitment_tx : Psbt)
      → Sound s
      → s.unsigned_commitment_tx ≡ some signing_commitment
      → ((connector_graph : lib.TxGraph) (forfeits : List Psbt)
          → lib.new_graph chunks ≡ some connector_graph
          → lib.create_and_sign_forfeit_txs
              (Handlers.forfeit_sign lib renewal)
              renewal.inputs
              (lib.leaves connector_graph)
              renewal.dust_sats
            ≡ some forfeits
          → IsRelease lib renewal forfeits
              (map (emulator_tree_node lib.encode_chunk) chunks)
              commitment_tx.tx)
      → Stays (Handlers.release_forfeits lib renewal s id chunks signing_commitment commitment_tx)
  unfolding Handlers.release_forfeits
  release_forfeits_lem s id chunks signing_commitment commitment_tx h u r =
      Keeps-need lib (lib.new_graph chunks) graph_failed s _ h (λ graph w.
        Keeps-need lib
          (lib.create_and_sign_forfeit_txs (Handlers.forfeit_sign lib renewal) renewal.inputs
            (lib.leaves graph) renewal.dust_sats)
          forfeit_failed s _ h
          (λ forfeits m.
            let nodes = map (emulator_tree_node lib.encode_chunk) chunks in
            let released : Session lib =
              record (send lib s (emulator_request forfeits nodes commitment_tx)) {
                forfeits_released = true;
              } in
            let c : Sound released = record {
              justified = (r graph forfeits w m, h.justified);
              plan = h.plan;
              expected = h.expected;
              flagged = refl;
            } in
            Keeps-need lib
              (lib.submit_finalization (map lib.encode_psbt forfeits) nodes
                (lib.encode_psbt commitment_tx))
              emulator_failed released _ c
              (λ approved a.
                Keeps-try lib in_forfeits
                  (combine_forfeits lib.forfeits renewal.owner_pk forfeits approved
                    renewal.emulator_signer renewal.state_outpoint)
                  released _ c
                  (λ complete f.
                    let submitted : Session lib = send lib released (signed_forfeits complete) in
                    let d : Sound submitted = record {
                      justified = (
                        combine_forfeits-IsCombination lib renewal forfeits complete nodes
                            commitment_tx approved a f,
                        c.justified,
                      );
                      plan = h.plan;
                      expected = λ txid e. let x = h.expected txid e in (x.0, x.1, x.2, x.3, refl);
                      flagged = refl;
                    } in
                    Keeps-fail_if lib (not (lib.submit_signed_forfeit_txs complete))
                      submit_forfeits_failed submitted _ d
                      (λ _.
                        Keeps-try lib in_progress
                          (mark_finalization_submitted s.progress id signing_commitment.tx.txid)
                          submitted _ d
                          (λ progress e.
                            let step =
                              mark_finalization_submitted-step s.progress progress id
                                signing_commitment.tx.txid e in
                            on (record {
                              justified = d.justified;
                              plan = d.plan;
                              expected = λ txid x.
                                  (step.0, signing_commitment, u, ground (arith, step.1), refl);
                              flagged = refl;
                            })))))))

  on_finalization_lem :
      (s : Session lib) (id : String) (commitment_tx : Psbt)
      → Sound s
      → Stays (Handlers.on_finalization lib renewal s id commitment_tx)
  unfolding Handlers.on_finalization
  on_finalization_lem s id commitment_tx h =
      Keeps-skip_if lib (not (accepts_finalization s.progress id)) s _ h (λ _.
        Keeps-need lib s.unsigned_commitment_tx no_commitment s _ h (λ signing u.
          Keeps-fail_if lib (not (commitment_tx.tx == signing.tx)) changed_commitment s _ h (λ same.
            Keeps-need lib s.vtxo_graph no_graph s _ h (λ graph n.
              Keeps-try lib in_signatures
                (verify_vtxo_tree_signatures lib.forfeits.signatures (lib.as_map graph) signing.tx)
                s _ h
                (λ _ v. Keeps-need lib s.connector_chunks no_chunks s _ h (λ chunks _.
                  Keeps-try lib in_tree
                    (validate_connector_tree lib.batch chunks signing.tx renewal.dust_sats
                      (length renewal.inputs))
                    s _ h
                    (λ _ t.
                      let plan =
                        planned-IsPlan lib renewal signing graph s.unsigned_commitment_tx
                          s.renewed_outpoint s.vtxo_graph h.plan u n in
                      let tree =
                        validate_connector_tree_lem lib.batch chunks signing.tx renewal.dust_sats
                          (length renewal.inputs) t in
                      let same_tx = (tx_beq_iff commitment_tx.tx signing.tx).0 (ground arith) in
                      release_forfeits_lem (record s { connector_chunks = none }) id chunks signing
                        commitment_tx
                        (record {
                          justified = h.justified;
                          plan = h.plan;
                          expected = h.expected;
                          flagged = h.flagged;
                        })
                        u
                        (λ connector_graph forfeits w m.
                          subst
                            (IsRelease lib renewal forfeits
                              (map (emulator_tree_node lib.encode_chunk) chunks))
                            (sym same_tx)
                            (record {
                              outpoint = plan.0;
                              validated = plan.1.validated;
                              graph = graph;
                              whole = plan.1.whole;
                              signed = v;
                              chunks = chunks;
                              same = refl;
                              connector_nodes = tree.0;
                              leaves = tree.1;
                              spendable = tree.3;
                              connector_graph = connector_graph;
                              connectors_whole = w;
                              made = m;
                            })))))))))

  on_finalized_lem :
      (s : Session lib) (id : String) (commitment_txid : Txid)
      → Sound s
      → Stays (Handlers.on_finalized lib renewal s id commitment_txid)
  unfolding Handlers.on_finalized
  on_finalized_lem s id commitment_txid h =
      Keeps-try lib in_progress (finalize s.progress id commitment_txid) s _ h (λ final f.
        Keeps-skip_if lib (not final) s _ h (λ t.
          Keeps-need lib s.renewed_outpoint no_outpoint s _ h (λ outpoint o.
            let known =
              h.expected commitment_txid
                (finalize-expected s.progress id commitment_txid (f ∙ ap ok (ground (arith, t)))) in
            let plan =
              planned_of lib renewal known.1 s.unsigned_commitment_tx s.renewed_outpoint
                s.vtxo_graph h.plan known.2 in
            back h (record {
              commitment = known.1;
              named = known.3;
              noted = known.2;
              validated =
                  subst (IsValidated lib renewal known.1.tx) {x = plan.0} {y = outpoint}
                    (some-injective (sym plan.2 ∙ o)) plan.4.validated;
              forfeited = known.4;
            }))))

  handle_lem :
      (now : ℤ) (s : Session lib) (event : Event lib)
      → Sound s
      → Stays (Handlers.handle lib renewal now s event)
  unfolding Handlers.handle
  handle_lem now s stream_started h = on h
  handle_lem now s heartbeat h = on h
  handle_lem now s tree_nonces_aggregated h = on h
  handle_lem now s (batch_started id hashes expiry) h =
      on_batch_started_lem lib renewal now s id hashes expiry h
  handle_lem now s (tree_tx id kind chunk) h = on_tree_tx_lem lib renewal s id kind chunk h
  handle_lem now s (tree_signature id kind txid signature) h =
      on_tree_signature_lem lib renewal s id kind txid signature h
  handle_lem now s (tree_signing_started id cosigners commitment) h =
      on_signing_started_lem lib renewal s id cosigners commitment h
  handle_lem now s (tree_nonces id txid nonces) h = on_tree_nonces_lem s id txid nonces h
  handle_lem now s (batch_finalization id commitment) h = on_finalization_lem s id commitment h
  handle_lem now s (batch_finalized id txid) h = on_finalized_lem s id txid h
  handle_lem now s (batch_failed_event id) h =
      Keeps-fail_if lib (matches_batch s.progress id) batch_failed s _ h (λ _. on h)

  pub run_lem :
      (events : List (ℤ × Event lib)) (s : Session lib)
      → Sound s
      → Stays (Handlers.run lib renewal s events)
  unfolding Handlers.run
  run_lem [] s h = over h
  run_lem (entry ∷ rest) s h =
      by_next (Handlers.handle lib renewal entry.0 s entry.1) (handle_lem entry.0 s entry.1 h)
        (run_lem rest)
    where
      by_next :
          (next : Next lib)
          → Stays next
          → ((s' : Session lib) → Sound s' → Stays (Handlers.run lib renewal s' rest))
          → Stays (elim next [
            | continues s' ↦ Handlers.run lib renewal s' rest
            | returned outcome s' ↦ returned outcome s'
            | failed e s' ↦ failed e s'
          ])
      by_next (continues s') (on k) f = f s' k
      by_next (returned outcome s') (back k r) f = back k r
      by_next (failed e s') (over k) f = over k
