-- ===== src/Batch/Session/Protocol.antt =====
-- The rest of the handlers of `join_registered_batch` of src/batch.rs, and the order of a whole session.
use woodland_sh.Base.{
  Bool, true, false, not, none, some, List, [], ◌∷◌, map, length, ◌==◌, nat_eq, list_eq, string_eq,
  String, ok, ◌∙◌, ◌≡◌, ◌⊎◌, inl, inr, refl, ap, arith,
}
use woodland_sh.Base.Int.{ℤ}
use woodland_sh.Base.Dict.{Dict, get}
use woodland_sh.Batch.Graph.{Txid, Chunk, is_some}
use woodland_sh.Batch.Trees.{validate_connector_tree}
use woodland_sh.Batch.Signatures.{Psbt, verify_vtxo_tree_signatures}
use woodland_sh.Batch.Forfeits.{tx_eq, combine_forfeits}
use woodland_sh.Batch.Progress.{
  matches_batch, accepts_nonces, mark_tree_signatures_submitted, accepts_finalization,
  mark_finalization_submitted, finalize,
}
use woodland_sh.Batch.Progress.Stage
use woodland_sh.Batch.Progress.Stage.{stage}
use woodland_sh.Batch.Session.{
  in_progress, in_tree, in_signatures, in_forfeits, no_graph, unknown_transaction, no_chunks,
  no_expiry, graph_failed, duplicate_nonces, no_nonces, no_commitment, submit_signatures_failed,
  changed_commitment, forfeit_failed, emulator_failed, submit_forfeits_failed, no_outpoint,
  batch_failed, SessionLibrary, Renewal, emulator_tree_node,
}
use woodland_sh.Batch.Session.Outcome.{session_of, last_session}
use woodland_sh.Batch.Session.Keeps.{
  Keeps, on, back, over, Keeps-try, Keeps-need, Keeps-fail_if, Keeps-skip_if,
}
use woodland_sh.Batch.Session.Handlers
use woodland_sh.Batch.Session.Handlers.{
  Event, stream_started, heartbeat, tree_nonces_aggregated, batch_started, tree_tx, tree_signature,
  tree_signing_started, tree_nonces, batch_finalization, batch_finalized, batch_failed_event, Next,
  continues, returned, failed, Session, Sent, confirmation, public_nonces, partial_signatures,
  emulator_request, signed_forfeits, initial, send,
}
use woodland_sh.Batch.Session.Ordered.{
  IsPhased, InOrder, IsAllSent, IsOrdered, Stays, on_batch_started_lem, on_tree_tx_lem,
  on_tree_signature_lem, on_signing_started_lem,
}

module _ (lib : SessionLibrary) (renewal : Renewal) where
  on_tree_nonces_lem :
      (s : Session lib) (id : String) (txid : Txid) (received : lib.Received)
      → IsPhased lib renewal s
      → Stays lib renewal (Handlers.on_tree_nonces lib renewal s id txid received)
  unfolding Handlers.on_tree_nonces
  on_tree_nonces_lem s id txid received h =
      Keeps-skip_if lib (not (accepts_nonces s.progress id)) s _ h (λ waits.
        Keeps-skip_if lib (not (lib.has_nonce received renewal.cosigner_xonly)) s _ h (λ _.
          Keeps-need lib s.vtxo_graph no_graph s _ h.ordered (λ graph _.
            Keeps-fail_if lib (not (lib.find graph txid)) unknown_transaction s _ h.ordered (λ _.
              Keeps-fail_if lib (is_some (get s.agg_nonce_pks txid)) duplicate_nonces s _ h.ordered
                (λ _.
                  let aggregates : Dict Txid lib.Aggregate =
                    (txid, lib.aggregate_nonces received) ∷ s.agg_nonce_pks in
                  let collected : Session lib = record s { agg_nonce_pks = aggregates } in
                  let c : IsPhased lib renewal collected = record {
                    ordered = h.ordered;
                    count = h.count;
                    possible = h.possible;
                  } in
                  Keeps-skip_if lib (not (length aggregates == lib.nb_of_nodes graph)) collected _ c
                    (λ _. Keeps-need lib s.nonce_kps no_nonces collected _ h.ordered (λ nonces _.
                      Keeps-need lib s.unsigned_commitment_tx no_commitment collected _ h.ordered
                        (λ commitment _.
                          Keeps-need lib s.batch_expiry no_expiry collected _ h.ordered (λ expiry _.
                            Keeps-try lib (λ e. e)
                              (Handlers.sign_tree lib renewal expiry graph commitment aggregates
                                (lib.as_map graph) nonces lib.no_partials)
                              collected _ h.ordered
                              (λ signed _.
                                let submitted : Session lib =
                                  send lib (record collected { nonce_kps = some signed.1 })
                                    (partial_signatures id signed.0) in
                                let third : stage s.progress ≡ 2 =
                                  Stage.stage-accepts_nonces s.progress id h.possible
                                    (ground (arith, waits)) in
                                let sent : InOrder lib renewal submitted =
                                  (omega (arith, h.count, third), h.ordered) in
                                Keeps-fail_if lib (not (lib.submit_tree_signatures id signed.0))
                                  submit_signatures_failed submitted _ sent
                                  (λ _.
                                    Keeps-try lib in_progress
                                      (mark_tree_signatures_submitted s.progress id) submitted _
                                      sent
                                      (λ progress e.
                                        let next =
                                          Stage.stage-mark_tree_signatures_submitted s.progress
                                            progress id third e in
                                        on (record {
                                          ordered = sent;
                                          count = omega (arith, h.count, third, next);
                                          possible = omega (arith, next);
                                        })))))))))))))

  release_forfeits_lem :
      (s : Session lib) (id : String) (chunks : List Chunk)
      (signing_commitment commitment_tx : Psbt)
      → IsPhased lib renewal s
      → stage s.progress ≡ 3
      → Stays lib renewal
          (Handlers.release_forfeits lib renewal s id chunks signing_commitment commitment_tx)
  unfolding Handlers.release_forfeits
  release_forfeits_lem s id chunks signing_commitment commitment_tx h third =
      Keeps-need lib (lib.new_graph chunks) graph_failed s _ h.ordered (λ graph _.
        Keeps-need lib
          (lib.create_and_sign_forfeit_txs (Handlers.forfeit_sign lib renewal) renewal.inputs
            (lib.leaves graph) renewal.dust_sats)
          forfeit_failed s _ h.ordered
          (λ forfeits _.
            let nodes = map (emulator_tree_node lib.encode_chunk) chunks in
            let released : Session lib =
              record (send lib s (emulator_request forfeits nodes commitment_tx)) {
                forfeits_released = true;
              } in
            let fourth : InOrder lib renewal released =
              (omega (arith, h.count, third), h.ordered) in
            Keeps-need lib
              (lib.submit_finalization (map lib.encode_psbt forfeits) nodes
                (lib.encode_psbt commitment_tx))
              emulator_failed released _ fourth
              (λ approved _.
                Keeps-try lib in_forfeits
                  (combine_forfeits lib.forfeits renewal.owner_pk forfeits approved
                    renewal.emulator_signer renewal.state_outpoint)
                  released _ fourth
                  (λ complete _.
                    let submitted : Session lib = send lib released (signed_forfeits complete) in
                    let sent : InOrder lib renewal submitted =
                      (omega (arith, h.count, third), fourth) in
                    Keeps-fail_if lib (not (lib.submit_signed_forfeit_txs complete))
                      submit_forfeits_failed submitted _ sent
                      (λ _.
                        Keeps-try lib in_progress
                          (mark_finalization_submitted s.progress id signing_commitment.tx.txid)
                          submitted _ sent
                          (λ progress e.
                            let next =
                              Stage.stage-mark_finalization_submitted s.progress progress id
                                signing_commitment.tx.txid third e in
                            on (record {
                              ordered = sent;
                              count = omega (arith, h.count, third, next);
                              possible = omega (arith, next);
                            })))))))

  on_finalization_lem :
      (s : Session lib) (id : String) (commitment_tx : Psbt)
      → IsPhased lib renewal s
      → Stays lib renewal (Handlers.on_finalization lib renewal s id commitment_tx)
  unfolding Handlers.on_finalization
  on_finalization_lem s id commitment_tx h =
      Keeps-skip_if lib (not (accepts_finalization s.progress id)) s _ h (λ ends.
        Keeps-need lib s.unsigned_commitment_tx no_commitment s _ h.ordered (λ signing _.
          Keeps-fail_if lib (not (commitment_tx.tx == signing.tx)) changed_commitment s _ h.ordered
            (λ _. Keeps-need lib s.vtxo_graph no_graph s _ h.ordered (λ graph _.
              Keeps-try lib in_signatures
                (verify_vtxo_tree_signatures lib.forfeits.signatures (lib.as_map graph) signing.tx)
                s _ h.ordered
                (λ _ _. Keeps-need lib s.connector_chunks no_chunks s _ h.ordered (λ chunks _.
                  Keeps-try lib in_tree
                    (validate_connector_tree lib.batch chunks signing.tx renewal.dust_sats
                      (length renewal.inputs))
                    s _ h.ordered
                    (λ _ _.
                      release_forfeits_lem (record s { connector_chunks = none }) id chunks signing
                        commitment_tx
                        (record { ordered = h.ordered; count = h.count; possible = h.possible })
                        (Stage.stage-accepts_finalization s.progress id h.possible
                          (ground (arith, ends))))))))))

  on_finalized_lem :
      (s : Session lib) (id : String) (commitment_txid : Txid)
      → IsPhased lib renewal s
      → Stays lib renewal (Handlers.on_finalized lib renewal s id commitment_txid)
  unfolding Handlers.on_finalized
  on_finalized_lem s id commitment_txid h =
      Keeps-try lib in_progress (finalize s.progress id commitment_txid) s _ h.ordered (λ final f.
        Keeps-skip_if lib (not final) s _ h (λ t.
          Keeps-need lib s.renewed_outpoint no_outpoint s _ h.ordered (λ outpoint _.
            back h.ordered (
              h.count
              ∙ Stage.stage-finalize s.progress id commitment_txid h.possible
                  (f ∙ ap ok (ground (arith, t)))))))

  handle_lem :
      (now : ℤ) (s : Session lib) (event : Event lib)
      → IsPhased lib renewal s
      → Stays lib renewal (Handlers.handle lib renewal now s event)
  unfolding Handlers.handle
  handle_lem now s stream_started h = on h
  handle_lem now s heartbeat h = on h
  handle_lem now s tree_nonces_aggregated h = on h
  handle_lem now s (batch_started id hashes expiry) h =
      on_batch_started_lem lib renewal now s id hashes expiry h
  handle_lem now s (tree_tx id kind chunk) h = on_tree_tx_lem lib renewal s id kind chunk h
  handle_lem now s (tree_signature id kind txid signature) h =
      on_tree_signature_lem lib renewal s id kind txid signature h
  handle_lem now s (tree_signing_started id cosigners commitment) h =
      on_signing_started_lem lib renewal s id cosigners commitment h
  handle_lem now s (tree_nonces id txid nonces) h = on_tree_nonces_lem s id txid nonces h
  handle_lem now s (batch_finalization id commitment) h = on_finalization_lem s id commitment h
  handle_lem now s (batch_finalized id txid) h = on_finalized_lem s id txid h
  handle_lem now s (batch_failed_event id) h =
      Keeps-fail_if lib (matches_batch s.progress id) batch_failed s _ h.ordered (λ _. on h)

  run_lem :
      (events : List (ℤ × Event lib)) (s : Session lib)
      → IsPhased lib renewal s
      → Keeps lib
          (InOrder lib renewal)
          (InOrder lib renewal)
          (IsAllSent lib renewal)
          (Handlers.run lib renewal s events)
  unfolding Handlers.run
  run_lem [] s h = over h.ordered
  run_lem (entry ∷ rest) s h =
      by_next (Handlers.handle lib renewal entry.0 s entry.1) (handle_lem entry.0 s entry.1 h)
        (run_lem rest)
    where
      by_next :
          (next : Next lib)
          → Stays lib renewal next
          → ((s' : Session lib)
              → IsPhased lib renewal s'
              → Keeps lib
                  (InOrder lib renewal)
                  (InOrder lib renewal)
                  (IsAllSent lib renewal)
                  (Handlers.run lib renewal s' rest))
          → Keeps lib
              (InOrder lib renewal)
              (InOrder lib renewal)
              (IsAllSent lib renewal)
              (elim next [
                | continues s' ↦ Handlers.run lib renewal s' rest
                | returned outcome s' ↦ returned outcome s'
                | failed e s' ↦ failed e s'
              ])
      by_next (continues s') (on k) f = f s' k
      by_next (returned outcome s') (back k r) f = back k r
      by_next (failed e s') (over k) f = over k

  initial-IsPhased : IsPhased lib renewal (initial lib)
  initial-IsPhased = record { ordered = tt; count = refl; possible = omega arith }

  abbrev pub has_returned : Next lib → Bool
  has_returned (returned outcome s) = true
  has_returned _ = false

  -- Whatever events arrive, however often, and whatever is answered, the messages of the session stand in the
  -- order of the protocol: the confirmation of the registration, the public nonces, the partial signatures,
  -- the forfeits for the emulator and those for arkd. Each is sent at most once and none is left out before a
  -- later one. Where the loop returns an outcome, all five have been sent.
  pub run-IsOrdered :
      (events : List (ℤ × Event lib))
      → IsOrdered lib renewal (last_session lib renewal events).sent
        × ((has_returned (Handlers.run lib renewal (initial lib) events) ≡ false)
            ⊎ (length (last_session lib renewal events).sent ≡ 5))
  run-IsOrdered events = by_next _ (run_lem events (initial lib) initial-IsPhased)
    where
      by_next :
          (next : Next lib)
          → Keeps lib (InOrder lib renewal) (InOrder lib renewal) (IsAllSent lib renewal) next
          → IsOrdered lib renewal (session_of lib next).sent
            × ((has_returned next ≡ false) ⊎ (length (session_of lib next).sent ≡ 5))
      by_next (continues s) (on k) = (k, inl refl)
      by_next (returned outcome s) (back k r) = (k, inr r)
      by_next (failed x s) (over k) = (k, inl refl)
