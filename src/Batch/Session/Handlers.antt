-- ===== src/Batch/Session/Handlers.antt =====
-- The handlers of `join_registered_batch` of src/batch.rs, and the loop over the events.
use woodland_sh.Base.{
  ℕ, Bool, true, false, not, ◌||◌, Option, none, some, List, [], ◌∷◌, ◌++◌, map, leb, length, ◌==◌,
  nat_eq, list_eq, string_eq, contains, String, Result, ok, err, ◌>>=◌, ok_or,
}
use woodland_sh.Base.Int.{ℤ}
use woodland_sh.Base.Dict.{Dict, get}
use woodland_sh.Indexer.{OutPoint}
use woodland_sh.Batch.Graph.{Txid, Chunk, is_some, max_batch_graph_nodes}
use woodland_sh.Batch.Trees.{Key, Script, validate_vtxo_tree, validate_connector_tree}
use woodland_sh.Batch.Signatures.{Psbt, verify_vtxo_tree_signatures}
use woodland_sh.Batch.Forfeits.{tx_eq, combine_forfeits, is_owner_expected}
use woodland_sh.Batch.Expiry.{validate_batch_expiry}
use woodland_sh.Batch.Progress.{
  BatchProgress, default, is_start, matches_batch, begin_batch, accepts_tree_chunk,
  accepts_tree_signature, accepts_signing_start, mark_signing_started, accepts_nonces,
  mark_tree_signatures_submitted, accepts_finalization, mark_finalization_submitted, finalize,
}
use woodland_sh.Batch.Session.{
  SessionError, in_expiry, in_progress, in_tree, in_signatures, in_forfeits, confirm_failed,
  unexpected_chunk, too_many_nodes, no_graph, unknown_transaction, apply_failed, not_a_cosigner,
  no_chunks, no_expiry, graph_failed, nonces_failed, submit_nonces_failed, duplicate_nonces,
  no_nonces, no_commitment, no_aggregate, sign_failed, submit_signatures_failed, changed_commitment,
  forfeit_failed, emulator_failed, submit_forfeits_failed, no_outpoint, batch_failed, stream_closed,
  TreeKind, vtxo, connector, RenewalOutcome, EmulatorNode, SessionLibrary, Renewal,
  emulator_tree_node,
}

module _ (lib : SessionLibrary) where
  pub data Event : Type 0 where
    stream_started heartbeat tree_nonces_aggregated : Event
    batch_started : (id : String) (intent_id_hashes : List String) (batch_expiry : ℕ) → Event
    tree_tx : (id : String) (kind : TreeKind) (chunk : Chunk) → Event
    tree_signature : (id : String) (kind : TreeKind) (txid : Txid) (signature : List ℕ) → Event
    tree_signing_started :
        (id : String) (cosigners_pubkeys : List Key) (unsigned_commitment_tx : Psbt) → Event
    tree_nonces : (id : String) (txid : Txid) (nonces : lib.Received) → Event
    batch_finalization : (id : String) (commitment_tx : Psbt) → Event
    batch_finalized : (id : String) (commitment_txid : Txid) → Event
    batch_failed_event : (id : String) → Event

  -- What leaves the process.
  pub data Sent : Type 0 where
    confirmation : (intent_id : String) → Sent
    public_nonces : (id : String) (nonces : lib.PublicNonces) → Sent
    partial_signatures : (id : String) (partial : lib.PartialTree) → Sent
    emulator_request :
        (forfeits : List Psbt) (connectors : List EmulatorNode) (commitment : Psbt) → Sent
    signed_forfeits : (complete : List Psbt) → Sent

  -- The loop's variables, and what has been sent, the last first.
  pub record Session : Type 0 where
    pub progress : BatchProgress
    pub batch_expiry : Option ℕ
    pub vtxo_chunks : Option (List Chunk)
    pub vtxo_graph : Option lib.TxGraph
    pub connector_chunks : Option (List Chunk)
    pub unsigned_commitment_tx : Option Psbt
    pub nonce_kps : Option lib.Nonces
    pub agg_nonce_pks : Dict Txid lib.Aggregate
    pub renewed_outpoint : Option OutPoint
    pub forfeits_released : Bool
    pub sent : List Sent

  abbrev pub initial : Session
  initial = record {
    progress = default;
    batch_expiry = none;
    vtxo_chunks = some [];
    vtxo_graph = none;
    connector_chunks = some [];
    unsigned_commitment_tx = none;
    nonce_kps = none;
    agg_nonce_pks = [];
    renewed_outpoint = none;
    forfeits_released = false;
    sent = [];
  }

  -- After an event: the loop goes on, returns, or ends with an error.
  pub data Next : Type 0 where
    continues : Session → Next
    returned : RenewalOutcome → Session → Next
    failed : SessionError → Session → Next

  abbrev pub send : Session → Sent → Session
  send s message = record s { sent = message ∷ s.sent }

  -- `value?` and `value.ok_or_else(…)?`, in the state that the loop is in.
  abbrev pub try {ℓ κ} :
      {E : Type ℓ} {A : Type κ} → (E → SessionError) → Result E A → Session → (A → Next) → Next
  try wrap (ok a) s k = k a
  try wrap (err e) s k = failed (wrap e) s

  abbrev pub need {ℓ} : {A : Type ℓ} → Option A → SessionError → Session → (A → Next) → Next
  need (some a) e s k = k a
  need none e s k = failed e s

  -- `if test { return Err(…); }`, and `if test { continue; }`
  abbrev pub fail_if : Bool → SessionError → Session → Next → Next
  fail_if true e s k = failed e s
  fail_if false e s k = k

  abbrev pub skip_if : Bool → Session → Next → Next
  skip_if true s k = continues s
  skip_if false s k = k

  module _ (renewal : Renewal) where
    unfoldable pub on_batch_started : ℤ → Session → String → List String → ℕ → Next
    on_batch_started now s id intent_id_hashes batch_expiry =
        skip_if (not (is_start s.progress)) s (
          skip_if (not (contains intent_id_hashes (lib.sha256_hex renewal.intent_id))) s (
            try in_expiry
              (validate_batch_expiry (lib.to_relative_lock_time batch_expiry)
                renewal.input_expires_at now)
              s
              (λ _.
                let confirmed = send s (confirmation renewal.intent_id) in
                fail_if (not (lib.confirm_registration renewal.intent_id)) confirm_failed confirmed
                  (try in_progress (begin_batch s.progress id) confirmed (λ progress.
                    continues (record confirmed {
                      progress = progress;
                      batch_expiry = some batch_expiry;
                    }))))))

    unfoldable pub on_tree_tx : Session → String → TreeKind → Chunk → Next
    on_tree_tx s id vtxo chunk = skip_if (not (accepts_tree_chunk s.progress id)) s (
        need s.vtxo_chunks unexpected_chunk s (λ chunks.
          fail_if (leb max_batch_graph_nodes (length chunks)) too_many_nodes s
            (continues (record s { vtxo_chunks = some (chunks ++ (chunk ∷ [])) }))))
    on_tree_tx s id connector chunk = skip_if (not (accepts_tree_chunk s.progress id)) s (
        need s.connector_chunks unexpected_chunk s (λ chunks.
          fail_if (leb max_batch_graph_nodes (length chunks)) too_many_nodes s
            (continues (record s { connector_chunks = some (chunks ++ (chunk ∷ [])) }))))

    abbrev pub is_vtxo : TreeKind → Bool
    is_vtxo vtxo = true
    is_vtxo connector = false

    unfoldable pub on_tree_signature : Session → String → TreeKind → Txid → List ℕ → Next
    on_tree_signature s id kind txid signature =
        skip_if (not (accepts_tree_signature s.progress id) || not (is_vtxo kind)) s (
          need s.vtxo_graph no_graph s (λ graph.
            fail_if (not (lib.find graph txid)) unknown_transaction s (
              need (lib.set_signature graph txid signature) apply_failed s
                (λ signed. continues (record s { vtxo_graph = some signed })))))

    unfoldable pub on_signing_started : Session → String → List Key → Psbt → Next
    on_signing_started s id cosigners_pubkeys commitment =
        skip_if (not (accepts_signing_start s.progress id)) s (
          fail_if (not (contains cosigners_pubkeys renewal.cosigner_pk)) not_a_cosigner s (
            need s.vtxo_chunks no_chunks s (λ chunks. need s.batch_expiry no_expiry s (λ expiry.
              try in_tree
                (validate_vtxo_tree lib.batch chunks commitment.tx expiry renewal.forfeit_pk
                  renewal.cosigner_pk cosigners_pubkeys renewal.leaf_outputs)
                s
                (λ outpoint. need (lib.new_graph chunks) graph_failed s (λ graph.
                  need (lib.generate_nonce_tree graph commitment) nonces_failed s (λ nonces.
                    let submitted = send s (public_nonces id (lib.to_nonce_pks nonces)) in
                    fail_if (not (lib.submit_tree_nonces id (lib.to_nonce_pks nonces)))
                      submit_nonces_failed submitted
                      (try in_progress (mark_signing_started s.progress id) submitted (λ progress.
                        continues (record submitted {
                          progress = progress;
                          vtxo_chunks = none;
                          renewed_outpoint = some outpoint;
                          vtxo_graph = some graph;
                          nonce_kps = some nonces;
                          unsigned_commitment_tx = some commitment;
                        }))))))))))

    -- The partial signatures of the transactions, one after the other; signing uses the nonces up.
    unfoldable pub sign_tree :
        ℕ
        → lib.TxGraph
        → Psbt
        → Dict Txid lib.Aggregate
        → List (Txid × Psbt)
        → lib.Nonces
        → lib.PartialTree
        → Result SessionError (lib.PartialTree × lib.Nonces)
    sign_tree expiry graph commitment aggregates [] nonces partial = ok (partial, nonces)
    sign_tree expiry graph commitment aggregates (entry ∷ rest) nonces partial = do
      aggregate ← ok_or (get aggregates entry.0) no_aggregate
      sigs ←
          ok_or
            (lib.sign_batch_tree_tx entry.0 expiry renewal.forfeit_pk aggregate graph commitment
              nonces)
            sign_failed
      sign_tree expiry graph commitment aggregates rest sigs.1 (lib.extend partial sigs.0)

    unfoldable pub on_tree_nonces : Session → String → Txid → lib.Received → Next
    unfolding sign_tree
    on_tree_nonces s id txid received = skip_if (not (accepts_nonces s.progress id)) s (
        skip_if (not (lib.has_nonce received renewal.cosigner_xonly)) s (
          need s.vtxo_graph no_graph s (λ graph.
            fail_if (not (lib.find graph txid)) unknown_transaction s (
              fail_if (is_some (get s.agg_nonce_pks txid)) duplicate_nonces s (
                let aggregates : Dict Txid lib.Aggregate =
                  (txid, lib.aggregate_nonces received) ∷ s.agg_nonce_pks in
                let collected : Session = record s { agg_nonce_pks = aggregates } in
                skip_if (not (length aggregates == lib.nb_of_nodes graph)) collected (
                  need s.nonce_kps no_nonces collected (λ nonces.
                    need s.unsigned_commitment_tx no_commitment collected (λ commitment.
                      need s.batch_expiry no_expiry collected (λ expiry.
                        try (λ e. e)
                          (sign_tree expiry graph commitment aggregates (lib.as_map graph) nonces
                            lib.no_partials)
                          collected
                          (λ signed.
                            let submitted =
                              send (record collected { nonce_kps = some signed.1 })
                                (partial_signatures id signed.0) in
                            fail_if (not (lib.submit_tree_signatures id signed.0))
                              submit_signatures_failed submitted
                              (try in_progress (mark_tree_signatures_submitted s.progress id)
                                submitted
                                (λ progress.
                                  continues (record submitted { progress = progress })))))))))))))

    -- `forfeit_sign_fn`: whether we sign, where the script is known.
    unfoldable pub forfeit_sign : Option Script → Option Bool
    forfeit_sign none = none
    forfeit_sign (some script) =
        some (is_owner_expected lib.forfeits renewal.owner_pk (some script))

    -- From the validated connector tree on.
    unfoldable pub release_forfeits : Session → String → List Chunk → Psbt → Psbt → Next
    unfolding forfeit_sign
    release_forfeits s id chunks signing_commitment commitment_tx =
        need (lib.new_graph chunks) graph_failed s (λ graph.
          need
            (lib.create_and_sign_forfeit_txs forfeit_sign renewal.inputs (lib.leaves graph)
              renewal.dust_sats)
            forfeit_failed s
            (λ forfeits.
              let nodes = map (emulator_tree_node lib.encode_chunk) chunks in
              let released : Session =
                record (send s (emulator_request forfeits nodes commitment_tx)) {
                  forfeits_released = true;
                } in
              need
                (lib.submit_finalization (map lib.encode_psbt forfeits) nodes
                  (lib.encode_psbt commitment_tx))
                emulator_failed released
                (λ approved.
                  try in_forfeits
                    (combine_forfeits lib.forfeits renewal.owner_pk forfeits approved
                      renewal.emulator_signer renewal.state_outpoint)
                    released
                    (λ complete.
                      let submitted = send released (signed_forfeits complete) in
                      fail_if (not (lib.submit_signed_forfeit_txs complete)) submit_forfeits_failed
                        submitted
                        (try in_progress
                          (mark_finalization_submitted s.progress id signing_commitment.tx.txid)
                          submitted
                          (λ progress. continues (record submitted { progress = progress })))))))

    unfoldable pub on_finalization : Session → String → Psbt → Next
    unfolding release_forfeits
    on_finalization s id commitment_tx = skip_if (not (accepts_finalization s.progress id)) s (
        need s.unsigned_commitment_tx no_commitment s (λ signing_commitment.
          fail_if (not (commitment_tx.tx == signing_commitment.tx)) changed_commitment s (
            need s.vtxo_graph no_graph s (λ graph.
              try in_signatures
                (verify_vtxo_tree_signatures lib.forfeits.signatures (lib.as_map graph)
                  signing_commitment.tx)
                s
                (λ _. need s.connector_chunks no_chunks s (λ chunks.
                  try in_tree
                    (validate_connector_tree lib.batch chunks signing_commitment.tx
                      renewal.dust_sats (length renewal.inputs))
                    s
                    (λ _.
                      release_forfeits (record s { connector_chunks = none }) id chunks
                        signing_commitment commitment_tx)))))))

    unfoldable pub on_finalized : Session → String → Txid → Next
    on_finalized s id commitment_txid =
        try in_progress (finalize s.progress id commitment_txid) s (λ final. skip_if (not final) s (
          need s.renewed_outpoint no_outpoint s (λ outpoint.
            returned (record { commitment_txid = commitment_txid; outpoint = outpoint }) s)))

    unfoldable pub handle : ℤ → Session → Event → Next
    unfolding on_batch_started on_tree_tx on_tree_signature on_signing_started on_tree_nonces
        on_finalization on_finalized
    handle now s stream_started = continues s
    handle now s heartbeat = continues s
    handle now s tree_nonces_aggregated = continues s
    handle now s (batch_started id hashes expiry) = on_batch_started now s id hashes expiry
    handle now s (tree_tx id kind chunk) = on_tree_tx s id kind chunk
    handle now s (tree_signature id kind txid signature) =
        on_tree_signature s id kind txid signature
    handle now s (tree_signing_started id cosigners commitment) =
        on_signing_started s id cosigners commitment
    handle now s (tree_nonces id txid nonces) = on_tree_nonces s id txid nonces
    handle now s (batch_finalization id commitment) = on_finalization s id commitment
    handle now s (batch_finalized id commitment_txid) = on_finalized s id commitment_txid
    handle now s (batch_failed_event id) =
        fail_if (matches_batch s.progress id) batch_failed s (continues s)

    -- The loop; the stream ends before the batch does.
    unfoldable pub run : Session → List (ℤ × Event) → Next
    unfolding handle
    run s [] = failed stream_closed s
    run s (entry ∷ rest) = elim (handle entry.0 s entry.1) [
      | continues s' ↦ run s' rest
      | returned outcome s' ↦ returned outcome s'
      | failed e s' ↦ failed e s'
    ]
