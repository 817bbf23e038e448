-- ===== src/Batch/Session/Sound.antt =====
-- The handlers of `join_registered_batch` of src/batch.rs keep the session sound.
use woodland_sh.Base.{
  ℕ, true, not, ◌||◌, some, List, leb, length, nat_eq, list_eq, string_eq, contains, String, ◌≡◌,
  refl, arith,
}
use woodland_sh.Base.Int.{ℤ}
use woodland_sh.Batch.Graph.{Txid, Chunk, max_batch_graph_nodes}
use woodland_sh.Batch.Trees.{Key, validate_vtxo_tree}
use woodland_sh.Batch.Trees.Vtxo.{validate_vtxo_tree-IsVtxoTree}
use woodland_sh.Batch.Signatures.{Psbt}
use woodland_sh.Batch.Forfeits.{tx_eq}
use woodland_sh.Batch.Expiry.{validate_batch_expiry}
use woodland_sh.Batch.Progress.{
  is_start, begin_batch, accepts_tree_chunk, accepts_tree_signature, accepts_signing_start,
  mark_signing_started,
}
use woodland_sh.Batch.Progress.Steps.{begin_batch-step, mark_signing_started-step}
use woodland_sh.Batch.Session.{
  in_expiry, in_progress, in_tree, confirm_failed, unexpected_chunk, too_many_nodes, no_graph,
  unknown_transaction, apply_failed, not_a_cosigner, no_chunks, no_expiry, graph_failed,
  nonces_failed, submit_nonces_failed, TreeKind, vtxo, connector, RenewalOutcome, SessionLibrary,
  Renewal,
}
use woodland_sh.Batch.Session.Justified.{
  IsValidated, built, planned, IsPlanned-signed, has_signed, IsSound, no_expectation,
}
use woodland_sh.Batch.Session.Keeps.{Keeps, on, Keeps-try, Keeps-need, Keeps-fail_if, Keeps-skip_if}
use woodland_sh.Batch.Session.Handlers
use woodland_sh.Batch.Session.Handlers.{
  Next, continues, returned, failed, Session, Sent, confirmation, public_nonces, partial_signatures,
  emulator_request, signed_forfeits, initial, send,
}

module _ (lib : SessionLibrary) (renewal : Renewal) where
  -- The outcome names the noted commitment and the outpoint that its validated tree renews the state to,
  -- and the forfeits have gone to arkd.
  pub record IsRenewed (outcome : RenewalOutcome) (s : Session lib) : Type 0 where
    pub commitment : Psbt
    pub named : commitment.tx.txid ≡ outcome.commitment_txid
    pub noted : s.unsigned_commitment_tx ≡ some commitment
    pub validated : IsValidated lib renewal commitment.tx outcome.outpoint
    pub forfeited : has_signed lib renewal s.sent ≡ true

  abbrev Sound : Session lib → Type 0
  Sound = IsSound lib renewal

  abbrev Stays : Next lib → Type 0
  Stays = Keeps lib Sound Sound IsRenewed

  pub on_batch_started_lem :
      (now : ℤ) (s : Session lib) (id : String) (hashes : List String) (expiry : ℕ)
      → Sound s
      → Stays (Handlers.on_batch_started lib renewal now s id hashes expiry)
  unfolding Handlers.on_batch_started
  on_batch_started_lem now s id hashes expiry h =
      Keeps-skip_if lib (not (is_start s.progress)) s _ h (λ _.
        Keeps-skip_if lib (not (contains hashes (lib.sha256_hex renewal.intent_id))) s _ h (λ _.
          Keeps-try lib in_expiry
            (validate_batch_expiry (lib.to_relative_lock_time expiry) renewal.input_expires_at now)
            s _ h
            (λ _ _.
              let confirmed : Session lib = send lib s (confirmation renewal.intent_id) in
              let c : Sound confirmed = record {
                justified = (refl, h.justified);
                plan = h.plan;
                expected = h.expected;
                flagged = h.flagged;
              } in
              Keeps-fail_if lib (not (lib.confirm_registration renewal.intent_id)) confirm_failed
                confirmed _ c
                (λ _.
                  Keeps-try lib in_progress (begin_batch s.progress id) confirmed _ c (λ progress e.
                    let step = begin_batch-step s.progress progress id e in
                    on (record {
                      justified = c.justified;
                      plan = c.plan;
                      expected =
                          no_expectation lib renewal s.progress progress _ _ s.sent confirmed.sent 0
                            h.expected step.0 (omega arith) step.1;
                      flagged = c.flagged;
                    }))))))

  pub on_tree_tx_lem :
      (s : Session lib) (id : String) (kind : TreeKind) (chunk : Chunk)
      → Sound s
      → Stays (Handlers.on_tree_tx lib renewal s id kind chunk)
  unfolding Handlers.on_tree_tx
  on_tree_tx_lem s id vtxo chunk h =
      Keeps-skip_if lib (not (accepts_tree_chunk s.progress id)) s _ h (λ _.
        Keeps-need lib s.vtxo_chunks unexpected_chunk s _ h (λ chunks _.
          Keeps-fail_if lib (leb max_batch_graph_nodes (length chunks)) too_many_nodes s _ h (λ _.
            on (record {
              justified = h.justified;
              plan = h.plan;
              expected = h.expected;
              flagged = h.flagged;
            }))))
  on_tree_tx_lem s id connector chunk h =
      Keeps-skip_if lib (not (accepts_tree_chunk s.progress id)) s _ h (λ _.
        Keeps-need lib s.connector_chunks unexpected_chunk s _ h (λ chunks _.
          Keeps-fail_if lib (leb max_batch_graph_nodes (length chunks)) too_many_nodes s _ h (λ _.
            on (record {
              justified = h.justified;
              plan = h.plan;
              expected = h.expected;
              flagged = h.flagged;
            }))))

  pub on_tree_signature_lem :
      (s : Session lib) (id : String) (kind : TreeKind) (txid : Txid) (signature : List ℕ)
      → Sound s
      → Stays (Handlers.on_tree_signature lib renewal s id kind txid signature)
  unfolding Handlers.on_tree_signature
  on_tree_signature_lem s id kind txid signature h =
      Keeps-skip_if lib
        (not (accepts_tree_signature s.progress id) || not (Handlers.is_vtxo lib renewal kind)) s _
        h
        (λ _. Keeps-need lib s.vtxo_graph no_graph s _ h (λ graph g.
          Keeps-fail_if lib (not (lib.find graph txid)) unknown_transaction s _ h (λ _.
            Keeps-need lib (lib.set_signature graph txid signature) apply_failed s _ h (λ signed e.
              on (record {
                justified = h.justified;
                plan =
                    IsPlanned-signed lib renewal s.unsigned_commitment_tx s.renewed_outpoint
                      s.vtxo_graph graph signed txid signature h.plan g e;
                expected = h.expected;
                flagged = h.flagged;
              })))))

  pub on_signing_started_lem :
      (s : Session lib) (id : String) (cosigners : List Key) (commitment : Psbt)
      → Sound s
      → Stays (Handlers.on_signing_started lib renewal s id cosigners commitment)
  unfolding Handlers.on_signing_started
  on_signing_started_lem s id cosigners commitment h =
      Keeps-skip_if lib (not (accepts_signing_start s.progress id)) s _ h (λ _.
        Keeps-fail_if lib (not (contains cosigners renewal.cosigner_pk)) not_a_cosigner s _ h
          (λ ours. Keeps-need lib s.vtxo_chunks no_chunks s _ h (λ chunks _.
            Keeps-need lib s.batch_expiry no_expiry s _ h (λ expiry _.
              Keeps-try lib in_tree
                (validate_vtxo_tree lib.batch chunks commitment.tx expiry renewal.forfeit_pk
                  renewal.cosigner_pk cosigners renewal.leaf_outputs)
                s _ h
                (λ outpoint v. Keeps-need lib (lib.new_graph chunks) graph_failed s _ h (λ graph w.
                  Keeps-need lib (lib.generate_nonce_tree graph commitment) nonces_failed s _ h
                    (λ nonces g.
                      let validated : IsValidated lib renewal commitment.tx outpoint = record {
                        chunks = chunks;
                        batch_expiry = expiry;
                        cosigners = cosigners;
                        ours = ground (arith, ours);
                        tree =
                            validate_vtxo_tree-IsVtxoTree lib.batch chunks commitment.tx expiry
                              renewal.forfeit_pk renewal.cosigner_pk cosigners renewal.leaf_outputs
                              outpoint v;
                      } in
                      let submitted : Session lib =
                        send lib s (public_nonces id (lib.to_nonce_pks nonces)) in
                      let c : Sound submitted = record {
                        justified = (
                          record {
                            commitment = commitment;
                            outpoint = outpoint;
                            validated = validated;
                            graph = graph;
                            whole = w;
                            secret = nonces;
                            generated = g;
                            published = refl;
                          },
                          h.justified,
                        );
                        plan = h.plan;
                        expected = h.expected;
                        flagged = h.flagged;
                      } in
                      Keeps-fail_if lib (not (lib.submit_tree_nonces id (lib.to_nonce_pks nonces)))
                        submit_nonces_failed submitted _ c
                        (λ _.
                          Keeps-try lib in_progress (mark_signing_started s.progress id) submitted _
                            c
                            (λ progress e.
                              let step = mark_signing_started-step s.progress progress id e in
                              on (record {
                                justified = c.justified;
                                plan = planned (record { validated = validated; whole = built w });
                                expected =
                                    no_expectation lib renewal s.progress progress _ _ s.sent
                                      submitted.sent 1 h.expected step.0 (omega arith) step.1;
                                flagged = c.flagged;
                              }))))))))))
