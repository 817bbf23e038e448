-- ===== src/Batch/Session/Ordered.antt =====
-- The order in which `join_registered_batch` of src/batch.rs sends its messages.
use woodland_sh.Base.{
  ℕ, suc, ◌<◌, ◌||◌, not, List, [], ◌∷◌, leb, length, nat_eq, list_eq, string_eq, contains, String,
  ◌≡◌, arith,
}
use woodland_sh.Base.Int.{ℤ}
use woodland_sh.Batch.Graph.{Txid, Chunk, max_batch_graph_nodes}
use woodland_sh.Batch.Trees.{Key, validate_vtxo_tree}
use woodland_sh.Batch.Signatures.{Psbt}
use woodland_sh.Batch.Forfeits.{tx_eq}
use woodland_sh.Batch.Expiry.{validate_batch_expiry}
use woodland_sh.Batch.Progress.{
  is_start, begin_batch, accepts_tree_chunk, accepts_tree_signature, accepts_signing_start,
  mark_signing_started,
}
use woodland_sh.Batch.Progress.Stage
use woodland_sh.Batch.Progress.Stage.{stage}
use woodland_sh.Batch.Session.{
  in_expiry, in_progress, in_tree, confirm_failed, unexpected_chunk, too_many_nodes, no_graph,
  unknown_transaction, apply_failed, not_a_cosigner, no_chunks, no_expiry, graph_failed,
  nonces_failed, submit_nonces_failed, TreeKind, vtxo, connector, RenewalOutcome, SessionLibrary,
  Renewal,
}
use woodland_sh.Batch.Session.Keeps.{Keeps, on, Keeps-try, Keeps-need, Keeps-fail_if, Keeps-skip_if}
use woodland_sh.Batch.Session.Handlers
use woodland_sh.Batch.Session.Handlers.{
  Event, stream_started, heartbeat, tree_nonces_aggregated, batch_started, tree_tx, tree_signature,
  tree_signing_started, tree_nonces, batch_finalization, batch_finalized, batch_failed_event, Next,
  continues, returned, failed, Session, Sent, confirmation, public_nonces, partial_signatures,
  emulator_request, signed_forfeits, initial, send,
}

module _ (lib : SessionLibrary) (renewal : Renewal) where
  -- The protocol: registration is confirmed, then the nonces, the partial signatures, the forfeits for the
  -- emulator and those for arkd.
  abbrev pub place : Sent lib → ℕ
  place (confirmation id) = 1
  place (public_nonces id nonces) = 2
  place (partial_signatures id partial) = 3
  place (emulator_request forfeits connectors commitment) = 4
  place (signed_forfeits complete) = 5

  -- Each message of a log, the last first, stands at its place.
  abbrev pub IsOrdered : List (Sent lib) → Type 0
  IsOrdered [] = Unit
  IsOrdered (message ∷ before) = (place message ≡ suc (length before)) × IsOrdered before

  abbrev pub InOrder : Session lib → Type 0
  InOrder s = IsOrdered s.sent

  -- A session that goes on has sent as many messages as its progress says.
  pub record IsPhased (s : Session lib) : Type 0 where
    pub ordered : IsOrdered s.sent
    pub count : length s.sent ≡ stage s.progress
    pub possible : stage s.progress < 9

  abbrev pub IsAllSent : RenewalOutcome → Session lib → Type 0
  IsAllSent outcome s = length s.sent ≡ 5

  abbrev pub Stays : Next lib → Type 0
  Stays = Keeps lib InOrder IsPhased IsAllSent

  pub on_batch_started_lem :
      (now : ℤ) (s : Session lib) (id : String) (hashes : List String) (expiry : ℕ)
      → IsPhased s
      → Stays (Handlers.on_batch_started lib renewal now s id hashes expiry)
  unfolding Handlers.on_batch_started
  on_batch_started_lem now s id hashes expiry h =
      Keeps-skip_if lib (not (is_start s.progress)) s _ h (λ begins.
        Keeps-skip_if lib (not (contains hashes (lib.sha256_hex renewal.intent_id))) s _ h (λ _.
          Keeps-try lib in_expiry
            (validate_batch_expiry (lib.to_relative_lock_time expiry) renewal.input_expires_at now)
            s _ h.ordered
            (λ _ _.
              let confirmed : Session lib = send lib s (confirmation renewal.intent_id) in
              let first : stage s.progress ≡ 0 =
                Stage.stage-is_start s.progress h.possible (ground (arith, begins)) in
              let sent : InOrder confirmed = (omega (arith, h.count, first), h.ordered) in
              Keeps-fail_if lib (not (lib.confirm_registration renewal.intent_id)) confirm_failed
                confirmed _ sent
                (λ _.
                  Keeps-try lib in_progress (begin_batch s.progress id) confirmed _ sent
                    (λ progress e.
                      let next = Stage.stage-begin_batch s.progress progress id first e in
                      on (record {
                        ordered = sent;
                        count = omega (arith, h.count, first, next);
                        possible = omega (arith, next);
                      }))))))

  pub on_tree_tx_lem :
      (s : Session lib) (id : String) (kind : TreeKind) (chunk : Chunk)
      → IsPhased s
      → Stays (Handlers.on_tree_tx lib renewal s id kind chunk)
  unfolding Handlers.on_tree_tx
  on_tree_tx_lem s id vtxo chunk h =
      Keeps-skip_if lib (not (accepts_tree_chunk s.progress id)) s _ h (λ _.
        Keeps-need lib s.vtxo_chunks unexpected_chunk s _ h.ordered (λ chunks _.
          Keeps-fail_if lib (leb max_batch_graph_nodes (length chunks)) too_many_nodes s _ h.ordered
            (λ _. on (record { ordered = h.ordered; count = h.count; possible = h.possible }))))
  on_tree_tx_lem s id connector chunk h =
      Keeps-skip_if lib (not (accepts_tree_chunk s.progress id)) s _ h (λ _.
        Keeps-need lib s.connector_chunks unexpected_chunk s _ h.ordered (λ chunks _.
          Keeps-fail_if lib (leb max_batch_graph_nodes (length chunks)) too_many_nodes s _ h.ordered
            (λ _. on (record { ordered = h.ordered; count = h.count; possible = h.possible }))))

  pub on_tree_signature_lem :
      (s : Session lib) (id : String) (kind : TreeKind) (txid : Txid) (signature : List ℕ)
      → IsPhased s
      → Stays (Handlers.on_tree_signature lib renewal s id kind txid signature)
  unfolding Handlers.on_tree_signature
  on_tree_signature_lem s id kind txid signature h =
      Keeps-skip_if lib
        (not (accepts_tree_signature s.progress id) || not (Handlers.is_vtxo lib renewal kind)) s _
        h
        (λ _. Keeps-need lib s.vtxo_graph no_graph s _ h.ordered (λ graph _.
          Keeps-fail_if lib (not (lib.find graph txid)) unknown_transaction s _ h.ordered (λ _.
            Keeps-need lib (lib.set_signature graph txid signature) apply_failed s _ h.ordered
              (λ signed _.
                on (record { ordered = h.ordered; count = h.count; possible = h.possible })))))

  pub on_signing_started_lem :
      (s : Session lib) (id : String) (cosigners : List Key) (commitment : Psbt)
      → IsPhased s
      → Stays (Handlers.on_signing_started lib renewal s id cosigners commitment)
  unfolding Handlers.on_signing_started
  on_signing_started_lem s id cosigners commitment h =
      Keeps-skip_if lib (not (accepts_signing_start s.progress id)) s _ h (λ begins.
        Keeps-fail_if lib (not (contains cosigners renewal.cosigner_pk)) not_a_cosigner s _
          h.ordered
          (λ _. Keeps-need lib s.vtxo_chunks no_chunks s _ h.ordered (λ chunks _.
            Keeps-need lib s.batch_expiry no_expiry s _ h.ordered (λ expiry _.
              Keeps-try lib in_tree
                (validate_vtxo_tree lib.batch chunks commitment.tx expiry renewal.forfeit_pk
                  renewal.cosigner_pk cosigners renewal.leaf_outputs)
                s _ h.ordered
                (λ outpoint _.
                  Keeps-need lib (lib.new_graph chunks) graph_failed s _ h.ordered (λ graph _.
                    Keeps-need lib (lib.generate_nonce_tree graph commitment) nonces_failed s _
                      h.ordered
                      (λ nonces _.
                        let submitted : Session lib =
                          send lib s (public_nonces id (lib.to_nonce_pks nonces)) in
                        let second : stage s.progress ≡ 1 =
                          Stage.stage-accepts_signing_start s.progress id h.possible
                            (ground (arith, begins)) in
                        let sent : InOrder submitted =
                          (omega (arith, h.count, second), h.ordered) in
                        Keeps-fail_if lib
                          (not (lib.submit_tree_nonces id (lib.to_nonce_pks nonces)))
                          submit_nonces_failed submitted _ sent
                          (λ _.
                            Keeps-try lib in_progress (mark_signing_started s.progress id) submitted
                              _ sent
                              (λ progress e.
                                let next =
                                  Stage.stage-mark_signing_started s.progress progress id second
                                    e in
                                on (record {
                                  ordered = sent;
                                  count = omega (arith, h.count, second, next);
                                  possible = omega (arith, next);
                                }))))))))))
