-- ===== src/Batch/Session/Justified.antt =====
-- What stands behind each message that `join_registered_batch` of src/batch.rs sends.
use woodland_sh.Base.{
  ℕ, ◌<◌, Bool, true, false, Option, none, some, List, [], ◌∷◌, map, length, nat_eq, list_eq,
  string_eq, contains, String, ok, ok_or, >>=-eq-ok, ok_or-eq-ok, ◌∙◌, ◌≡◌, refl, sym, subst, All,
  arith,
}
use woodland_sh.Base.Dict.{Dict}
use woodland_sh.Indexer.{OutPoint}
use woodland_sh.Batch.Graph.{Txid, Tx, Chunk, Nodes}
use woodland_sh.Batch.Graph.Accepts.{IsGraph}
use woodland_sh.Batch.Trees.{Key}
use woodland_sh.Batch.Trees.Vtxo.{IsVtxoTree}
use woodland_sh.Batch.Trees.Connector.{childless, IsConnectorNode}
use woodland_sh.Batch.Signatures.{Psbt, verify_vtxo_tree_signatures}
use woodland_sh.Batch.Forfeits.{underivable_signer, tx_eq, combine_forfeits}
use woodland_sh.Batch.Forfeits.Combined.{IsCombined, combine_forfeits_lem}
use woodland_sh.Batch.Progress.{BatchProgress, step_number}
use woodland_sh.Batch.Session.{EmulatorNode, SessionLibrary, Renewal, emulator_tree_node}
use woodland_sh.Batch.Session.Handlers
use woodland_sh.Batch.Session.Handlers.{
  Session, Sent, confirmation, public_nonces, partial_signatures, emulator_request, signed_forfeits,
  initial, send,
}

pub some-injective : {A : Type 0} {a b : A} → some a ≡ some b → a ≡ b
some-injective h = cc

module _ (lib : SessionLibrary) (renewal : Renewal) where
  -- The commitment's VTXO tree has been validated, with our key among the batch's cosigners, and this is
  -- the outpoint it renews the state to.
  pub record IsValidated (commitment : Tx) (outpoint : OutPoint) : Type 0 where
    pub chunks : List Chunk
    pub batch_expiry : ℕ
    pub cosigners : List Key
    pub ours : contains cosigners renewal.cosigner_pk ≡ true
    pub tree :
        IsVtxoTree lib.batch chunks commitment batch_expiry renewal.forfeit_pk renewal.cosigner_pk
          cosigners renewal.leaf_outputs outpoint

  -- The graph of these chunks, with signatures set in it.
  pub data IsGraphOf (chunks : List Chunk) : lib.TxGraph → Type 0 where
    built : {graph : lib.TxGraph} → lib.new_graph chunks ≡ some graph → IsGraphOf chunks graph
    signed_in :
        {graph signed : lib.TxGraph} (txid : Txid) (signature : List ℕ)
        → lib.set_signature graph txid signature ≡ some signed
        → IsGraphOf chunks graph
        → IsGraphOf chunks signed

  -- Nonces are made for a validated commitment, over the graph of all the chunks of its tree.
  pub record IsNonceOf (nonces : lib.PublicNonces) : Type 0 where
    pub commitment : Psbt
    pub outpoint : OutPoint
    pub validated : IsValidated commitment.tx outpoint
    pub graph : lib.TxGraph
    pub whole : lib.new_graph validated.chunks ≡ some graph
    pub secret : lib.Nonces
    pub generated : lib.generate_nonce_tree graph commitment ≡ some secret
    pub published : lib.to_nonce_pks secret ≡ nonces

  -- Partial signatures are made over a validated commitment and the graph of all the chunks of its tree.
  pub record IsPartialOf (partial : lib.PartialTree) : Type 0 where
    pub commitment : Psbt
    pub outpoint : OutPoint
    pub validated : IsValidated commitment.tx outpoint
    pub expiry : ℕ
    pub graph : lib.TxGraph
    pub whole : IsGraphOf validated.chunks graph
    pub aggregates : Dict Txid lib.Aggregate
    pub nonces : lib.Nonces
    pub rest : lib.Nonces
    pub signed :
        Handlers.sign_tree lib renewal expiry graph commitment aggregates
          (lib.as_map graph)
          nonces
          lib.no_partials
        ≡ ok (partial, rest)

  -- Forfeits are released for a validated commitment, with the signatures of all the transactions of its tree
  -- verified, against a validated connector tree with one leaf for each input. They are the forfeits of the
  -- renewal's inputs against the leaves of that tree.
  pub record IsRelease (forfeits : List Psbt) (connectors : List EmulatorNode) (commitment : Tx)
      : Type 0 where
    pub outpoint : OutPoint
    pub validated : IsValidated commitment outpoint
    pub graph : lib.TxGraph
    pub whole : IsGraphOf validated.chunks graph
    pub signed :
        verify_vtxo_tree_signatures lib.forfeits.signatures (lib.as_map graph) commitment ≡ ok tt
    pub chunks : List Chunk
    pub same : connectors ≡ map (emulator_tree_node lib.encode_chunk) chunks
    pub connector_nodes : (nodes : Nodes) × IsGraph lib.batch.anchor chunks commitment 1 nodes
    pub leaves : childless chunks ≡ length renewal.inputs
    pub spendable : All (IsConnectorNode lib.batch renewal.dust_sats) chunks
    pub connector_graph : lib.TxGraph
    pub connectors_whole : lib.new_graph chunks ≡ some connector_graph
    pub made :
        lib.create_and_sign_forfeit_txs
          (Handlers.forfeit_sign lib renewal)
          renewal.inputs
          (lib.leaves connector_graph)
          renewal.dust_sats
        ≡ some forfeits

  -- The forfeits handed to arkd are those that went to the emulator, combined with what it returned.
  pub record IsCombination (local : List Psbt) (connectors : List EmulatorNode) (commitment : Psbt)
      (complete : List Psbt) : Type 0 where
    pub approved : List String
    pub answered :
        lib.submit_finalization (map lib.encode_psbt local) connectors (lib.encode_psbt commitment)
        ≡ some approved
    pub emulator : Key
    pub signer : renewal.emulator_signer ≡ some emulator
    pub combined :
        IsCombined lib.forfeits renewal.owner_pk local approved emulator renewal.state_outpoint
          complete

  -- The message before this one was a request to the emulator, for the forfeits that are combined.
  abbrev pub IsAfterRequest : List (Sent lib) → List Psbt → Type 0
  IsAfterRequest (emulator_request forfeits connectors commitment ∷ before) complete =
      IsCombination forfeits connectors commitment complete
  IsAfterRequest _ complete = ⊥

  abbrev pub IsJustified : List (Sent lib) → Sent lib → Type 0
  IsJustified before (confirmation id) = id ≡ renewal.intent_id
  IsJustified before (public_nonces id nonces) = IsNonceOf nonces
  IsJustified before (partial_signatures id partial) = IsPartialOf partial
  IsJustified before (emulator_request forfeits connectors commitment) =
      IsRelease forfeits connectors commitment.tx
  IsJustified before (signed_forfeits complete) = IsAfterRequest before complete

  -- Every message of the log, the last first.
  abbrev pub IsJustifiedLog : List (Sent lib) → Type 0
  IsJustifiedLog [] = Unit
  IsJustifiedLog (message ∷ before) = IsJustified before message × IsJustifiedLog before

  -- What is noted of the batch once it is validated.
  pub record IsPlan (commitment : Tx) (outpoint : OutPoint) (graph : lib.TxGraph) : Type 0 where
    pub validated : IsValidated commitment outpoint
    pub whole : IsGraphOf validated.chunks graph

  -- Commitment, outpoint and graph are noted together, once they are validated.
  pub data IsPlanned : Option Psbt → Option OutPoint → Option lib.TxGraph → Type 0 where
    unplanned : IsPlanned none none none
    planned :
        {commitment : Psbt} {outpoint : OutPoint} {graph : lib.TxGraph}
        → IsPlan commitment.tx outpoint graph
        → IsPlanned (some commitment) (some outpoint) (some graph)

  -- A request to the emulator is in the log; so are forfeits for arkd.
  abbrev pub has_released : List (Sent lib) → Bool
  has_released [] = false
  has_released (emulator_request forfeits connectors commitment ∷ rest) = true
  has_released (message ∷ rest) = has_released rest

  abbrev pub has_signed : List (Sent lib) → Bool
  has_signed [] = false
  has_signed (signed_forfeits complete ∷ rest) = true
  has_signed (message ∷ rest) = has_signed rest

  -- The commitment that is waited for is the noted one, after the forfeits have gone out.
  abbrev pub IsExpected : BatchProgress → Option Psbt → List (Sent lib) → Type 0
  IsExpected progress commitment sent =
      (txid : Txid)
      → progress.expected_commitment_txid ≡ some txid
      → (step_number progress.step ≡ 3)
        × (c : Psbt) × (commitment ≡ some c)
        × (c.tx.txid ≡ txid)
        × (has_signed sent ≡ true)

  pub record IsSound (s : Session lib) : Type 0 where
    pub justified : IsJustifiedLog s.sent
    pub plan : IsPlanned s.unsigned_commitment_tx s.renewed_outpoint s.vtxo_graph
    pub expected : IsExpected s.progress s.unsigned_commitment_tx s.sent
    pub flagged : s.forfeits_released ≡ has_released s.sent

  pub initial-IsSound : IsSound (initial lib)
  initial-IsSound = record {
    justified = tt;
    plan = unplanned;
    expected = λ txid e. cc;
    flagged = refl;
  }

  pub planned_of :
      (commitment : Psbt) (unsigned : Option Psbt) (renewed : Option OutPoint)
      (noted : Option lib.TxGraph)
      → IsPlanned unsigned renewed noted
      → unsigned ≡ some commitment
      → (outpoint : OutPoint) × (graph : lib.TxGraph) × (renewed ≡ some outpoint)
        × (noted ≡ some graph)
        × IsPlan commitment.tx outpoint graph
  planned_of commitment unsigned renewed noted unplanned e = cc
  planned_of commitment unsigned renewed noted
        (planned {commitment = c} {outpoint = outpoint} {graph = graph} plan) e =
      (
        outpoint,
        graph,
        refl,
        refl,
        subst (λ (x : Psbt). IsPlan x.tx outpoint graph) {x = c} {y = commitment} (ground arith)
            plan,
      )

  -- The same, where the graph is known.
  pub planned-IsPlan :
      (commitment : Psbt) (graph : lib.TxGraph) (unsigned : Option Psbt) (renewed : Option OutPoint)
      (noted : Option lib.TxGraph)
      → IsPlanned unsigned renewed noted
      → unsigned ≡ some commitment
      → noted ≡ some graph
      → (outpoint : OutPoint) × IsPlan commitment.tx outpoint graph
  planned-IsPlan commitment graph unsigned renewed noted p e g =
      let found = planned_of commitment unsigned renewed noted p e in
      (
        found.0,
        subst (IsPlan commitment.tx found.0) {x = found.1} {y = graph}
            (some-injective (sym found.3 ∙ g)) found.4,
      )

  -- A signature is set in the noted graph.
  pub IsPlanned-signed :
      (unsigned : Option Psbt) (renewed : Option OutPoint) (noted : Option lib.TxGraph)
      (graph signed : lib.TxGraph) (txid : Txid) (signature : List ℕ)
      → IsPlanned unsigned renewed noted
      → noted ≡ some graph
      → lib.set_signature graph txid signature ≡ some signed
      → IsPlanned unsigned renewed (some signed)
  IsPlanned-signed unsigned renewed noted graph signed txid signature unplanned e g = cc
  IsPlanned-signed unsigned renewed noted graph signed txid signature (planned {graph = held} plan)
        e g =
      planned (record {
        validated = plan.validated;
        whole = signed_in txid signature g (
            subst (IsGraphOf plan.validated.chunks) {x = held} {y = graph} (some-injective e)
              plan.whole);
      })

  -- A state before the last step waits for no commitment yet.
  pub no_expectation :
      (p q : BatchProgress) (u u' : Option Psbt) (sent sent' : List (Sent lib)) (n : ℕ)
      → IsExpected p u sent
      → step_number p.step ≡ n
      → n < 3
      → q.expected_commitment_txid ≡ p.expected_commitment_txid
      → IsExpected q u' sent'
  no_expectation p q u u' sent sent' n x s lt e txid h =
      absurd (omega (arith, (x txid (sym e ∙ h)).0, s))

  pub combine_forfeits-IsCombination :
      (local complete : List Psbt) (connectors : List EmulatorNode) (commitment : Psbt)
      (approved : List String)
      → lib.submit_finalization (map lib.encode_psbt local) connectors (lib.encode_psbt commitment)
        ≡ some approved
      → combine_forfeits lib.forfeits renewal.owner_pk local approved renewal.emulator_signer
          renewal.state_outpoint
        ≡ ok complete
      → IsCombination local connectors commitment complete
  unfolding combine_forfeits
  combine_forfeits-IsCombination local complete connectors commitment approved answered h =
      let first = >>=-eq-ok (ok_or renewal.emulator_signer underivable_signer) _ h in
      record {
        approved = approved;
        answered = answered;
        emulator = first.0;
        signer = ok_or-eq-ok renewal.emulator_signer underivable_signer first.1;
        combined =
            combine_forfeits_lem lib.forfeits renewal.owner_pk local complete approved first.0
              renewal.state_outpoint first.2;
      }
