-- ===== src/Batch/Session.antt =====
-- `join_registered_batch` of src/batch.rs: the event loop of a renewal in its batch, one handler per event.
-- The events are the parsed ones, each with the time at which it is handled; the trees' MuSig2 signing,
-- the graph type and the forfeit builder are `ark_core`'s, and the answers of arkd and the emulator are
-- the services'. Nothing is sent without a trace in the session's log, which the code does not keep.
pub mod Handlers
pub mod Keeps
pub mod Justified
pub mod Sound
pub mod Released
pub mod Ordered
pub mod Protocol
pub mod Outcome
mod Examples
use woodland_sh.Base.{
  ℕ, suc, ◌+◌, Bool, true, false, not, ◌&&◌, ◌||◌, Option, none, some, List, [], ◌∷◌, ◌++◌, map,
  leb, if◌then◌else◌, length, ◌==◌, Eq, nat_eq, list_eq, string_eq, contains, String, Result, ok,
  err, ◌>>=◌, ok_or,
}
use woodland_sh.Base.Int.{ℤ}
use woodland_sh.Base.Dict.{Dict, get}
use woodland_sh.Indexer.{OutPoint, TxOutput}
use woodland_sh.Batch.Graph.{Txid, Tx, Chunk, is_some, max_batch_graph_nodes}
use woodland_sh.Batch.Trees.{
  TreeError, Key, Script, BatchLibrary, validate_vtxo_tree, validate_connector_tree,
}
use woodland_sh.Batch.Signatures.{SignatureError, Psbt, verify_vtxo_tree_signatures}
use woodland_sh.Batch.Forfeits.{ForfeitError, ForfeitLibrary, tx_eq, combine_forfeits}
use woodland_sh.Batch.Expiry.{ExpiryError, LockTime, validate_batch_expiry}
use woodland_sh.Batch.Progress.{
  ProgressError, BatchProgress, default, is_start, matches_batch, begin_batch, accepts_tree_chunk,
  accepts_tree_signature, accepts_signing_start, mark_signing_started, accepts_nonces,
  mark_tree_signatures_submitted, accepts_finalization, mark_finalization_submitted, finalize,
}

pub data SessionError : Type 0 where
  in_expiry : ExpiryError → SessionError
  in_progress : ProgressError → SessionError
  in_tree : TreeError → SessionError
  in_signatures : SignatureError → SessionError
  in_forfeits : ForfeitError → SessionError
  confirm_failed unexpected_chunk too_many_nodes no_graph unknown_transaction : SessionError
  apply_failed not_a_cosigner no_chunks no_expiry graph_failed nonces_failed : SessionError
  submit_nonces_failed duplicate_nonces no_nonces no_commitment no_aggregate sign_failed :
      SessionError
  submit_signatures_failed changed_commitment forfeit_failed emulator_failed : SessionError
  submit_forfeits_failed no_outpoint batch_failed stream_closed : SessionError

pub data TreeKind : Type 0 where
  vtxo connector : TreeKind

pub record RenewalOutcome : Type 0 where
  pub commitment_txid : Txid
  pub outpoint : OutPoint

-- `EmulatorTxTreeNode`
pub record EmulatorNode : Type 0 where
  pub txid : Txid
  pub tx : String
  pub children : List (ℕ × Txid)

-- `ark_core`'s trees, and what arkd and the emulator answer.
pub record SessionLibrary : Type 1 where
  pub TxGraph : Type 0
  pub Nonces : Type 0
  pub PublicNonces : Type 0
  pub Received : Type 0  -- the nonces of one transaction, by cosigner
  pub Aggregate : Type 0
  pub PartialTree : Type 0
  pub batch : BatchLibrary
  pub forfeits : ForfeitLibrary
  pub to_relative_lock_time : ℕ → Option LockTime
  pub sha256_hex : String → String
  pub new_graph : List Chunk → Option TxGraph
  pub find : TxGraph → Txid → Bool
  pub set_signature : TxGraph → Txid → List ℕ → Option TxGraph
  pub nb_of_nodes : TxGraph → ℕ
  pub as_map : TxGraph → Dict Txid Psbt
  pub leaves : TxGraph → List Psbt
  pub generate_nonce_tree : TxGraph → Psbt → Option Nonces
  pub to_nonce_pks : Nonces → PublicNonces
  pub has_nonce : Received → Key → Bool
  pub aggregate_nonces : Received → Aggregate
  pub sign_batch_tree_tx :
      Txid → ℕ → Key → Aggregate → TxGraph → Psbt → Nonces → Option (PartialTree × Nonces)
  pub no_partials : PartialTree
  pub extend : PartialTree → PartialTree → PartialTree
  pub create_and_sign_forfeit_txs :
      (Option Script → Option Bool) → List OutPoint → List Psbt → ℕ → Option (List Psbt)
  pub encode_psbt : Psbt → String
  pub encode_chunk : Chunk → String
  pub confirm_registration : String → Bool
  pub submit_tree_nonces : String → PublicNonces → Bool
  pub submit_tree_signatures : String → PartialTree → Bool
  pub submit_finalization : List String → List EmulatorNode → String → Option (List String)
  pub submit_signed_forfeit_txs : List Psbt → Bool

-- The renewal, its keys, and the pinned service.
pub record Renewal : Type 0 where
  pub intent_id : String
  pub inputs : List OutPoint  -- the state, and the fee input if there is one
  pub state_outpoint : OutPoint
  pub input_expires_at : ℤ
  pub leaf_outputs : List TxOutput
  pub cosigner_pk : Key
  pub cosigner_xonly : Key
  pub owner_pk : Key
  pub forfeit_pk : Key
  pub emulator_signer : Option Key  -- the emulator's key, tweaked by the renewal's script
  pub dust_sats : ℕ

-- The children's IDs of a chunk are its own.
abbrev pub emulator_tree_node : (Chunk → String) → Chunk → EmulatorNode
emulator_tree_node encode chunk = record {
  txid = elim chunk.txid [ none ↦ chunk.tx.txid | some declared ↦ declared ];
  tx = encode chunk;
  children = chunk.children;
}
