-- ===== src/Batch/Session/Examples.antt =====
-- A whole renewal through the event loop of src/batch.rs, and one that fails after its forfeits are out.
use woodland_sh.Base.{
  ℕ, not, ◌&&◌, ◌⊎◌, true, false, none, some, List, [], ◌∷◌, ◌++◌, map, length, ◌≡◌, refl,
}
use woodland_sh.Base.Int.{ℤ, pos}
use woodland_sh.Base.Dict.{get, delete}
use woodland_sh.Indexer.{OutPoint}
use woodland_sh.Batch.Expiry.{validate_batch_expiry, by_time}
use woodland_sh.Batch.Progress.{
  is_start, matches_batch, begin_batch, accepts_tree_chunk, accepts_signing_start,
  mark_signing_started, accepts_nonces, mark_tree_signatures_submitted, accepts_finalization,
  mark_finalization_submitted, finalize,
}
use woodland_sh.Batch.Graph.{Tx, Chunk}
use woodland_sh.Batch.Graph.Samples.{p2tr, anchor, commitment, parent, child, pay, node}
use woodland_sh.Batch.Trees.{validate_vtxo_tree, validate_connector_tree, Key}
use woodland_sh.Batch.Signatures.{
  verify_vtxo_tree_signatures, Signature, Psbt, PsbtInput, verified_signature_for_key,
}
use woodland_sh.Batch.Forfeits.{combine_forfeits}
use woodland_sh.Batch.Session.{SessionLibrary, Renewal, RenewalOutcome, vtxo, connector}
use woodland_sh.Batch.Session.Handlers.{
  Event, batch_started, tree_tx, tree_signing_started, tree_nonces, batch_finalization,
  batch_finalized, heartbeat, initial, run, returned,
}
use woodland_sh.Batch.Session.Justified.{IsJustifiedLog, has_released}
use woodland_sh.Batch.Session.Sound.{IsRenewed}
use woodland_sh.Batch.Session.Ordered.{IsOrdered}
use woodland_sh.Batch.Session.Protocol.{has_returned, run-IsOrdered}
use woodland_sh.Batch.Session.Outcome.{
  is_cleaned_up, is_renewed, timed_out, to_reconcile, cleaned_up, join_batch, last_session,
  run-IsJustified, run-IsRenewed, join_batch-cleanup,
}

abbrev own : Key
own = 40 ∷ []

abbrev state_outpoint : OutPoint
state_outpoint = record { txid = 20 ∷ []; vout = 0 }

abbrev blank : PsbtInput
blank = record {
  tap_script = none;
  tap_script_sigs = [];
  tap_key_sig = some (record { bytes = []; sighash_type = 0 });
  witness_utxo = some (pay 5);
  witness_script = none;
}

abbrev forfeit : List ((List ℕ × List ℕ) × Signature) → Psbt
forfeit signatures = record {
  tx = record {
    txid = 50 ∷ [];
    version = pos 3;
    lock_time = 0;
    inputs =
        record { previous_output = record { txid = 6 ∷ []; vout = 0 }; sequence = 0 }
        ∷ record { previous_output = state_outpoint; sequence = 0 }
        ∷ [];
    outputs = [];
  };
  inputs =
      blank
      ∷ record blank {
        tap_script = some (3 ∷ [], 192);
        tap_script_sigs = signatures;
        witness_script = some (3 ∷ []);
      }
      ∷ [];
}

abbrev signed_by : Key → (List ℕ × List ℕ) × Signature
signed_by key = ((key, 3 ∷ []), record { bytes = key; sighash_type = 0 })

abbrev psbt : Tx → Psbt
psbt tx = record { tx = tx; inputs = blank ∷ [] }

abbrev lib : SessionLibrary
lib = record {
  TxGraph = List Chunk;
  Nonces = Unit;
  PublicNonces = Unit;
  Received = Unit;
  Aggregate = Unit;
  PartialTree = ℕ;
  batch = record {
    anchor = anchor;
    cosigner_prefix = 5 ∷ [];
    parse_key = λ bytes. some bytes;
    tree_script = λ keys expiry forfeit_pk. some p2tr;
    is_p2tr = λ script. true;
  };
  forfeits = record {
    signatures = record {
      leaf_hash = λ script version. script;
      script_hash = λ tx i prevouts leaf kind. some (9 ∷ []);
      key_hash = λ tx i prevouts kind. some (9 ∷ []);
      parse_xonly = λ bytes. some bytes;
      verify_schnorr = λ signature message key. true;
    };
    decode_base64 = λ text. some [];
    deserialize = λ bytes. some (forfeit (signed_by (60 ∷ []) ∷ []));
    combine = λ ours theirs. some (forfeit (signed_by own ∷ signed_by (60 ∷ []) ∷ []));
    extract_checksig_pubkeys = λ script. own ∷ (60 ∷ []) ∷ [];
  };
  to_relative_lock_time = λ sequence. some (by_time sequence);
  sha256_hex = λ text. text;
  new_graph = λ chunks. some chunks;
  find = λ graph txid. true;
  set_signature = λ graph txid signature. some graph;
  nb_of_nodes = λ graph. length graph;
  as_map = λ graph. map (λ (chunk : Chunk). (chunk.tx.txid, psbt chunk.tx)) graph;
  leaves = λ graph. [];
  generate_nonce_tree = λ graph commitment_tx. some tt;
  to_nonce_pks = λ nonces. tt;
  has_nonce = λ nonces key. true;
  aggregate_nonces = λ nonces. tt;
  sign_batch_tree_tx = λ txid expiry key aggregate graph commitment_tx nonces. some (1, tt);
  no_partials = 0;
  extend = λ a b. b;
  create_and_sign_forfeit_txs = λ sign inputs leaves dust. some (forfeit (signed_by own ∷ []) ∷ []);
  encode_psbt = λ p. "psbt";
  encode_chunk = λ c. "chunk";
  confirm_registration = λ id. true;
  submit_tree_nonces = λ id nonces. true;
  submit_tree_signatures = λ id partial. true;
  submit_finalization = λ forfeits nodes commitment_tx. some ("" ∷ []);
  submit_signed_forfeit_txs = λ complete. true;
}

abbrev renewal : Renewal
renewal = record {
  intent_id = "intent";
  inputs = state_outpoint ∷ [];
  state_outpoint = state_outpoint;
  input_expires_at = pos 1000;
  leaf_outputs = pay 20 ∷ [];
  cosigner_pk = own;
  cosigner_xonly = own;
  owner_pk = own;
  forfeit_pk = 70 ∷ [];
  emulator_signer = some (60 ∷ []);
  dust_sats = 5;
}

abbrev leaf_connector : Chunk
leaf_connector = record {
  txid = none;
  tx = node 6 1 1 (pay 5 ∷ anchor ∷ []);
  children = [];
  unknown = none;
}

-- Up to the finalization.
abbrev events : List (ℤ × Event lib)
events =
    (pos 0, heartbeat)
    ∷ (pos 0, batch_started "batch" ("intent" ∷ []) 144)
    ∷ (pos 0, tree_tx "batch" vtxo parent)
    ∷ (pos 0, tree_tx "batch" vtxo (child 1 20))
    ∷ (pos 0, tree_tx "batch" connector leaf_connector)
    ∷ (pos 0, tree_signing_started "batch" (own ∷ []) (psbt commitment))
    ∷ (pos 0, tree_nonces "batch" (2 ∷ []) tt)
    ∷ (pos 0, tree_nonces "batch" (4 ∷ []) tt)
    ∷ (pos 0, batch_finalization "batch" (psbt commitment))
    ∷ []

abbrev all_events : List (ℤ × Event lib)
all_events = events ++ ((pos 0, batch_finalized "batch" (1 ∷ [])) ∷ [])

abbrev outcome : RenewalOutcome
outcome = record { commitment_txid = 1 ∷ []; outpoint = record { txid = 4 ∷ []; vout = 0 } }

whole_run :
    run lib renewal (initial lib) all_events
    ≡ returned outcome (last_session lib renewal all_events)
unfolding run validate_batch_expiry is_start matches_batch begin_batch accepts_tree_chunk
    accepts_signing_start mark_signing_started accepts_nonces mark_tree_signatures_submitted
    accepts_finalization mark_finalization_submitted finalize get delete verified_signature_for_key
    validate_vtxo_tree verify_vtxo_tree_signatures validate_connector_tree combine_forfeits
whole_run = refl

cut_off : join_batch lib renewal events true ≡ to_reconcile timed_out
unfolding join_batch validate_batch_expiry is_start matches_batch begin_batch accepts_tree_chunk
    accepts_signing_start mark_signing_started accepts_nonces mark_tree_signatures_submitted
    accepts_finalization mark_finalization_submitted finalize get delete verified_signature_for_key
    validate_vtxo_tree verify_vtxo_tree_signatures validate_connector_tree combine_forfeits
cut_off = refl

no_batch : join_batch lib renewal ((pos 0, heartbeat) ∷ []) true ≡ cleaned_up timed_out
unfolding join_batch validate_batch_expiry is_start matches_batch begin_batch accepts_tree_chunk
    accepts_signing_start mark_signing_started accepts_nonces mark_tree_signatures_submitted
    accepts_finalization mark_finalization_submitted finalize get delete verified_signature_for_key
    validate_vtxo_tree verify_vtxo_tree_signatures validate_connector_tree combine_forfeits
no_batch = refl

run-IsJustified_example : IsJustifiedLog lib renewal (last_session lib renewal all_events).sent
run-IsJustified_example = run-IsJustified lib renewal all_events

run-IsOrdered_example :
    IsOrdered lib renewal (last_session lib renewal all_events).sent
    × ((has_returned lib renewal (run lib renewal (initial lib) all_events) ≡ false)
        ⊎ (length (last_session lib renewal all_events).sent ≡ 5))
run-IsOrdered_example = run-IsOrdered lib renewal all_events

run-IsRenewed_example : IsRenewed lib renewal outcome (last_session lib renewal all_events)
run-IsRenewed_example =
    run-IsRenewed lib renewal all_events outcome (last_session lib renewal all_events) whole_run

join_batch-cleanup_example : is_cleaned_up lib (join_batch lib renewal events true) ≡ (
    not (is_renewed lib (join_batch lib renewal events true))
    && not (has_released lib renewal (last_session lib renewal events).sent))
join_batch-cleanup_example = join_batch-cleanup lib renewal events true
