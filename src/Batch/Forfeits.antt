-- ===== src/Batch/Forfeits.antt =====
-- `combine_forfeits` of src/batch.rs: the locally signed forfeits of a renewal with the emulator's covenant
-- signature. Base64, PSBT parsing, `Psbt::combine` and the keys of a script are the libraries'.
pub mod Returned
pub mod Combined
mod Examples
use woodland_sh.Base.{
  list_beq_iff, ◌≡◌, ◌↔◌, arith, ℕ, ◌+◌, Bool, true, false, not, ◌&&◌, ◌||◌, Option, none, some,
  List, [], ◌∷◌, if◌then◌else◌, length, get_elem?, ◌==◌, Eq, nat_eq, list_eq, contains, String,
  Result, ok, err, ◌>>=◌, ◌>>◌, reject, ok_or,
}
use woodland_sh.Base.Int.{int_beq, int_beq_iff}
use woodland_sh.Base.Dict.{Dict, get, delete}
use woodland_sh.Indexer.{OutPoint, outpoint_eq, outpoint_beq_iff}
use woodland_sh.Batch.Graph.{Txid, Tx, TxInput, is_some, output_eq}
use woodland_sh.Batch.Trees.{Key, Script}
use woodland_sh.Batch.Signatures.{
  SignatureError, SignatureLibrary, Psbt, verified_signature_for_key,
}

pub data ForfeitError : Type 0 where
  underivable_signer undecodable unparsable duplicate_forfeit missing_vtxo_input : ForfeitError
  multiple_state_forfeits changed_forfeit incompatible_forfeit omitted_state_forfeit : ForfeitError
  bad_signature : SignatureError → ForfeitError
  unexpected_signature no_state_forfeit unexpected_forfeits index_panic : ForfeitError

pub record ForfeitLibrary : Type 0 where
  pub signatures : SignatureLibrary
  pub decode_base64 : String → Option (List ℕ)
  pub deserialize : List ℕ → Option Psbt
  pub combine : Psbt → Psbt → Option Psbt
  pub extract_checksig_pubkeys : Script → List Key

abbrev pub txin_beq : TxInput → TxInput → Bool
txin_beq a b = (a.previous_output == b.previous_output) && (a.sequence == b.sequence)

pub txin_beq_iff : (a b : TxInput) → (txin_beq a b ≡ true) ↔ (a ≡ b)
txin_beq_iff a b = ground (arith, outpoint_beq_iff a.previous_output b.previous_output)

instance abbrev pub txin_eq : Eq TxInput
txin_eq = record { beq = txin_beq; beq_iff = txin_beq_iff }

-- Transactions that are equal have the same ID.
abbrev pub tx_beq : Tx → Tx → Bool
tx_beq a b =
    (a.txid == b.txid)
    && (int_beq a.version b.version
        && ((a.lock_time == b.lock_time) && ((a.inputs == b.inputs) && (a.outputs == b.outputs))))

pub tx_beq_iff : (a b : Tx) → (tx_beq a b ≡ true) ↔ (a ≡ b)
tx_beq_iff a b = ground (
  arith,
  list_beq_iff a.txid b.txid,
  int_beq_iff a.version b.version,
  list_beq_iff a.inputs b.inputs,
  list_beq_iff a.outputs b.outputs,
)

instance abbrev pub tx_eq : Eq Tx
tx_eq = record { beq = tx_beq; beq_iff = tx_beq_iff }

abbrev pub one_if : Bool → ℕ
one_if b = if b then 1 else 0

abbrev pub in_signature : Result SignatureError (Unit {0}) → Result ForfeitError (Unit {0})
in_signature (ok u) = ok u
in_signature (err e) = err (bad_signature e)

module _ (lib : ForfeitLibrary) where
  unfoldable pub read_emulator_forfeits :
      Dict Txid Psbt → List String → Result ForfeitError (Dict Txid Psbt)
  read_emulator_forfeits by_txid [] = ok by_txid
  read_emulator_forfeits by_txid (encoded ∷ rest) = do
    bytes ← ok_or (lib.decode_base64 encoded) undecodable
    psbt ← ok_or (lib.deserialize bytes) unparsable
    reject (is_some (get by_txid psbt.tx.txid)) duplicate_forfeit
    read_emulator_forfeits ((psbt.tx.txid, psbt) ∷ by_txid) rest

  -- The emulator's forfeit of this transaction, merged into ours; only the state's must be there.
  unfoldable pub merge_forfeit : Option Psbt → Bool → Psbt → Result ForfeitError Psbt
  merge_forfeit (some theirs) is_state ours = do
    reject (not (ours.tx == theirs.tx)) changed_forfeit
    ok_or (lib.combine ours theirs) incompatible_forfeit
  merge_forfeit none is_state ours = do reject is_state omitted_state_forfeit; ok ours

  unfoldable pub require_signature_if : Bool → Psbt → Psbt → Key → Result ForfeitError (Unit {0})
  require_signature_if false ours combined signer_key = ok tt
  require_signature_if true ours combined signer_key =
      in_signature
        (verified_signature_for_key lib.signatures ours combined 1 signer_key >>= λ _. ok tt)

  unfoldable pub is_owner_expected : Key → Option Script → Bool
  is_owner_expected owner_pk none = false
  is_owner_expected owner_pk (some script) = contains (lib.extract_checksig_pubkeys script) owner_pk

  -- One of our forfeits, with the emulator's that are left; the second result says whether it is the state's.
  unfoldable pub complete_forfeit :
      Key → Key → OutPoint → Dict Txid Psbt → Bool → Psbt → Result ForfeitError (Psbt × Bool)
  unfolding merge_forfeit require_signature_if is_owner_expected
  complete_forfeit owner_pk tweaked_emulator state_outpoint by_txid state_seen ours = do
    spent ← ok_or (get_elem? ours.tx.inputs 1) missing_vtxo_input
    let is_state = spent.previous_output == state_outpoint
    reject (is_state && state_seen) multiple_state_forfeits
    combined ← merge_forfeit (get by_txid ours.tx.txid) is_state ours
    require_signature_if is_state ours combined tweaked_emulator
    input ← ok_or (get_elem? ours.inputs 1) index_panic
    let owner_sig_expected = is_owner_expected owner_pk input.witness_script
    require_signature_if owner_sig_expected ours combined owner_pk
    signed ← ok_or (get_elem? combined.inputs 1) index_panic
    reject (not (length signed.tap_script_sigs == one_if is_state + one_if owner_sig_expected))
        unexpected_signature
    ok (combined, is_state)

  -- The loop: what is complete, whether the state was seen, and what is left of the emulator's.
  unfoldable pub complete_forfeits :
      Key
      → Key
      → OutPoint
      → Dict Txid Psbt
      → Bool
      → List Psbt
      → Result ForfeitError (List Psbt × Bool × Dict Txid Psbt)
  unfolding complete_forfeit
  complete_forfeits owner_pk tweaked_emulator state_outpoint by_txid state_seen [] =
      ok ([], state_seen, by_txid)
  complete_forfeits owner_pk tweaked_emulator state_outpoint by_txid state_seen (ours ∷ rest) = do
    done ← complete_forfeit owner_pk tweaked_emulator state_outpoint by_txid state_seen ours
    later ←
        complete_forfeits owner_pk tweaked_emulator state_outpoint (delete by_txid ours.tx.txid)
          (state_seen || done.1) rest
    ok (done.0 ∷ later.0, later.1, later.2)

  unfoldable pub combine_forfeits :
      Key → List Psbt → List String → Option Key → OutPoint → Result ForfeitError (List Psbt)
  unfolding read_emulator_forfeits complete_forfeits
  combine_forfeits owner_pk local emulator_signed tweaked state_outpoint = do
    tweaked_emulator ← ok_or tweaked underivable_signer
    by_txid ← read_emulator_forfeits [] emulator_signed
    done ← complete_forfeits owner_pk tweaked_emulator state_outpoint by_txid false local
    reject (not done.1) no_state_forfeit
    reject (not (length done.2 == 0)) unexpected_forfeits
    ok done.0
