-- ===== src/Batch/Signatures.antt =====
-- Signatures on PSBTs: `verified_signature_for_key` of src/txbuild.rs, and `verify_vtxo_tree_signatures` of
-- src/batch.rs. Hashing and the Schnorr check are the libraries'.
use woodland_sh.Base.{
  ℕ, Bool, true, not, ◌&&◌, ◌||◌, Option, none, some, List, [], ◌∷◌, drop, if◌then◌else◌, length,
  get_elem?, ◌==◌, Eq, nat_eq, list_eq, option_eq, list_beq_iff, ◌↔◌, Result, ok, ◌>>=◌, ◌>>◌,
  reject, subst, ok_or, ok_or-eq-ok, >>=-eq-ok, reject-eq-ok, ◌≡◌, arith,
}
use woodland_sh.Base.Dict.{Dict, get}
use woodland_sh.Indexer.{TxOutput, outpoint_eq}
use woodland_sh.Batch.Graph.{Txid, Tx}
use woodland_sh.Batch.Trees.{Key, Script}

pub data SignatureError : Type 0 where
  missing_input no_spend_script missing_signature unexpected_sighash missing_utxo : SignatureError
  no_signature_hash invalid_signature : SignatureError
  unsigned_transaction missing_parent missing_previous_output not_p2tr unreadable_key index_panic :
      SignatureError

-- A `taproot::Signature`; the default sighash type is 0.
pub record Signature : Type 0 where
  pub bytes : List ℕ
  pub sighash_type : ℕ

abbrev pub default_sighash : ℕ
default_sighash = 0

-- The signer of a script, and the hash of its leaf.
abbrev pub SignerLeaf : Type 0
SignerLeaf = List ℕ × List ℕ

abbrev pub leaf_beq : SignerLeaf → SignerLeaf → Bool
leaf_beq a b = (a.0 == b.0) && (a.1 == b.1)

pub leaf_beq_iff : (a b : SignerLeaf) → (leaf_beq a b ≡ true) ↔ (a ≡ b)
leaf_beq_iff a b = ground (arith, list_beq_iff a.0 b.0, list_beq_iff a.1 b.1)

instance abbrev pub leaf_eq : Eq SignerLeaf
leaf_eq = record { beq = leaf_beq; beq_iff = leaf_beq_iff }

pub record PsbtInput : Type 0 where
  pub tap_script : Option (Script × ℕ)  -- the first key and value of `tap_scripts`, less the control block
  pub tap_script_sigs : Dict SignerLeaf Signature
  pub tap_key_sig : Option Signature
  pub witness_utxo : Option TxOutput
  pub witness_script : Option Script

pub record Psbt : Type 0 where
  pub tx : Tx
  pub inputs : List PsbtInput

-- `bitcoin`: the leaf's hash, the two signature hashes, the public key of 32 bytes, and Schnorr signatures.
pub record SignatureLibrary : Type 0 where
  pub leaf_hash : Script → ℕ → List ℕ
  pub script_hash : Tx → ℕ → List TxOutput → List ℕ → ℕ → Option (List ℕ)
  pub key_hash : Tx → ℕ → List TxOutput → ℕ → Option (List ℕ)
  pub parse_xonly : List ℕ → Option Key
  pub verify_schnorr : List ℕ → List ℕ → Key → Bool

unfoldable pub witness_utxos : List PsbtInput → Result SignatureError (List TxOutput)
witness_utxos [] = ok []
witness_utxos (input ∷ rest) = do
  utxo ← ok_or input.witness_utxo missing_utxo
  others ← witness_utxos rest
  ok (utxo ∷ others)

abbrev pub returned_signature : Psbt → ℕ → SignerLeaf → Option Signature
returned_signature returned input_index key = elim (get_elem? returned.inputs input_index) [
  | none ↦ none
  | some input ↦ get input.tap_script_sigs key
]

module _ (lib : SignatureLibrary) where
  unfoldable pub verified_signature_for_key_with_sighash :
      Psbt → Psbt → ℕ → Key → ℕ → Result SignatureError (SignerLeaf × Signature)
  unfolding witness_utxos
  verified_signature_for_key_with_sighash expected returned input_index signer_key
        expected_sighash =
      do
        expected_input ← ok_or (get_elem? expected.inputs input_index) missing_input
        leaf ← ok_or expected_input.tap_script no_spend_script
        signature ←
            ok_or
              (returned_signature returned input_index (signer_key, lib.leaf_hash leaf.0 leaf.1))
              missing_signature
        reject (not (signature.sighash_type == expected_sighash)) unexpected_sighash
        prevouts ← witness_utxos expected.inputs
        message ←
            ok_or
              (lib.script_hash expected.tx input_index prevouts (lib.leaf_hash leaf.0 leaf.1)
                signature.sighash_type)
              no_signature_hash
        reject (not (lib.verify_schnorr signature.bytes message signer_key)) invalid_signature
        ok ((signer_key, lib.leaf_hash leaf.0 leaf.1), signature)

  unfoldable pub verified_signature_for_key :
      Psbt → Psbt → ℕ → Key → Result SignatureError (SignerLeaf × Signature)
  unfolding verified_signature_for_key_with_sighash
  verified_signature_for_key expected returned input_index signer_key =
      verified_signature_for_key_with_sighash expected returned input_index signer_key
        default_sighash

  -- The returned PSBT holds a Schnorr signature of the signer over the expected transaction, with the
  -- default sighash.
  pub record IsSignedBy (expected returned : Psbt) (input_index : ℕ) (signer_key : Key)
      : Type 0 where
    pub leaf : List ℕ
    pub signature : Signature
    pub prevouts : List TxOutput
    pub message : List ℕ
    pub returned_there : returned_signature returned input_index (signer_key, leaf) ≡ some signature
    pub default : signature.sighash_type ≡ 0
    pub spent : witness_utxos expected.inputs ≡ ok prevouts
    pub hashed : lib.script_hash expected.tx input_index prevouts leaf 0 ≡ some message
    pub verified : lib.verify_schnorr signature.bytes message signer_key ≡ true

  pub verified_signature_for_key-IsSignedBy :
      (expected returned : Psbt) (input_index : ℕ) (signer_key : Key)
      (result : SignerLeaf × Signature)
      → verified_signature_for_key expected returned input_index signer_key ≡ ok result
      → IsSignedBy expected returned input_index signer_key
  unfolding verified_signature_for_key
  verified_signature_for_key-IsSignedBy expected returned input_index signer_key result h =
      let one = >>=-eq-ok (ok_or (get_elem? expected.inputs input_index) missing_input) _ h in
      let two = >>=-eq-ok (ok_or one.0.tap_script no_spend_script) _ one.2 in
      let leaf = lib.leaf_hash two.0.0 two.0.1 in
      let three =
        >>=-eq-ok
          (ok_or (returned_signature returned input_index (signer_key, leaf)) missing_signature) _
          two.2 in
      let four =
        reject-eq-ok (not (three.0.sighash_type == default_sighash)) unexpected_sighash _ three.2 in
      let five = >>=-eq-ok (witness_utxos expected.inputs) _ four.1 in
      let six =
        >>=-eq-ok
          (ok_or (lib.script_hash expected.tx input_index five.0 leaf three.0.sighash_type)
            no_signature_hash)
          _ five.2 in
      let seven =
        reject-eq-ok (not (lib.verify_schnorr three.0.bytes six.0 signer_key)) invalid_signature _
          six.2 in
      let default : three.0.sighash_type ≡ 0 = ground (arith, four.0) in
      record {
        leaf = leaf;
        signature = three.0;
        prevouts = five.0;
        message = six.0;
        returned_there = ok_or-eq-ok _ missing_signature three.1;
        default = default;
        spent = five.1;
        hashed =
            subst (λ kind. lib.script_hash expected.tx input_index five.0 leaf kind ≡ some six.0)
              default (ok_or-eq-ok _ no_signature_hash six.1);
        verified = ground (arith, seven.0);
      }

  -- One transaction of the signed tree, among the transactions of the tree by ID.
  unfoldable pub verify_tree_signature :
      Dict Txid Psbt → Tx → Psbt → Result SignatureError (Unit {0})
  verify_tree_signature txs commitment psbt = do
    input ← ok_or (get_elem? psbt.inputs 0) index_panic
    signature ← ok_or input.tap_key_sig unsigned_transaction
    reject (not (signature.sighash_type == default_sighash)) unexpected_sighash
    first ← ok_or (get_elem? psbt.tx.inputs 0) index_panic
    parent ←
        if first.previous_output.txid == commitment.txid
        then ok commitment
        else (do node ← ok_or (get txs first.previous_output.txid) missing_parent; ok node.tx)
    prevout ← ok_or (get_elem? parent.outputs first.previous_output.vout) missing_previous_output
    reject
        (not (length prevout.script_pubkey == 34)
          || (not (get_elem? prevout.script_pubkey 0 == some 0x51)
              || not (get_elem? prevout.script_pubkey 1 == some 0x20)))
        not_p2tr
    output_key ← ok_or (lib.parse_xonly (drop 2 prevout.script_pubkey)) unreadable_key
    message ← ok_or (lib.key_hash psbt.tx 0 (prevout ∷ []) default_sighash) no_signature_hash
    reject (not (lib.verify_schnorr signature.bytes message output_key)) invalid_signature

  unfoldable pub verify_tree_signatures :
      Dict Txid Psbt → Tx → Dict Txid Psbt → Result SignatureError (Unit {0})
  unfolding verify_tree_signature
  verify_tree_signatures txs commitment [] = ok tt
  verify_tree_signatures txs commitment (entry ∷ rest) = do
    verify_tree_signature txs commitment entry.1
    verify_tree_signatures txs commitment rest

  unfoldable pub verify_vtxo_tree_signatures :
      Dict Txid Psbt → Tx → Result SignatureError (Unit {0})
  unfolding verify_tree_signatures
  verify_vtxo_tree_signatures txs commitment = verify_tree_signatures txs commitment txs
