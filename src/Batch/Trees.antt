-- ===== src/Batch/Trees.antt =====
-- The two trees of a batch in src/batch.rs, over `validate_graph`: the VTXO tree, with its cosigners and
-- scripts, and the connector tree. Key parsing, the script of the aggregated key with its sweep leaf, the
-- P2TR test and the anchor output are the libraries'. The nodes are taken in the order of the table.
pub mod Leaves
pub mod Vtxo
pub mod Connector
mod Examples
use woodland_sh.Base.{
  ℕ, suc, ◌+◌, Bool, true, false, not, ◌&&◌, ◌||◌, Option, none, some, List, [], ◌∷◌, ◌++◌, ltb,
  if◌then◌else◌, length, get_elem?, ◌==◌, Eq, nat_eq, list_eq, contains, Result, ok, err, ◌>>=◌,
  ◌>>◌, reject, ok_or,
}
use woodland_sh.Base.Dict.{get}
use woodland_sh.Indexer.{OutPoint, TxOutput}
use woodland_sh.Batch.Graph.{
  GraphError, Txid, Tx, Chunk, Nodes, output_eq, first_previous, validate_graph,
}

pub data TreeError : Type 0 where
  graph : GraphError → TreeError
  missing_metadata unreadable_cosigner duplicate_cosigner no_cosigners : TreeError
  own_cosigner_missing not_one_operator inconsistent_operators : TreeError
  missing_parent missing_previous_output unfinished_script wrong_script not_one_leaf : TreeError
  no_outputs wrong_connector_output wrong_connector_leaf wrong_leaf_count : TreeError

abbrev pub Key : Type 0
Key = List ℕ

abbrev pub Script : Type 0
Script = List ℕ

abbrev pub in_graph {ℓ} : {A : Type ℓ} → Result GraphError A → Result TreeError A
in_graph (ok a) = ok a
in_graph (err e) = err (graph e)

abbrev pub starts_with : List ℕ → List ℕ → Bool
starts_with bytes [] = true
starts_with [] (x ∷ prefix) = false
starts_with (y ∷ bytes) (x ∷ prefix) = (y == x) && starts_with bytes prefix

-- The order of byte strings.
abbrev pub bytes_before : List ℕ → List ℕ → Bool
bytes_before [] ys = not (length ys == 0)
bytes_before (x ∷ xs) [] = false
bytes_before (x ∷ xs) (y ∷ ys) = ltb x y || ((x == y) && bytes_before xs ys)

unfoldable pub insert_key : Key → List Key → List Key
insert_key key [] = key ∷ []
insert_key key (first ∷ rest) =
    let others = insert_key key rest in
    if bytes_before first key then first ∷ others else key ∷ first ∷ rest

-- A stable sort, as `sort_by_key`.
unfoldable pub sort_keys : List Key → List Key
unfolding insert_key
sort_keys [] = []
sort_keys (key ∷ rest) = insert_key key (sort_keys rest)

-- The keys that are not in the batch's set.
unfoldable pub extra_keys : List Key → List Key → List Key
extra_keys batch_cosigners [] = []
extra_keys batch_cosigners (key ∷ rest) =
    let others = extra_keys batch_cosigners rest in
    if contains batch_cosigners key then others else key ∷ others

abbrev pub only_operator : List Key → Result TreeError Key
only_operator (operator ∷ []) = ok operator
only_operator _ = err not_one_operator

-- `batch_operator.replace(operator).is_some_and(|key| key != operator)`
abbrev pub differs : Option Key → Key → Bool
differs none operator = false
differs (some key) operator = not (key == operator)

unfoldable pub graph_prevout : Nodes → Tx → Tx → Result TreeError TxOutput
graph_prevout nodes commitment tx = do
  outpoint ← in_graph (first_previous tx)
  parent ←
      if outpoint.txid == commitment.txid
      then ok commitment
      else (do chunk ← ok_or (get nodes outpoint.txid) missing_parent; ok chunk.tx)
  ok_or (get_elem? parent.outputs outpoint.vout) missing_previous_output

unfoldable pub matching_leaves : List TxOutput → List Chunk → List Chunk
matching_leaves expected [] = []
matching_leaves expected (chunk ∷ rest) =
    let others = matching_leaves expected rest in
    if (length chunk.children == 0) && (chunk.tx.outputs == expected)
    then chunk ∷ others
    else others

unfoldable pub only_leaf : List Chunk → Result TreeError OutPoint
only_leaf (leaf ∷ []) = ok (record { txid = leaf.tx.txid; vout = 0 })
only_leaf _ = err not_one_leaf

-- What the checks take from `ark_core`, `bitcoin` and `musig`.
pub record BatchLibrary : Type 0 where
  pub anchor : TxOutput  -- `anchor_output`
  pub cosigner_prefix : List ℕ  -- `VTXO_COSIGNER_PSBT_KEY`
  pub parse_key : List ℕ → Option Key  -- `PublicKey::from_slice`, serialized
  pub tree_script : List Key → ℕ → Key → Option Script  -- the aggregated key over the sweep leaf
  pub is_p2tr : Script → Bool

module _ (lib : BatchLibrary) where
  -- The cosigners among the unknown fields; `seen` has the same keys as `cosigners`.
  unfoldable pub read_cosigners : List Key → List (List ℕ × List ℕ) → Result TreeError (List Key)
  read_cosigners cosigners [] = ok cosigners
  read_cosigners cosigners (field ∷ rest) = elim (starts_with field.0 lib.cosigner_prefix) [
    | false ↦ read_cosigners cosigners rest
    | true ↦ do
      public ← ok_or (lib.parse_key field.1) unreadable_cosigner
      reject (contains cosigners public) duplicate_cosigner
      read_cosigners (cosigners ++ (public ∷ [])) rest
  ]

  unfoldable pub vtxo_tree_cosigners : Chunk → Result TreeError (List Key)
  unfolding read_cosigners
  vtxo_tree_cosigners chunk = do
    unknown ← ok_or chunk.unknown missing_metadata
    cosigners ← read_cosigners [] unknown
    reject (length cosigners == 0) no_cosigners
    ok cosigners

  -- MuSig2 over the sorted keys, and the sweep leaf, are in `tree_script`.
  unfoldable pub expected_vtxo_tree_script : Chunk → ℕ → Key → Key → Result TreeError Script
  unfolding vtxo_tree_cosigners sort_keys
  expected_vtxo_tree_script chunk batch_expiry forfeit_pk own_cosigner = do
    cosigners ← vtxo_tree_cosigners chunk
    reject (not (contains cosigners own_cosigner)) own_cosigner_missing
    ok_or (lib.tree_script (sort_keys cosigners) batch_expiry forfeit_pk) unfinished_script

  -- One node of the graph; the batch operator so far is replaced by the node's.
  unfoldable pub check_tree_node :
      Nodes → Tx → ℕ → Key → Key → List Key → Option Key → Chunk → Result TreeError Key
  unfolding vtxo_tree_cosigners extra_keys graph_prevout expected_vtxo_tree_script
  check_tree_node nodes commitment batch_expiry forfeit_pk own_cosigner batch_cosigners
        batch_operator chunk =
      do
        cosigners ← vtxo_tree_cosigners chunk
        reject (not (contains cosigners own_cosigner)) own_cosigner_missing
        operator ← only_operator (extra_keys batch_cosigners cosigners)
        reject (differs batch_operator operator) inconsistent_operators
        prevout ← graph_prevout nodes commitment chunk.tx
        expected_script ← expected_vtxo_tree_script chunk batch_expiry forfeit_pk own_cosigner
        reject (not (prevout.script_pubkey == expected_script)) wrong_script
        ok operator

  unfoldable pub check_tree_nodes :
      Nodes → Tx → ℕ → Key → Key → List Key → Option Key → Nodes → Result TreeError (Unit {0})
  unfolding check_tree_node
  check_tree_nodes nodes commitment batch_expiry forfeit_pk own_cosigner batch_cosigners
        batch_operator [] =
      ok tt
  check_tree_nodes nodes commitment batch_expiry forfeit_pk own_cosigner batch_cosigners
        batch_operator (entry ∷ rest) =
      do
        operator ←
            check_tree_node nodes commitment batch_expiry forfeit_pk own_cosigner batch_cosigners
              batch_operator entry.1
        check_tree_nodes nodes commitment batch_expiry forfeit_pk own_cosigner batch_cosigners
            (some operator) rest

  unfoldable pub validate_vtxo_tree :
      List Chunk → Tx → ℕ → Key → Key → List Key → List TxOutput → Result TreeError OutPoint
  unfolding validate_graph check_tree_nodes matching_leaves only_leaf
  validate_vtxo_tree chunks commitment batch_expiry forfeit_pk own_cosigner batch_cosigners
        leaf_outputs =
      do
        nodes ← in_graph (validate_graph lib.anchor chunks commitment 0)
        check_tree_nodes nodes commitment batch_expiry forfeit_pk own_cosigner batch_cosigners none
            nodes
        only_leaf (matching_leaves (leaf_outputs ++ (lib.anchor ∷ [])) chunks)

  -- All outputs but the last.
  unfoldable pub spendable : List TxOutput → Result TreeError (List TxOutput)
  spendable [] = err no_outputs
  spendable (output ∷ []) = ok []
  spendable (output ∷ next ∷ rest) = do others ← spendable (next ∷ rest); ok (output ∷ others)

  unfoldable pub check_spendable : List TxOutput → Result TreeError (Unit {0})
  check_spendable [] = ok tt
  check_spendable (output ∷ rest) = do
    reject ((output.value == 0) || not (lib.is_p2tr output.script_pubkey)) wrong_connector_output
    check_spendable rest

  -- One canonical dust output, and the anchor.
  unfoldable pub is_connector_leaf : ℕ → List TxOutput → Bool
  is_connector_leaf dust_sats (output ∷ second ∷ []) =
      (output.value == dust_sats) && lib.is_p2tr output.script_pubkey
  is_connector_leaf dust_sats _ = false

  -- A leaf is counted, once it is canonical.
  unfoldable pub count_leaf : ℕ → ℕ → Chunk → Result TreeError ℕ
  unfolding is_connector_leaf
  count_leaf dust_sats leaf_count chunk =
      if length chunk.children == 0
      then reject (not (is_connector_leaf dust_sats chunk.tx.outputs)) wrong_connector_leaf
        >> ok (suc leaf_count)
      else ok leaf_count

  unfoldable pub check_connectors : ℕ → ℕ → List Chunk → Result TreeError ℕ
  unfolding spendable check_spendable count_leaf
  check_connectors dust_sats leaf_count [] = ok leaf_count
  check_connectors dust_sats leaf_count (chunk ∷ rest) = do
    outputs ← spendable chunk.tx.outputs
    check_spendable outputs
    counted ← count_leaf dust_sats leaf_count chunk
    check_connectors dust_sats counted rest

  unfoldable pub validate_connector_tree : List Chunk → Tx → ℕ → ℕ → Result TreeError (Unit {0})
  unfolding validate_graph check_connectors
  validate_connector_tree chunks commitment dust_sats expected_leaf_count = do
    in_graph (validate_graph lib.anchor chunks commitment 1 >>= λ _. ok tt)
    leaf_count ← check_connectors dust_sats 0 chunks
    reject ((expected_leaf_count == 0) || not (leaf_count == expected_leaf_count)) wrong_leaf_count
