-- ===== src/Batch/Graph.antt =====
-- `validate_graph` and `sum_outputs` of src/batch.rs: the flat graph of a batch, held against its own
-- transactions. Transactions, and the anchor output of `ark_core`, are what those libraries give. A
-- `HashMap` that is only looked up is a list of entries, the last one inserted first; the two maps over
-- the transaction IDs, which always have the same keys, are one.
pub mod Traversal
pub mod Links
pub mod Accepts
pub mod Outcomes
pub mod Samples
mod Examples
use woodland_sh.Base.{
  ℕ, zero, suc, ◌+◌, ◌-◌, Bool, true, false, not, ◌&&◌, ◌||◌, Option, none, some, List, [], ◌∷◌,
  ◌++◌, map, reverse, leb, ltb, if◌then◌else◌, length, get_elem?, ◌==◌, Eq, nat_eq, list_eq,
  option_eq, list_beq_iff, contains, Result, ok, err, ◌>>=◌, ◌>>◌, reject, ok_or, ◌≡◌, ◌↔◌, arith,
}
use woodland_sh.Base.Words.{checked_add}
use woodland_sh.Base.Int.{ℤ, pos, int_beq}
use woodland_sh.Base.Dict.{Dict, get}
use woodland_sh.Indexer.{OutPoint, TxOutput, outpoint_eq}

abbrev pub max_batch_graph_nodes : ℕ
max_batch_graph_nodes = 512

pub data GraphError : Type 0 where
  node_count wrong_txid duplicate_transaction non_canonical_shape non_canonical_anchor : GraphError
  too_many_children invalid_child_output multiple_parents wrong_parent_output : GraphError
  value_not_preserved value_overflow not_one_root cycle lost_transaction : GraphError
  disconnected_cycle wrong_root_input commitment_output_missing : GraphError
  index_panic out_of_fuel : GraphError

abbrev pub Txid : Type 0
Txid = List ℕ

pub record TxInput : Type 0 where
  pub previous_output : OutPoint
  pub sequence : ℕ

pub record Tx : Type 0 where
  pub txid : Txid  -- `compute_txid()`
  pub version : ℤ
  pub lock_time : ℕ
  pub inputs : List TxInput
  pub outputs : List TxOutput

abbrev pub output_beq : TxOutput → TxOutput → Bool
output_beq a b = (a.script_pubkey == b.script_pubkey) && (a.value == b.value)

pub output_beq_iff : (a b : TxOutput) → (output_beq a b ≡ true) ↔ (a ≡ b)
output_beq_iff a b = ground (arith, list_beq_iff a.script_pubkey b.script_pubkey)

instance abbrev pub output_eq : Eq TxOutput
output_eq = record { beq = output_beq; beq_iff = output_beq_iff }

-- `TxGraphChunk`, with the unknown fields of its PSBT's first input, if there is one.
pub record Chunk : Type 0 where
  pub txid : Option Txid
  pub tx : Tx
  pub children : Dict ℕ Txid
  pub unknown : Option (List (List ℕ × List ℕ))

-- The received nodes by transaction ID.
abbrev pub Nodes : Type 0
Nodes = Dict Txid Chunk

abbrev pub is_some {ℓ} : {A : Type ℓ} → Option A → Bool
is_some none = false
is_some (some a) = true

abbrev pub declares_other : Option Txid → Txid → Bool
declares_other none txid = false
declares_other (some declared) txid = not (declared == txid)

abbrev pub last : List TxOutput → Option TxOutput
last [] = none
last (x ∷ []) = some x
last (x ∷ y ∷ rest) = last (y ∷ rest)

abbrev pub count : TxOutput → List TxOutput → ℕ
count a [] = 0
count a (x ∷ rest) = (if x == a then 1 else 0) + count a rest

abbrev pub has_max_sequence : List TxInput → Bool
has_max_sequence (input ∷ []) = input.sequence == 0xFFFFFFFF
has_max_sequence _ = false

-- One input of the highest sequence, and some output.
unfoldable pub is_canonical : Tx → Bool
is_canonical tx =
    int_beq tx.version (pos 3)
    && ((tx.lock_time == 0)
        && ((length tx.inputs == 1)
            && (has_max_sequence tx.inputs && not (length tx.outputs == 0))))

unfoldable pub sum_from : ℕ → List TxOutput → Result GraphError ℕ
sum_from sum [] = ok sum
sum_from sum (output ∷ rest) = do
  more ← ok_or (checked_add sum output.value) value_overflow
  sum_from more rest

unfoldable pub sum_outputs : List TxOutput → Result GraphError ℕ
unfolding sum_from
sum_outputs = sum_from 0

module _ (anchor : TxOutput) where
  -- The checks of one received chunk.
  unfoldable pub check_chunk : Nodes → Chunk → Result GraphError (Unit {0})
  unfolding is_canonical
  check_chunk nodes chunk = do
    reject (declares_other chunk.txid chunk.tx.txid) wrong_txid
    reject (is_some (get nodes chunk.tx.txid)) duplicate_transaction
    reject (not (is_canonical chunk.tx)) non_canonical_shape
    reject (not (last chunk.tx.outputs == some anchor) || not (count anchor chunk.tx.outputs == 1))
        non_canonical_anchor
    reject (ltb (length chunk.tx.outputs - 1) (length chunk.children)) too_many_children

  unfoldable pub collect : Nodes → List Chunk → Result GraphError Nodes
  unfolding check_chunk
  collect nodes [] = ok nodes
  collect nodes (chunk ∷ rest) = do
    check_chunk nodes chunk
    collect ((chunk.tx.txid, chunk) ∷ nodes) rest

-- The one input of a collected transaction; an index out of range is a panic.
abbrev pub first_previous : Tx → Result GraphError OutPoint
first_previous tx = elim (get_elem? tx.inputs 0) [
  | none ↦ err index_panic
  | some input ↦ ok input.previous_output
]

-- A received child of a parent's output.
unfoldable pub check_received_child : Tx → ℕ → Tx → Result GraphError (Unit {0})
unfolding sum_outputs
check_received_child parent vout child = do
  previous ← first_previous child
  reject (not (previous == record { txid = parent.txid; vout = vout })) wrong_parent_output
  child_value ← sum_outputs child.outputs
  output ← ok_or (get_elem? parent.outputs vout) index_panic
  reject (not (child_value == output.value)) value_not_preserved

-- A declared child, received or not. An absent one is left alone.
unfoldable pub check_child :
    Tx → List Txid → ℕ × Txid → Option Chunk → Result GraphError (List Txid)
unfolding check_received_child
check_child parent referenced child none = ok referenced
check_child parent referenced child (some received) = do
  reject (contains referenced child.1) multiple_parents
  check_received_child parent child.0 received.tx
  ok (child.1 ∷ referenced)

-- The children of one chunk, with the nodes referenced so far.
unfoldable pub check_children :
    Nodes → Tx → List Txid → List (ℕ × Txid) → Result GraphError (List Txid)
unfolding check_child
check_children nodes parent referenced [] = ok referenced
check_children nodes parent referenced (child ∷ rest) = do
  reject (leb (length parent.outputs - 1) child.0) invalid_child_output
  referenced' ← check_child parent referenced child (get nodes child.1)
  check_children nodes parent referenced' rest

unfoldable pub check_links : Nodes → List Txid → List Chunk → Result GraphError (List Txid)
unfolding check_children
check_links nodes referenced [] = ok referenced
check_links nodes referenced (chunk ∷ rest) = do
  referenced' ← check_children nodes chunk.tx referenced chunk.children
  check_links nodes referenced' rest

abbrev pub keys : Nodes → List Txid
keys [] = []
keys (entry ∷ rest) = entry.0 ∷ keys rest

unfoldable pub unreferenced : List Txid → List Txid → List Txid
unreferenced referenced [] = []
unreferenced referenced (txid ∷ rest) =
    let others = unreferenced referenced rest in
    if contains referenced txid then others else txid ∷ others

unfoldable pub only_root : List Txid → Result GraphError Txid
only_root (root ∷ []) = ok root
only_root _ = err not_one_root

unfoldable pub received_children : Nodes → List (ℕ × Txid) → List Txid
received_children nodes [] = []
received_children nodes (child ∷ rest) =
    let others = received_children nodes rest in
    if is_some (get nodes child.1) then child.1 ∷ others else others

-- `while let Some(txid) = pending.pop()` on fuel. The top of the stack stands first.
unfoldable pub traverse : Nodes → ℕ → List Txid → List Txid → Result GraphError (List Txid)
unfolding received_children
traverse nodes zero pending visited = err out_of_fuel
traverse nodes (suc fuel) [] visited = ok visited
traverse nodes (suc fuel) (txid ∷ pending) visited = do
  reject (contains visited txid) cycle
  chunk ← ok_or (get nodes txid) lost_transaction
  traverse nodes fuel (reverse (received_children nodes chunk.children) ++ pending) (txid ∷ visited)

-- The root spends the commitment's output, whole.
unfoldable pub check_root : Nodes → Txid → Tx → ℕ → Result GraphError (Unit {0})
unfolding sum_outputs
check_root nodes root commitment commitment_vout = do
  chunk ← ok_or (get nodes root) index_panic
  previous ← first_previous chunk.tx
  reject (not (previous == record { txid = commitment.txid; vout = commitment_vout }))
      wrong_root_input
  output ← ok_or (get_elem? commitment.outputs commitment_vout) commitment_output_missing
  value ← sum_outputs chunk.tx.outputs
  reject (not (value == output.value)) value_not_preserved

-- From the collected nodes on.
unfoldable pub check_nodes : Nodes → List Chunk → Tx → ℕ → Result GraphError Nodes
unfolding check_links unreferenced only_root traverse check_root
check_nodes nodes chunks commitment commitment_vout = do
  referenced ← check_links nodes [] chunks
  root ← only_root (unreferenced referenced (keys nodes))
  visited ← traverse nodes (length nodes + 1) (root ∷ []) []
  reject (not (length visited == length nodes)) disconnected_cycle
  check_root nodes root commitment commitment_vout
  ok nodes

unfoldable pub validate_graph : TxOutput → List Chunk → Tx → ℕ → Result GraphError Nodes
unfolding collect check_nodes
validate_graph anchor chunks commitment commitment_vout = do
  reject ((length chunks == 0) || ltb max_batch_graph_nodes (length chunks)) node_count
  nodes ← collect anchor [] chunks
  check_nodes nodes chunks commitment commitment_vout
