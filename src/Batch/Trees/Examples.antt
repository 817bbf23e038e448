-- ===== src/Batch/Trees/Examples.antt =====
-- Runs of `validate_vtxo_tree` and `validate_connector_tree` of src/batch.rs on small trees.
use woodland_sh.Base.{◌<◌, true, none, some, [], ◌∷◌, ok, err, ◌≡◌, refl, All}
use woodland_sh.Base.Dict.{get}
use woodland_sh.Batch.Graph.{Nodes, Chunk}
use woodland_sh.Batch.Graph.Samples.{p2tr, anchor, commitment, parent, child, pay, node}
use woodland_sh.Batch.Graph.Accepts.{IsGraph}
use woodland_sh.Batch.Trees.{
  BatchLibrary, Key, validate_vtxo_tree, validate_connector_tree, not_one_leaf, not_one_operator,
  wrong_leaf_count,
}
use woodland_sh.Batch.Trees.Connector.{childless, IsConnectorNode, validate_connector_tree_lem}

-- A key is its bytes, and the script names the sorted keys.
abbrev lib : BatchLibrary
lib = record {
  anchor = anchor;
  cosigner_prefix = 5 ∷ [];
  parse_key = λ bytes. some bytes;
  tree_script = λ keys expiry forfeit. some p2tr;
  is_p2tr = λ script. true;
}

own : Key
own = 40 ∷ []

no_leaf :
    validate_vtxo_tree lib
      (parent ∷ child 1 20 ∷ [])
      commitment
      144
      (70 ∷ [])
      own
      (own ∷ [])
      (pay 21 ∷ [])
    ≡ err not_one_leaf
unfolding validate_vtxo_tree get own
no_leaf = refl

all_of_the_batch :
    validate_vtxo_tree lib
      (parent ∷ [])
      commitment
      144
      (70 ∷ [])
      own
      (own ∷ (60 ∷ []) ∷ [])
      (pay 20 ∷ [])
    ≡ err not_one_operator
unfolding validate_vtxo_tree get own
all_of_the_batch = refl

-- A connector tree of one node, below the second output.
abbrev connector : Chunk
connector = record {
  txid = none;
  tx = node 6 1 1 (pay 5 ∷ anchor ∷ []);
  children = [];
  unknown = none;
}

one_connector : validate_connector_tree lib (connector ∷ []) commitment 5 1 ≡ ok tt
unfolding validate_connector_tree get
one_connector = refl

too_few_connectors :
    validate_connector_tree lib (connector ∷ []) commitment 5 2 ≡ err wrong_leaf_count
unfolding validate_connector_tree get
too_few_connectors = refl

validate_connector_tree_lem_example :
    ((nodes : Nodes) × IsGraph anchor (connector ∷ []) commitment 1 nodes)
    × (childless (connector ∷ []) ≡ 1)
    × (0 < 1)
    × All (IsConnectorNode lib 5) (connector ∷ [])
validate_connector_tree_lem_example =
    validate_connector_tree_lem lib (connector ∷ []) commitment 5 1 one_connector
