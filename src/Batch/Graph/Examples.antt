-- ===== src/Batch/Graph/Examples.antt =====
-- Runs of `validate_graph` of src/batch.rs on small graphs.
use woodland_sh.Base.{false, [], ◌∷◌, ok, err, ◌≡◌, refl}
use woodland_sh.Base.Dict.{get}
use woodland_sh.Batch.Graph.{wrong_parent_output, node_count, value_not_preserved, validate_graph}
use woodland_sh.Batch.Graph.Samples.{commitment, anchor, parent, child, nodes}
use woodland_sh.Batch.Graph.Outcomes.{is_internal}
use woodland_sh.Batch.Graph.Accepts.{IsGraph, validate_graph-IsGraph, validate_graph-ends}

accepted : validate_graph anchor (parent ∷ child 1 20 ∷ []) commitment 0 ≡ ok nodes
unfolding validate_graph get
accepted = refl

wrong_value :
    validate_graph anchor (parent ∷ child 1 19 ∷ []) commitment 0 ≡ err value_not_preserved
unfolding validate_graph get
wrong_value = refl

wrong_parent :
    validate_graph anchor (parent ∷ child 0 20 ∷ []) commitment 0 ≡ err wrong_parent_output
unfolding validate_graph get
wrong_parent = refl

no_nodes : validate_graph anchor [] commitment 0 ≡ err node_count
unfolding validate_graph get
no_nodes = refl

validate_graph-IsGraph_example : IsGraph anchor (parent ∷ child 1 20 ∷ []) commitment 0 nodes
validate_graph-IsGraph_example =
    validate_graph-IsGraph anchor (parent ∷ child 1 20 ∷ []) commitment 0 nodes accepted

validate_graph-ends_example : is_internal value_not_preserved ≡ false
validate_graph-ends_example =
    validate_graph-ends anchor (parent ∷ child 1 19 ∷ []) commitment 0 value_not_preserved
      wrong_value
