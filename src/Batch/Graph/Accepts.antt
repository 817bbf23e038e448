-- ===== src/Batch/Graph/Accepts.antt =====
-- `validate_graph` of src/batch.rs as a whole: what it accepts, and how it refuses.
use woodland_sh.Base.{
  ℕ, ◌+◌, ◌≤◌, true, false, not, some, List, [], ◌∷◌, length, ◌==◌, ◌||◌, nat_eq, list_eq, contains,
  ok, err, ◌≡◌, refl, All, get_elem?, ltb, arith, ◌∙◌, sym, subst, ==-refl,
}
use woodland_sh.Base.Dict.{get}
use woodland_sh.Indexer.{TxOutput, outpoint_eq}
use woodland_sh.Batch.Graph.{
  GraphError, node_count, disconnected_cycle, wrong_root_input, commitment_output_missing,
  value_not_preserved, index_panic, Txid, Tx, Chunk, Nodes, keys, is_some, unreferenced, only_root,
  check_root, check_nodes, validate_graph, sum_outputs, max_batch_graph_nodes,
}
use woodland_sh.Batch.Graph.Outcomes.{
  Outcome, Outcome-imp, Outcome-bind, Outcome-reject, Outcome-some, Outcome-ok_or, Outcome-last,
  Outcome-ok, Outcome-err, returns, rejects, is_internal,
}
use woodland_sh.Batch.Graph.Traversal.{
  Reaches, here, IsVisit-all, traverse_lem, contains-keys, some_of,
}
use woodland_sh.Batch.Graph.Links.{
  IsSpend, IsSpend-intro, IsTable, IsLinked, collect_lem, collect-All, check_links_lem,
  first_previous_lem, sum_from_lem,
}

-- A graph of nodes that carries the commitment's output down to its leaves.
pub record IsGraph (anchor : TxOutput) (chunks : List Chunk) (commitment : Tx) (vout : ℕ)
    (nodes : Nodes) : Type 0 where
  pub bounded : (1 ≤ length chunks) × (length chunks ≤ 512)
  pub complete : length nodes ≡ length chunks
  pub received : All (λ (chunk : Chunk). get nodes chunk.tx.txid ≡ some chunk) chunks
  pub shaped : IsTable anchor nodes
  pub linked : All (λ (chunk : Chunk). All (IsLinked nodes chunk.tx) chunk.children) chunks
  pub root : Txid
  pub top : Chunk
  pub found : get nodes root ≡ some top
  pub spends : IsSpend top.tx commitment vout
  pub reached : (txid : Txid) → is_some (get nodes txid) ≡ true → Reaches nodes root txid

contains-unreferenced :
    (referenced txids : List Txid) (txid : Txid)
    → contains (unreferenced referenced txids) txid ≡ true
    → contains txids txid ≡ true
unfolding unreferenced
contains-unreferenced referenced [] txid h = h
contains-unreferenced referenced (x ∷ rest) txid h =
    ground (arith, contains-unreferenced referenced rest txid)

only_root_lem : (roots : List Txid) → Outcome (λ root. contains roots root ≡ true) (only_root roots)
unfolding only_root
only_root_lem [] = rejects refl
only_root_lem (root ∷ []) = returns (ground (arith, ==-refl root))
only_root_lem (root ∷ other ∷ rest) = rejects refl

check_root_lem :
    (anchor : TxOutput) (nodes : Nodes) (root : Txid) (top : Chunk) (commitment : Tx) (vout : ℕ)
    → IsTable anchor nodes
    → get nodes root ≡ some top
    → Outcome (λ _. IsSpend top.tx commitment vout) (check_root nodes root commitment vout)
unfolding check_root sum_outputs
check_root_lem anchor nodes root top commitment vout t e =
    Outcome-some (get nodes root) top index_panic _ e (
      Outcome-bind _ _ (first_previous_lem top.tx (t root top e).canonical) (λ previous _ p.
        Outcome-reject (not (previous == record { txid = commitment.txid; vout = vout }))
          wrong_root_input _ refl
          (λ s.
            Outcome-ok_or (get_elem? commitment.outputs vout) commitment_output_missing _ refl
              (λ output o. Outcome-bind _ _ (sum_from_lem 0 top.tx.outputs) (λ value _ v.
                Outcome-last (not (value == output.value)) value_not_preserved refl (λ w.
                  IsSpend-intro top.tx commitment vout p.0 output previous value p.1 p.2 s o v
                    w))))))

-- The graph below the root, with what the checks have established.
abbrev IsBelow : TxOutput → List Chunk → Tx → ℕ → Nodes → Type 0
IsBelow anchor chunks commitment vout nodes =
    All (λ (chunk : Chunk). All (IsLinked nodes chunk.tx) chunk.children) chunks
    × (root : Txid) × (top : Chunk) × (get nodes root ≡ some top)
    × IsSpend top.tx commitment vout
    × ((txid : Txid) → is_some (get nodes txid) ≡ true → Reaches nodes root txid)

check_nodes_lem :
    (anchor : TxOutput) (nodes : Nodes) (chunks : List Chunk) (commitment : Tx) (vout : ℕ)
    → IsTable anchor nodes
    → Outcome
        (λ final. (final ≡ nodes) × IsBelow anchor chunks commitment vout nodes)
        (check_nodes nodes chunks commitment vout)
unfolding check_nodes
check_nodes_lem anchor nodes chunks commitment vout t =
    Outcome-bind _ _ (check_links_lem anchor nodes t [] chunks) (λ referenced _ links.
      Outcome-bind _ _ (only_root_lem (unreferenced referenced (keys nodes))) (λ root _ r.
        let top =
          some_of (get nodes root) (
            sym (contains-keys nodes root)
            ∙ contains-unreferenced referenced (keys nodes) root r) in
        Outcome-bind _ _
          (traverse_lem nodes root (length nodes + 1) (root ∷ []) []
            (
              (
                here,
                sym (contains-keys nodes root)
                    ∙ contains-unreferenced referenced (keys nodes) root r,
              ),
              tt,
            )
            (tt, tt) (omega arith))
          (λ visited _ v.
            Outcome-reject (not (length visited == length nodes)) disconnected_cycle _ refl (λ all.
              Outcome-bind _ _ (check_root_lem anchor nodes root top.0 commitment vout t top.1)
                (λ _ _ s. returns (
                  refl,
                  (links, root, top.0, top.1, s, IsVisit-all nodes root visited v (ground arith)),
                ))))))

validate_graph_lem :
    (anchor : TxOutput) (chunks : List Chunk) (commitment : Tx) (vout : ℕ)
    → Outcome (IsGraph anchor chunks commitment vout) (validate_graph anchor chunks commitment vout)
unfolding validate_graph get
validate_graph_lem anchor chunks commitment vout =
    Outcome-reject ((length chunks == 0) || ltb max_batch_graph_nodes (length chunks)) node_count _
      refl
      (λ size.
        Outcome-bind _ _
          (collect_lem anchor [] chunks ((λ txid chunk h. absurd (ground arith)), tt))
          (λ nodes collected c.
            Outcome-imp
              (λ final b. subst (IsGraph anchor chunks commitment vout) (sym b.0) (record {
                bounded = ground arith;
                complete = ground (arith, c.1);
                received = collect-All anchor chunks [] nodes collected;
                shaped = c.0.0;
                linked = b.1.0;
                root = b.1.1;
                top = b.1.2;
                found = b.1.3;
                spends = b.1.4;
                reached = b.1.5;
              }))
              (check_nodes_lem anchor nodes chunks commitment vout c.0.0)))

-- An accepted graph has between 1 and 512 received nodes, each under its own transaction ID and of the
-- shape of a node, with the anchor as its last output only. Every received child spends the whole value of the output
-- that its parent declares for it, one node spends the whole of the commitment's output, and every node is
-- reached from that one through the child maps.
pub validate_graph-IsGraph :
    (anchor : TxOutput) (chunks : List Chunk) (commitment : Tx) (vout : ℕ) (nodes : Nodes)
    → validate_graph anchor chunks commitment vout ≡ ok nodes
    → IsGraph anchor chunks commitment vout nodes
validate_graph-IsGraph anchor chunks commitment vout nodes =
    Outcome-ok _ nodes (validate_graph_lem anchor chunks commitment vout)

-- Whatever is received, the validation ends: it never runs out of the fuel of one more step than there are
-- nodes, never meets an index out of range, and never loses a transaction of its traversal.
pub validate_graph-ends :
    (anchor : TxOutput) (chunks : List Chunk) (commitment : Tx) (vout : ℕ) (e : GraphError)
    → validate_graph anchor chunks commitment vout ≡ err e
    → is_internal e ≡ false
validate_graph-ends anchor chunks commitment vout e =
    Outcome-err _ e (validate_graph_lem anchor chunks commitment vout)
