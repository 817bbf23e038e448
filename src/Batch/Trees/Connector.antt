-- ===== src/Batch/Trees/Connector.antt =====
-- What `validate_connector_tree` of src/batch.rs accepts.
use woodland_sh.Base.{
  ◌+◌, ◌<◌, ◌∙◌, ◌>>◌, if◌then◌else◌, ℕ, Bool, true, false, not, ◌||◌, suc, ap, List, [], ◌∷◌, ◌++◌,
  length, ◌==◌, nat_eq, list_eq, option_eq, ok, ◌>>=◌, reject, Ensures, returns, Ensures-bind,
  Ensures-ok, Ensures-imp, >>=-eq-ok, reject-eq-ok, ◌≡◌, refl, All, subst, arith,
}
use woodland_sh.Indexer.{TxOutput}
use woodland_sh.Batch.Graph.{Tx, Chunk, Nodes, output_eq, validate_graph}
use woodland_sh.Batch.Graph.Accepts.{IsGraph, validate_graph-IsGraph}
use woodland_sh.Batch.Trees.Vtxo.{in_graph-eq-ok}
use woodland_sh.Batch.Trees.{
  spendable, check_spendable, count_leaf, is_connector_leaf, check_connectors,
  validate_connector_tree, wrong_connector_output, wrong_connector_leaf, wrong_leaf_count,
  TreeError, BatchLibrary, in_graph,
}

abbrev pub childless : List Chunk → ℕ
childless [] = 0
childless (chunk ∷ rest) = (if length chunk.children == 0 then 1 else 0) + childless rest

spendable-eq-ok :
    (lib : BatchLibrary) (outputs front : List TxOutput)
    → spendable lib outputs ≡ ok front
    → (end : TxOutput) × (outputs ≡ front ++ (end ∷ []))
unfolding spendable
spendable-eq-ok lib [] front h = cc
spendable-eq-ok lib (output ∷ []) front h = (output, ground arith)
spendable-eq-ok lib (output ∷ next ∷ rest) front h =
    let first = >>=-eq-ok (spendable lib (next ∷ rest)) _ h in
    let later = spendable-eq-ok lib (next ∷ rest) first.0 first.1 in
    (
      later.0,
      ap (◌∷◌ output) later.1
          ∙ ap (λ xs. xs ++ (later.0 ∷ [])) {x = output ∷ first.0} {y = front} (ground arith),
    )

reject-last : (t : Bool) (e : TreeError) → reject t e ≡ ok tt → t ≡ false
reject-last true e h = cc
reject-last false e h = refl

module _ (lib : BatchLibrary) where
  abbrev pub IsConnector : TxOutput → Type 0
  IsConnector output = (0 < output.value) × (lib.is_p2tr output.script_pubkey ≡ true)

  -- All outputs but the last can be spent by a key; a childless node has one of them, of the dust value.
  pub record IsConnectorNode (dust_sats : ℕ) (chunk : Chunk) : Type 0 where
    pub front : List TxOutput
    pub end : TxOutput
    pub outputs : chunk.tx.outputs ≡ front ++ (end ∷ [])
    pub connectors : All IsConnector front
    pub leaf :
        chunk.children ≡ []
        → (output : TxOutput) × (front ≡ output ∷ []) × (output.value ≡ dust_sats)

  check_spendable-All :
      (outputs : List TxOutput) → check_spendable lib outputs ≡ ok tt → All IsConnector outputs
  unfolding check_spendable
  check_spendable-All [] h = tt
  check_spendable-All (output ∷ rest) h =
      let first =
        reject-eq-ok ((output.value == 0) || not (lib.is_p2tr output.script_pubkey))
          wrong_connector_output _ h in
      ((ground (arith, first.0), ground (arith, first.0)), check_spendable-All rest first.1)

  leaf_lem :
      (dust_sats : ℕ) (front : List TxOutput) (end : TxOutput)
      → is_connector_leaf lib dust_sats (front ++ (end ∷ [])) ≡ true
      → (output : TxOutput) × (front ≡ output ∷ []) × (output.value ≡ dust_sats)
  unfolding is_connector_leaf
  leaf_lem dust_sats [] end h = cc
  leaf_lem dust_sats (output ∷ []) end h = (output, refl, ground arith)
  leaf_lem dust_sats (output ∷ second ∷ []) end h = cc
  leaf_lem dust_sats (output ∷ second ∷ third ∷ rest) end h = cc

  count_leaf_lem :
      (dust_sats leaf_count counted : ℕ) (chunk : Chunk)
      → count_leaf lib dust_sats leaf_count chunk ≡ ok counted
      → (counted ≡ leaf_count + childless (chunk ∷ []))
        × (chunk.children ≡ [] → is_connector_leaf lib dust_sats chunk.tx.outputs ≡ true)
  unfolding count_leaf
  count_leaf_lem dust_sats leaf_count counted chunk h = by_leaf (length chunk.children == 0) refl h
    where
      by_leaf :
          (leaf : Bool)
          → (length chunk.children == 0) ≡ leaf
          → (if leaf
              then reject
                  (not (is_connector_leaf lib dust_sats chunk.tx.outputs))
                  wrong_connector_leaf
                >> ok (suc leaf_count)
              else ok leaf_count)
            ≡ ok counted
          → (counted ≡ leaf_count + childless (chunk ∷ []))
            × (chunk.children ≡ [] → is_connector_leaf lib dust_sats chunk.tx.outputs ≡ true)
      by_leaf true e k =
          let rest =
            reject-eq-ok (not (is_connector_leaf lib dust_sats chunk.tx.outputs))
              wrong_connector_leaf _ k in
          (ground (arith, rest.1), λ _. ground (arith, rest.0))
      by_leaf false e k = (ground arith, λ n. absurd (ground (arith, ap (λ xs. length xs) n)))

  check_connectors_lem :
      (dust_sats leaf_count : ℕ) (chunks : List Chunk)
      → Ensures
          (λ count.
            (count ≡ leaf_count + childless chunks) × All (IsConnectorNode dust_sats) chunks)
          (check_connectors lib dust_sats leaf_count chunks)
  unfolding check_connectors
  check_connectors_lem dust_sats leaf_count [] = returns (omega arith, tt)
  check_connectors_lem dust_sats leaf_count (chunk ∷ rest) =
      Ensures-bind (spendable lib chunk.tx.outputs) _ (λ front f.
        Ensures-bind (check_spendable lib front) _ (λ _ good.
          Ensures-bind (count_leaf lib dust_sats leaf_count chunk) _ (λ counted c.
            let split = spendable-eq-ok lib chunk.tx.outputs front f in
            let here = count_leaf_lem dust_sats leaf_count counted chunk c in
            Ensures-imp
              (λ count others. (
                omega (arith, others.0, here.0),
                (
                  record {
                    front = front;
                    end = split.0;
                    outputs = split.1;
                    connectors = check_spendable-All front good;
                    leaf = λ n. leaf_lem dust_sats front split.0 (
                        subst (λ xs. is_connector_leaf lib dust_sats xs ≡ true) split.1 (here.1 n));
                  },
                  others.1,
                ),
              ))
              (check_connectors_lem dust_sats counted rest))))

  -- An accepted connector tree is a graph below the commitment's second output, with as many leaves as there
  -- are inputs to forfeit, and some. Every output but the anchors is a P2TR output of some value, and a
  -- leaf has one, of the dust value.
  pub validate_connector_tree_lem :
      (chunks : List Chunk) (commitment : Tx) (dust_sats expected_leaf_count : ℕ)
      → validate_connector_tree lib chunks commitment dust_sats expected_leaf_count ≡ ok tt
      → ((nodes : Nodes) × IsGraph lib.anchor chunks commitment 1 nodes)
        × (childless chunks ≡ expected_leaf_count)
        × (0 < expected_leaf_count)
        × All (IsConnectorNode dust_sats) chunks
  unfolding validate_connector_tree
  validate_connector_tree_lem chunks commitment dust_sats expected_leaf_count h =
      let first =
        >>=-eq-ok (in_graph (validate_graph lib.anchor chunks commitment 1 >>= λ _. ok tt)) _ h in
      let graph =
        >>=-eq-ok (validate_graph lib.anchor chunks commitment 1) _
          (in_graph-eq-ok _ first.0 first.1) in
      let second = >>=-eq-ok (check_connectors lib dust_sats 0 chunks) _ first.2 in
      let leaves = Ensures-ok _ second.0 (check_connectors_lem dust_sats 0 chunks) second.1 in
      let right =
        reject-last ((expected_leaf_count == 0) || not (second.0 == expected_leaf_count))
          wrong_leaf_count second.2 in
      (
        (graph.0, validate_graph-IsGraph lib.anchor chunks commitment 1 graph.0 graph.1),
        ground arith,
        ground arith,
        leaves.1,
      )
