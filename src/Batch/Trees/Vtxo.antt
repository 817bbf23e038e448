-- ===== src/Batch/Trees/Vtxo.antt =====
-- What `validate_vtxo_tree` of src/batch.rs accepts.
use woodland_sh.Base.{
  ℕ, true, false, not, ◌&&◌, Option, none, some, get_elem?, List, [], ◌∷◌, ◌++◌, ◌==◌, nat_eq,
  list_eq, option_eq, list_beq_iff, ==-refl, contains, Result, ok, err, ok_or, ok_or-eq-ok, Ensures,
  returns, Ensures-bind, Ensures-reject, Ensures-ok, Ensures-imp, >>=-eq-ok, reject-eq-ok, ◌≡◌,
  refl, All, subst, inl, inr, Bool-cases, arith,
}
use woodland_sh.Base.Dict.{get}
use woodland_sh.Indexer.{OutPoint, TxOutput}
use woodland_sh.Batch.Graph.{GraphError, Txid, Tx, Chunk, Nodes, output_eq, validate_graph}
use woodland_sh.Batch.Graph.Accepts.{IsGraph, validate_graph-IsGraph}
use woodland_sh.Batch.Trees.Leaves.{IsFit, IsOnly, one_match, only_leaf-eq-ok}
use woodland_sh.Batch.Trees.{
  BatchLibrary, Key, Script, in_graph, extra_keys, only_operator, differs, graph_prevout, sort_keys,
  vtxo_tree_cosigners, expected_vtxo_tree_script, check_tree_node, check_tree_nodes,
  validate_vtxo_tree, own_cosigner_missing, inconsistent_operators, wrong_script, unfinished_script,
}

pub in_graph-eq-ok {ℓ} :
    {A : Type ℓ} (r : Result GraphError A) (a : A) → in_graph r ≡ ok a → r ≡ ok a
in_graph-eq-ok (ok b) a h = ground arith
in_graph-eq-ok (err e) a h = cc

contains-extra_keys :
    (batch cosigners : List Key) (key : Key)
    → contains (extra_keys batch cosigners) key
      ≡ (contains cosigners key && not (contains batch key))
unfolding extra_keys
contains-extra_keys batch [] key = refl
contains-extra_keys batch (x ∷ rest) key =
    ground (arith, contains-extra_keys batch rest key, list_beq_iff key x)

only_operator-eq-ok :
    (keys : List Key) (operator : Key) → only_operator keys ≡ ok operator → keys ≡ operator ∷ []
only_operator-eq-ok [] operator h = cc
only_operator-eq-ok (x ∷ []) operator h = ground arith
only_operator-eq-ok (x ∷ y ∷ rest) operator h = cc

module _ (lib : BatchLibrary) where
  module _ (nodes : Nodes) (commitment : Tx) (batch_expiry : ℕ) (forfeit_pk own_cosigner : Key)
      (batch_cosigners : List Key) where
    -- The node's cosigners are our own key, others of the batch, and the batch's operator; and the output it
    -- spends is locked to just these keys, with the forfeit key's sweep after the batch's expiry.
    pub record IsTreeNode (operator : Key) (chunk : Chunk) : Type 0 where
      pub cosigners : List Key
      pub prevout : TxOutput
      pub read : vtxo_tree_cosigners lib chunk ≡ ok cosigners
      pub own : contains cosigners own_cosigner ≡ true
      pub foreign :
          (key : Key)
          → (contains cosigners key && not (contains batch_cosigners key)) ≡ (key == operator)
      pub spent : graph_prevout nodes commitment chunk.tx ≡ ok prevout
      pub locked :
          lib.tree_script (sort_keys cosigners) batch_expiry forfeit_pk ≡ some prevout.script_pubkey

    expected_vtxo_tree_script-eq-ok :
        (chunk : Chunk) (cosigners : List Key) (script : Script)
        → vtxo_tree_cosigners lib chunk ≡ ok cosigners
        → expected_vtxo_tree_script lib chunk batch_expiry forfeit_pk own_cosigner ≡ ok script
        → lib.tree_script (sort_keys cosigners) batch_expiry forfeit_pk ≡ some script
    unfolding expected_vtxo_tree_script
    expected_vtxo_tree_script-eq-ok chunk cosigners script c h =
        let first = >>=-eq-ok (vtxo_tree_cosigners lib chunk) _ h in
        let rest =
          reject-eq-ok (not (contains first.0 own_cosigner)) own_cosigner_missing _ first.2 in
        ok_or-eq-ok _ unfinished_script (
          subst
            (λ keys.
              ok_or (lib.tree_script (sort_keys keys) batch_expiry forfeit_pk) unfinished_script
              ≡ ok script)
            {x = first.0} {y = cosigners} (ground (arith, first.1)) rest.1)

    check_tree_node_lem :
        (before : Option Key) (chunk : Chunk)
        → Ensures
            (λ operator. IsTreeNode operator chunk × (differs before operator ≡ false))
            (check_tree_node lib nodes commitment batch_expiry forfeit_pk own_cosigner
              batch_cosigners before chunk)
    unfolding check_tree_node
    check_tree_node_lem before chunk =
        Ensures-bind (vtxo_tree_cosigners lib chunk) _ (λ cosigners c.
          Ensures-reject (not (contains cosigners own_cosigner)) own_cosigner_missing _ (λ own.
            Ensures-bind (only_operator (extra_keys batch_cosigners cosigners)) _ (λ operator o.
              Ensures-reject (differs before operator) inconsistent_operators _ (λ same.
                Ensures-bind (graph_prevout nodes commitment chunk.tx) _ (λ prevout p.
                  Ensures-bind
                    (expected_vtxo_tree_script lib chunk batch_expiry forfeit_pk own_cosigner) _
                    (λ script s.
                      Ensures-reject (not (prevout.script_pubkey == script)) wrong_script _ (λ w.
                        returns (
                          record {
                            cosigners = cosigners;
                            prevout = prevout;
                            read = c;
                            own = ground arith;
                            foreign = λ key. ground (
                              arith,
                              contains-extra_keys batch_cosigners cosigners key,
                              only_operator-eq-ok (extra_keys batch_cosigners cosigners) operator o,
                            );
                            spent = p;
                            locked = ground (
                              arith,
                              expected_vtxo_tree_script-eq-ok chunk cosigners script c s,
                              list_beq_iff prevout.script_pubkey script,
                            );
                          },
                          same,
                        ))))))))

    -- One operator for all of them, the one before if there was one.
    check_tree_nodes_lem :
        (before : Option Key) (entries : Nodes)
        → Ensures
            (λ _.
              (operator : Key) × (differs before operator ≡ false)
              × All (λ (entry : Txid × Chunk). IsTreeNode operator entry.1) entries)
            (check_tree_nodes lib nodes commitment batch_expiry forfeit_pk own_cosigner
              batch_cosigners before entries)
    unfolding check_tree_nodes
    check_tree_nodes_lem none [] = returns ([], refl, tt)
    check_tree_nodes_lem (some key) [] = returns (key, ground (arith, ==-refl key), tt)
    check_tree_nodes_lem before (entry ∷ rest) = Ensures-bind _ _ (λ operator o.
        let here = Ensures-ok _ operator (check_tree_node_lem before entry.1) o in
        Ensures-imp
          (λ _ others.
            let same = (list_beq_iff operator others.0).0 (ground arith) in
            (
              others.0,
              subst (λ key. differs before key ≡ false) same here.1,
              (subst (λ key. IsTreeNode key entry.1) same here.0, others.2),
            ))
          (check_tree_nodes_lem (some operator) rest))

    All-get :
        (operator : Key) (entries : Nodes)
        → All (λ (entry : Txid × Chunk). IsTreeNode operator entry.1) entries
        → (txid : Txid) (chunk : Chunk) → get entries txid ≡ some chunk
        → IsTreeNode operator chunk
    unfolding get
    All-get operator [] a txid chunk h = absurd (ground arith)
    All-get operator (entry ∷ rest) a txid chunk h = elim (Bool-cases (txid == entry.0)) [
      | inl same ↦ subst (IsTreeNode operator) {x = entry.1} {y = chunk} (ground arith) a.0
      | inr other ↦ All-get operator rest a.1 txid chunk (ground arith)
    ]

  -- The tree that carries the commitment's first output to one leaf with just the wanted outputs.
  pub record IsVtxoTree (chunks : List Chunk) (commitment : Tx) (batch_expiry : ℕ)
      (forfeit_pk own_cosigner : Key) (batch_cosigners : List Key) (leaf_outputs : List TxOutput)
      (outpoint : OutPoint) : Type 0 where
    pub nodes : Nodes
    pub graph : IsGraph lib.anchor chunks commitment 0 nodes
    pub operator : Key
    pub signed :
        (txid : Txid) (chunk : Chunk)
        → get nodes txid ≡ some chunk
        → IsTreeNode nodes commitment batch_expiry forfeit_pk own_cosigner batch_cosigners operator
            chunk
    pub leaf : Chunk
    pub place : ℕ
    pub received : get_elem? chunks place ≡ some leaf
    pub fits : IsFit (leaf_outputs ++ (lib.anchor ∷ [])) leaf
    pub only : IsOnly (leaf_outputs ++ (lib.anchor ∷ [])) leaf chunks
    pub located : outpoint ≡ record { txid = leaf.tx.txid; vout = 0 }

  pub validate_vtxo_tree-IsVtxoTree :
      (chunks : List Chunk) (commitment : Tx) (batch_expiry : ℕ) (forfeit_pk own_cosigner : Key)
      (batch_cosigners : List Key) (leaf_outputs : List TxOutput) (outpoint : OutPoint)
      → validate_vtxo_tree lib chunks commitment batch_expiry forfeit_pk own_cosigner
          batch_cosigners leaf_outputs
        ≡ ok outpoint
      → IsVtxoTree chunks commitment batch_expiry forfeit_pk own_cosigner batch_cosigners
          leaf_outputs outpoint
  unfolding validate_vtxo_tree
  validate_vtxo_tree-IsVtxoTree chunks commitment batch_expiry forfeit_pk own_cosigner
        batch_cosigners leaf_outputs outpoint h =
      let first = >>=-eq-ok (in_graph (validate_graph lib.anchor chunks commitment 0)) _ h in
      let second =
        >>=-eq-ok
          (check_tree_nodes lib first.0 commitment batch_expiry forfeit_pk own_cosigner
            batch_cosigners none first.0)
          _ first.2 in
      let nodes =
        Ensures-ok _ second.0
          (check_tree_nodes_lem first.0 commitment batch_expiry forfeit_pk own_cosigner
            batch_cosigners none first.0)
          second.1 in
      let last = only_leaf-eq-ok _ outpoint second.2 in
      let match = one_match _ last.0 chunks last.1 in
      record {
        nodes = first.0;
        graph =
            validate_graph-IsGraph lib.anchor chunks commitment 0 first.0
              (in_graph-eq-ok _ first.0 first.1);
        operator = nodes.0;
        signed =
            All-get first.0 commitment batch_expiry forfeit_pk own_cosigner batch_cosigners nodes.0
              first.0 nodes.2;
        leaf = last.0;
        place = match.0;
        received = match.1;
        fits = match.2;
        only = match.3;
        located = last.2;
      }
