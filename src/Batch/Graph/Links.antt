-- ===== src/Batch/Graph/Links.antt =====
-- The nodes that `validate_graph` of src/batch.rs collects, and the links it checks between them.
use woodland_sh.Base.{
  ℕ, zero, suc, ◌+◌, ◌-◌, ◌<◌, not, ◌||◌, true, false, Option, none, some, List, [], ◌∷◌, length,
  get_elem?, ◌==◌, nat_eq, list_eq, option_eq, subst, sym, ==-refl, ◌∙◌, >>=-eq-ok, list_beq_iff,
  option_beq_iff, contains, ok, ◌≡◌, refl, All, leb, ltb, arith, inl, inr, Bool-cases,
}
use woodland_sh.Base.Dict.{get}
use woodland_sh.Base.Words.{checked_add}
use woodland_sh.Base.Distinct.{IsDistinct}
use woodland_sh.Indexer.{OutPoint, TxOutput, outpoint_eq, outpoint_beq_iff}
use woodland_sh.Batch.Graph.{
  value_overflow, index_panic, wrong_parent_output, value_not_preserved, Txid, Tx, Chunk, TxInput,
  Nodes, is_some, keys, is_canonical, sum_from, sum_outputs, check_chunk, collect, first_previous,
  check_received_child, check_child, check_children, check_links, wrong_txid, duplicate_transaction,
  non_canonical_shape, non_canonical_anchor, too_many_children, invalid_child_output,
  multiple_parents, last, count, output_eq, declares_other,
}
use woodland_sh.Batch.Graph.Traversal.{contains-keys}
use woodland_sh.Batch.Graph.Outcomes.{
  Outcome, Outcome-ok, Outcome-imp, Outcome-last, Outcome-bind, Outcome-ok_or, Outcome-reject,
  Outcome-some, returns,
}

abbrev pub total : List TxOutput → ℕ
total [] = 0
total (output ∷ rest) = output.value + total rest

-- The transaction has one input, which spends this output of the parent, and its outputs are worth as
-- much, summed in full.
pub record IsSpend (tx : Tx) (parent : Tx) (vout : ℕ) : Type 0 where
  pub input : TxInput
  pub output : TxOutput
  pub inputs : tx.inputs ≡ input ∷ []
  pub spends : input.previous_output ≡ record { txid = parent.txid; vout = vout }
  pub spent : get_elem? parent.outputs vout ≡ some output
  pub preserved : total tx.outputs ≡ output.value

-- The transaction of a chunk has the shape of a node: one input, and the anchor as its last output only.
pub record IsNode (anchor : TxOutput) (txid : Txid) (chunk : Chunk) : Type 0 where
  pub named : chunk.tx.txid ≡ txid
  pub declared : declares_other chunk.txid txid ≡ false
  pub canonical : is_canonical chunk.tx ≡ true
  pub ends : last chunk.tx.outputs ≡ some anchor
  pub once : count anchor chunk.tx.outputs ≡ 1
  pub children : length chunk.children < length chunk.tx.outputs

abbrev pub IsTable : TxOutput → Nodes → Type 0
IsTable anchor nodes =
    (txid : Txid) (chunk : Chunk) → get nodes txid ≡ some chunk → IsNode anchor txid chunk

one_input : (tx : Tx) → is_canonical tx ≡ true → (input : TxInput) × (tx.inputs ≡ input ∷ [])
unfolding is_canonical
one_input tx h = by_inputs tx.inputs refl
  where
    by_inputs :
        (inputs : List TxInput) → tx.inputs ≡ inputs → (input : TxInput) × (inputs ≡ input ∷ [])
    by_inputs [] e = absurd (ground arith)
    by_inputs (input ∷ []) e = (input, refl)
    by_inputs (input ∷ more ∷ rest) e = absurd (ground arith)

pub first_previous_lem :
    (tx : Tx)
    → is_canonical tx ≡ true
    → Outcome
        (λ previous.
          (input : TxInput) × (tx.inputs ≡ input ∷ []) × (input.previous_output ≡ previous))
        (first_previous tx)
first_previous_lem tx h = let one = one_input tx h in rw one.1 (returns (one.0, refl, refl))

pub sum_from_lem :
    (sum : ℕ) (outputs : List TxOutput)
    → Outcome (λ value. value ≡ sum + total outputs) (sum_from sum outputs)
unfolding sum_from
sum_from_lem sum [] = returns (omega arith)
sum_from_lem sum (output ∷ rest) =
    Outcome-ok_or (checked_add sum output.value) value_overflow _ refl
      (λ more e. Outcome-imp (λ value h. ground arith) (sum_from_lem more rest))

-- The checks that the child and the root share: the place spent, the output there, and its value.
pub IsSpend-intro :
    (tx parent : Tx) (vout : ℕ) (input : TxInput) (output : TxOutput) (previous : OutPoint)
    (value : ℕ)
    → tx.inputs ≡ input ∷ []
    → input.previous_output ≡ previous
    → not (previous == record { txid = parent.txid; vout = vout }) ≡ false
    → get_elem? parent.outputs vout ≡ some output
    → value ≡ 0 + total tx.outputs
    → not (value == output.value) ≡ false
    → IsSpend tx parent vout
IsSpend-intro tx parent vout input output previous value i p e o v s = record {
  input = input;
  output = output;
  inputs = i;
  spends = ground (arith, outpoint_beq_iff previous (record { txid = parent.txid; vout = vout }));
  spent = o;
  preserved = ground arith;
}

some_output : (tx : Tx) → is_canonical tx ≡ true → 0 < length tx.outputs
unfolding is_canonical
some_output tx h = ground arith

there : {A : Type 0} (xs : List A) (i : ℕ) → i < length xs → (a : A) × (get_elem? xs i ≡ some a)
there [] i h = absurd (omega arith)
there (x ∷ xs) zero h = (x, refl)
there (x ∷ xs) (suc i) h = there xs i (omega arith)

check_received_child_lem :
    (parent : Tx) (vout : ℕ) (child : Tx)
    → is_canonical child ≡ true
    → vout < length parent.outputs
    → Outcome (λ _. IsSpend child parent vout) (check_received_child parent vout child)
unfolding check_received_child sum_outputs
check_received_child_lem parent vout child c lt =
    let o = there parent.outputs vout lt in
    Outcome-bind _ _ (first_previous_lem child c) (λ previous _ p.
      Outcome-reject (not (previous == record { txid = parent.txid; vout = vout }))
        wrong_parent_output _ refl
        (λ e. Outcome-bind _ _ (sum_from_lem 0 child.outputs) (λ value _ v.
          Outcome-some (get_elem? parent.outputs vout) o.0 index_panic _ o.1 (
            Outcome-last (not (value == o.0.value)) value_not_preserved refl
              (λ s. IsSpend-intro child parent vout p.0 o.0 previous value p.1 p.2 e o.1 v s)))))

module _ (anchor : TxOutput) where
  IsTable-cons :
      (nodes : Nodes) (chunk : Chunk)
      → IsTable anchor nodes
      → IsNode anchor chunk.tx.txid chunk
      → IsTable anchor ((chunk.tx.txid, chunk) ∷ nodes)
  unfolding get
  IsTable-cons nodes chunk t n txid found h = elim (Bool-cases (txid == chunk.tx.txid)) [
    | inl same ↦
        subst (λ c. IsNode anchor txid c) (ground arith)
          (subst (λ id. IsNode anchor id chunk) (sym ((list_beq_iff txid chunk.tx.txid).0 same)) n)
    | inr other ↦ t txid found (ground arith)
  ]

  check_chunk_lem :
      (nodes : Nodes) (chunk : Chunk)
      → Outcome
          (λ _. IsNode anchor chunk.tx.txid chunk × (get nodes chunk.tx.txid ≡ none))
          (check_chunk anchor nodes chunk)
  unfolding check_chunk
  check_chunk_lem nodes chunk =
      Outcome-reject (declares_other chunk.txid chunk.tx.txid) wrong_txid _ refl (λ named.
        Outcome-reject (is_some (get nodes chunk.tx.txid)) duplicate_transaction _ refl (λ new.
          Outcome-reject (not (is_canonical chunk.tx)) non_canonical_shape _ refl (λ shape.
            Outcome-reject
              (not (last chunk.tx.outputs == some anchor)
                || not (count anchor chunk.tx.outputs == 1))
              non_canonical_anchor _ refl
              (λ anchored.
                Outcome-last (ltb (length chunk.tx.outputs - 1) (length chunk.children))
                  too_many_children refl
                  (λ few. (
                    record {
                      named = refl;
                      declared = named;
                      canonical = ground arith;
                      ends = ground (arith, option_beq_iff (last chunk.tx.outputs) (some anchor));
                      once = ground arith;
                      children = ground (arith, some_output chunk.tx);
                    },
                    ground arith,
                  ))))))

  -- Each node that has been collected stays, and each chunk becomes one.
  pub collect-get :
      (chunks : List Chunk) (nodes final : Nodes) (txid : Txid) (chunk : Chunk)
      → collect anchor nodes chunks ≡ ok final
      → get nodes txid ≡ some chunk
      → get final txid ≡ some chunk
  unfolding collect get
  collect-get [] nodes final txid chunk h e = ground arith
  collect-get (new ∷ rest) nodes final txid chunk h e =
      let step = >>=-eq-ok (check_chunk anchor nodes new) _ h in
      let fresh = (Outcome-ok _ tt (check_chunk_lem nodes new) step.1).1 in
      collect-get rest ((new.tx.txid, new) ∷ nodes) final txid chunk step.2
        (ground (arith, list_beq_iff txid new.tx.txid))

  pub collect-All :
      (chunks : List Chunk) (nodes final : Nodes)
      → collect anchor nodes chunks ≡ ok final
      → All (λ chunk. get final chunk.tx.txid ≡ some chunk) chunks
  unfolding collect get
  collect-All [] nodes final h = tt
  collect-All (chunk ∷ rest) nodes final h =
      let step = >>=-eq-ok (check_chunk anchor nodes chunk) _ h in
      (
        collect-get rest _ final chunk.tx.txid chunk step.2 (ground (arith, ==-refl chunk.tx.txid)),
        collect-All rest _ final step.2,
      )

  abbrev pub IsCollection : Nodes → Type 0
  IsCollection nodes = IsTable anchor nodes × IsDistinct (keys nodes)

  pub collect_lem :
      (nodes : Nodes) (chunks : List Chunk)
      → IsCollection nodes
      → Outcome
          (λ final. IsCollection final × (length final ≡ length nodes + length chunks))
          (collect anchor nodes chunks)
  unfolding collect
  collect_lem nodes [] c = returns (c, omega arith)
  collect_lem nodes (chunk ∷ rest) c = Outcome-bind _ _ (check_chunk_lem nodes chunk) (λ _ _ n.
      Outcome-imp (λ final f. (f.0, omega (arith, f.1)))
        (collect_lem ((chunk.tx.txid, chunk) ∷ nodes) rest (
          IsTable-cons nodes chunk c.0 n.0,
          (contains-keys nodes chunk.tx.txid ∙ ground (arith, n.1), c.1),
        )))

-- The link from a chunk to a child: one of its outputs, and a received child spends it whole.
abbrev pub IsLinked : Nodes → Tx → ℕ × Txid → Type 0
IsLinked nodes parent child =
    (child.0 < length parent.outputs - 1)
    × ((received : Chunk) → get nodes child.1 ≡ some received → IsSpend received.tx parent child.0)

module _ (anchor : TxOutput) (nodes : Nodes) (table : IsTable anchor nodes) where
  check_child_lem :
      (parent : Tx) (referenced : List Txid) (child : ℕ × Txid) (found : Option Chunk)
      → get nodes child.1 ≡ found
      → child.0 < length parent.outputs - 1
      → Outcome (λ _. IsLinked nodes parent child) (check_child parent referenced child found)
  unfolding check_child
  check_child_lem parent referenced child none e lt = returns (lt, λ received f. cc)
  check_child_lem parent referenced child (some received) e lt =
      let canonical = (table child.1 received e).canonical in
      Outcome-reject (contains referenced child.1) multiple_parents _ refl (λ _.
        Outcome-bind _ _
          (check_received_child_lem parent child.0 received.tx canonical (omega arith))
          (λ _ _ spend. returns (
            lt,
            λ other f.
                subst (λ (r : Chunk). IsSpend r.tx parent child.0) {x = received} {y = other}
                  (ground arith) spend,
          )))

  check_children_lem :
      (parent : Tx) (referenced : List Txid) (children : List (ℕ × Txid))
      → Outcome
          (λ _. All (IsLinked nodes parent) children)
          (check_children nodes parent referenced children)
  unfolding check_children
  check_children_lem parent referenced [] = returns tt
  check_children_lem parent referenced (child ∷ rest) =
      Outcome-reject (leb (length parent.outputs - 1) child.0) invalid_child_output _ refl
        (λ inside.
          Outcome-bind _ _
            (check_child_lem parent referenced child (get nodes child.1) refl (ground arith))
            (λ referenced' _ linked.
              Outcome-imp (λ _ others. (linked, others))
                (check_children_lem parent referenced' rest)))

  pub check_links_lem :
      (referenced : List Txid) (chunks : List Chunk)
      → Outcome
          (λ _. All (λ (chunk : Chunk). All (IsLinked nodes chunk.tx) chunk.children) chunks)
          (check_links nodes referenced chunks)
  unfolding check_links
  check_links_lem referenced [] = returns tt
  check_links_lem referenced (chunk ∷ rest) =
      Outcome-bind _ _ (check_children_lem chunk.tx referenced chunk.children)
        (λ referenced' _ here.
          Outcome-imp (λ _ others. (here, others)) (check_links_lem referenced' rest))
