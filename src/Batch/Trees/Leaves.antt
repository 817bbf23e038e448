-- ===== src/Batch/Trees/Leaves.antt =====
-- The one leaf that `validate_vtxo_tree` of src/batch.rs looks for.
use woodland_sh.Base.{
  ℕ, Bool, true, ◌&&◌, some, suc, get_elem?, ap, List, [], ◌∷◌, length, ◌==◌, nat_eq, list_eq,
  option_eq, list_beq_iff, ok, ◌≡◌, refl, All, subst, inl, inr, Bool-cases, arith,
}
use woodland_sh.Indexer.{OutPoint, TxOutput}
use woodland_sh.Batch.Graph.{Chunk, output_eq}
use woodland_sh.Batch.Trees.{matching_leaves, only_leaf}

abbrev pub IsFit : List TxOutput → Chunk → Type 0
IsFit expected chunk = (chunk.children ≡ []) × (chunk.tx.outputs ≡ expected)

pub empty_of {ℓ} : {A : Type ℓ} (xs : List A) → (length xs == 0) ≡ true → xs ≡ []
empty_of [] h = refl
empty_of (x ∷ xs) h = absurd (ground arith)

is_fit : List TxOutput → Chunk → Bool
is_fit expected chunk = (length chunk.children == 0) && (chunk.tx.outputs == expected)

is_fit-IsFit :
    (expected : List TxOutput) (chunk : Chunk) → is_fit expected chunk ≡ true → IsFit expected chunk
unfolding is_fit
is_fit-IsFit expected chunk h = (
  empty_of chunk.children (ground arith),
  (list_beq_iff chunk.tx.outputs expected).0 (ground arith),
)

IsFit-is_fit :
    (expected : List TxOutput) (chunk : Chunk) → IsFit expected chunk → is_fit expected chunk ≡ true
unfolding is_fit
IsFit-is_fit expected chunk h =
    ground (arith, ap (λ xs. length xs) h.0, list_beq_iff chunk.tx.outputs expected)

-- Every fitting chunk of the list is this one.
abbrev pub IsOnly : List TxOutput → Chunk → List Chunk → Type 0
IsOnly expected leaf = All (λ chunk. IsFit expected chunk → chunk ≡ leaf)

matching_leaves-IsOnly :
    (expected : List TxOutput) (leaf : Chunk) (chunks : List Chunk)
    → matching_leaves expected chunks ≡ []
    → IsOnly expected leaf chunks
unfolding matching_leaves is_fit
matching_leaves-IsOnly expected leaf [] h = tt
matching_leaves-IsOnly expected leaf (chunk ∷ rest) h = elim (Bool-cases (is_fit expected chunk)) [
  | inl fit ↦ absurd (ground arith)
  | inr other ↦ (
    (λ f. absurd (ground (arith, IsFit-is_fit expected chunk f))),
    matching_leaves-IsOnly expected leaf rest (ground arith),
  )
]

pub one_match :
    (expected : List TxOutput) (leaf : Chunk) (chunks : List Chunk)
    → matching_leaves expected chunks ≡ leaf ∷ []
    → (i : ℕ) × (get_elem? chunks i ≡ some leaf) × IsFit expected leaf × IsOnly expected leaf chunks
unfolding matching_leaves is_fit
one_match expected leaf [] h = cc
one_match expected leaf (chunk ∷ rest) h = elim (Bool-cases (is_fit expected chunk)) [
  | inl fit ↦
      let same : chunk ≡ leaf = ground arith in
      (
        0,
        ground arith,
        subst (IsFit expected) same (is_fit-IsFit expected chunk fit),
        ((λ _. same), matching_leaves-IsOnly expected leaf rest (ground arith)),
      )
  | inr other ↦
      let later = one_match expected leaf rest (ground arith) in
      (
        suc later.0,
        later.1,
        later.2,
        ((λ f. absurd (ground (arith, IsFit-is_fit expected chunk f))), later.3),
      )
]

pub only_leaf-eq-ok :
    (leaves : List Chunk) (outpoint : OutPoint)
    → only_leaf leaves ≡ ok outpoint
    → (leaf : Chunk) × (leaves ≡ leaf ∷ []) × (outpoint ≡ record { txid = leaf.tx.txid; vout = 0 })
unfolding only_leaf
only_leaf-eq-ok [] outpoint h = cc
only_leaf-eq-ok (leaf ∷ []) outpoint h = (leaf, refl, ground arith)
only_leaf-eq-ok (leaf ∷ other ∷ rest) outpoint h = cc
