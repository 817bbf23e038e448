-- ===== src/Batch/Graph/Traversal.antt =====
-- The traversal of the received nodes in `validate_graph` of src/batch.rs.
use mathlib.Core.List.{reverse-cons}
use woodland_sh.Base.{
  ℕ, zero, suc, ◌+◌, ◌≤◌, Bool, true, false, Option, none, some, List, [], ◌∷◌, reverse, length,
  ◌==◌, nat_eq, list_eq, subst, contains, ◌≡◌, refl, All, All-append, arith, inl, inr, Bool-cases,
  sym, ==-refl, list_beq_iff, ◌∙◌, if◌then◌else◌,
}
use woodland_sh.Base.Dict.{get}
use woodland_sh.Base.Distinct.{IsDistinct, IsWithin, length-le-length, IsWithin-all}
use woodland_sh.Batch.Graph.{
  cycle, lost_transaction, Txid, Chunk, Nodes, is_some, keys, received_children, traverse,
}
use woodland_sh.Batch.Graph.Outcomes.{Outcome, Outcome-reject, Outcome-some, returns}

abbrev pub values : List (ℕ × Txid) → List Txid
values [] = []
values (child ∷ rest) = child.1 ∷ values rest

-- What the root's child maps lead to, through received nodes.
pub data Reaches (nodes : Nodes) (root : Txid) : Txid → Type 0 where
  here : Reaches nodes root root
  below :
      (parent child : Txid) (chunk : Chunk)
      → Reaches nodes root parent
      → get nodes parent ≡ some chunk
      → contains (values chunk.children) child ≡ true
      → Reaches nodes root child

pub contains-keys :
    (nodes : Nodes) (txid : Txid) → contains (keys nodes) txid ≡ is_some (get nodes txid)
unfolding get
contains-keys [] txid = refl
contains-keys (entry ∷ rest) txid = ground (arith, contains-keys rest txid)

pub length-keys : (nodes : Nodes) → length (keys nodes) ≡ length nodes
length-keys [] = refl
length-keys (entry ∷ rest) = ground (arith, length-keys rest)

pub some_of {ℓ} : {A : Type ℓ} (o : Option A) → is_some o ≡ true → (a : A) × (o ≡ some a)
some_of none h = absurd (ground arith)
some_of (some a) h = (a, refl)

All-contains {κ} :
    (P : Txid → Type κ) (xs : List Txid) (a : Txid) → All P xs → contains xs a ≡ true → P a
All-contains P [] a h c = absurd (ground arith)
All-contains P (x ∷ rest) a h c = elim (Bool-cases (a == x)) [
  | inl same ↦ subst P (sym ((list_beq_iff a x).0 same)) h.0
  | inr other ↦ All-contains P rest a h.1 (ground arith)
]

All-if {κ} :
    (t : Bool) (P : Txid → Type κ) (a : Txid) (xs : List Txid)
    → (t ≡ true → P a)
    → All P xs
    → All P (if t then a ∷ xs else xs)
All-if true P a xs p h = (p refl, h)
All-if false P a xs p h = h

All-reverse {κ} : (P : Txid → Type κ) (xs : List Txid) → All P xs → All P (reverse xs)
All-reverse P [] h = tt
All-reverse P (x ∷ rest) h =
    subst (All P) (sym (reverse-cons x rest))
      (All-append P (reverse rest) (x ∷ []) (All-reverse P rest h.1) (h.0, tt))

module _ (nodes : Nodes) (root : Txid) where
  abbrev pub IsPending : Txid → Type 0
  IsPending txid = Reaches nodes root txid × (is_some (get nodes txid) ≡ true)

  abbrev pub IsVisit : List Txid → Type 0
  IsVisit visited = IsDistinct visited × All IsPending visited

  received_children-IsPending :
      (children : List (ℕ × Txid))
      → ((txid : Txid) → contains (values children) txid ≡ true → Reaches nodes root txid)
      → All IsPending (received_children nodes children)
  unfolding received_children
  received_children-IsPending [] reach = tt
  received_children-IsPending (child ∷ rest) reach =
      let others = received_children-IsPending rest (λ txid h. reach txid (ground arith)) in
      All-if (is_some (get nodes child.1)) IsPending child.1 _
        (λ received. (reach child.1 (ground (arith, ==-refl child.1)), received)) others

  All-IsWithin : (visited : List Txid) → All IsPending visited → IsWithin visited (keys nodes)
  All-IsWithin [] a txid h = absurd (ground arith)
  All-IsWithin (x ∷ rest) a txid h = ground (
    arith,
    All-IsWithin rest a.1 txid,
    list_beq_iff txid x,
    contains-keys nodes txid,
    contains-keys nodes x,
  )

  IsVisit-length : (visited : List Txid) → IsVisit visited → length visited ≤ length nodes
  IsVisit-length visited v =
      let le = length-le-length visited (keys nodes) v.0 (All-IsWithin visited v.1) in
      omega (arith, length-keys nodes)

  -- With one more fuel than nodes left, the traversal ends.
  pub traverse_lem :
      (fuel : ℕ) (pending visited : List Txid)
      → All IsPending pending
      → IsVisit visited
      → fuel + length visited ≡ length nodes + 1
      → Outcome IsVisit (traverse nodes fuel pending visited)
  unfolding traverse
  traverse_lem zero pending visited p v h = absurd (omega (arith, IsVisit-length visited v))
  traverse_lem (suc fuel) [] visited p v h = returns v
  traverse_lem (suc fuel) (txid ∷ pending) visited p v h =
      Outcome-reject (contains visited txid) cycle _ refl (λ new.
        let found = some_of (get nodes txid) p.0.1 in
        Outcome-some (get nodes txid) found.0 lost_transaction _ found.1 (
          traverse_lem fuel _ (txid ∷ visited)
            (All-append IsPending (reverse (received_children nodes found.0.children)) pending
              (All-reverse IsPending (received_children nodes found.0.children) (
                received_children-IsPending found.0.children
                  (λ child h. below txid child found.0 p.0.0 found.1 h)))
              p.1)
            ((new, v.0), (p.0, v.1)) (omega arith)))

  -- A visit as long as the nodes has met each of them.
  pub IsVisit-all :
      (visited : List Txid)
      → IsVisit visited
      → length visited ≡ length nodes
      → (txid : Txid) → is_some (get nodes txid) ≡ true
      → Reaches nodes root txid
  IsVisit-all visited v h txid there =
      let met =
        IsWithin-all visited (keys nodes) v.0 (All-IsWithin visited v.1)
          (omega (arith, length-keys nodes)) txid (contains-keys nodes txid ∙ there) in
      (All-contains IsPending visited txid v.1 met).0
