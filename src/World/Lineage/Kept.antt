-- ===== src/World/Lineage/Kept.antt =====
-- No tree is lost or doubled in a scan of src/world.rs.
use woodland_sh.Base.{
  ℕ, ◌+◌, true, false, not, ◌&&◌, Option, none, some, List, [], ◌∷◌, ◌++◌, if◌then◌else◌, ◌==◌,
  nat_eq, list_eq, contains, ==-refl, ◌≡◌, refl, ◌∙◌, ap, arith,
}
use woodland_sh.Base.Dict.{Dict, get, delete, get-delete}
use woodland_sh.Base.Distinct.{IsDistinct, IsWithin}
use woodland_sh.Indexer.{OutPoint, outpoint_eq, outpoint_beq_iff}
use woodland_sh.Tree.{TreeState}
use woodland_sh.World.Lineage.{
  LineageRecord, PendingTreeLineage, deployment, successor, TreeLineageScan, is_some, add_next,
}

abbrev pub outpoints : List LineageRecord → List OutPoint
outpoints [] = []
outpoints (first ∷ rest) = first.outpoint ∷ outpoints rest

abbrev pub one_for : ℕ → Option TreeState → ℕ
one_for id none = 0
one_for id (some state) = if state.tree_id == id then 1 else 0

abbrev pub pending_one : ℕ → PendingTreeLineage → ℕ
pending_one id (deployment tree_id outpoint) = if tree_id == id then 1 else 0
pending_one id (successor tree_id outpoint) = if tree_id == id then 1 else 0

-- How often a tree is among the records, by their states, and among the pending.
abbrev pub weight : ℕ → Dict OutPoint TreeState → List LineageRecord → ℕ
weight id states [] = 0
weight id states (first ∷ rest) = one_for id (get states first.outpoint) + weight id states rest

abbrev pub pending_weight : ℕ → List PendingTreeLineage → ℕ
pending_weight id [] = 0
pending_weight id (first ∷ rest) = pending_one id first + pending_weight id rest

pending_weight-append :
    (id : ℕ) (xs ys : List PendingTreeLineage)
    → pending_weight id (xs ++ ys) ≡ pending_weight id xs + pending_weight id ys
pending_weight-append id [] ys = omega arith
pending_weight-append id (x ∷ xs) ys = omega (arith, pending_weight-append id xs ys)

-- States that agree on the records' outpoints give the same weight.
weight-eq :
    (id : ℕ) (states other : Dict OutPoint TreeState) (records : List LineageRecord)
    → ((o : OutPoint) → contains (outpoints records) o ≡ true → get states o ≡ get other o)
    → weight id states records ≡ weight id other records
weight-eq id states other [] h = refl
weight-eq id states other (first ∷ rest) h =
    let here = h first.outpoint (ground (arith, ==-refl first.outpoint)) in
    let there = weight-eq id states other rest (λ o k. h o (ground arith)) in
    ap (λ s. one_for id s + weight id states rest) here
    ∙ ap (λ n. one_for id (get other first.outpoint) + n) there

-- The records have different outpoints, all visited, and each has its tree's state.
pub record IsReady (states : Dict OutPoint TreeState) (visited : List OutPoint)
    (records : List LineageRecord) : Type 0 where
  pub distinct : IsDistinct (outpoints records)
  pub within : IsWithin (outpoints records) visited
  pub known : (o : OutPoint) → contains (outpoints records) o ≡ true → is_some (get states o) ≡ true

pub record IsKept (states : Dict OutPoint TreeState) (visited : List OutPoint)
    (pending : List PendingTreeLineage) (records : List LineageRecord) (scan : TreeLineageScan)
    : Type 0 where
  pub ready : IsReady scan.states scan.visited scan.current
  pub same :
      (o : OutPoint)
      → contains visited o ≡ true
      → contains (outpoints records) o ≡ false
      → get scan.states o ≡ get states o
  pub wider : IsWithin visited scan.visited
  pub fresh :
      (o : OutPoint)
      → contains (outpoints scan.current) o ≡ true
      → (contains visited o && not (contains (outpoints records) o)) ≡ false
  pub tracked :
      (id : ℕ)
      → weight id scan.states scan.current + pending_weight id scan.pending
        ≡ weight id states records + pending_weight id pending

-- The record stays.
pub stay :
    (states : Dict OutPoint TreeState) (visited : List OutPoint) (pending : List PendingTreeLineage)
    (first : LineageRecord) (rest : List LineageRecord) (scan : TreeLineageScan)
    → IsReady states visited (first ∷ rest)
    → IsKept states visited pending rest scan
    → IsKept states visited pending (first ∷ rest) (add_next (some first) scan)
stay states visited pending first rest scan r k =
    let o = first.outpoint in
    let seen = r.within o (ground (arith, ==-refl o)) in
    let here = k.same o seen r.distinct.0 in
    record {
      ready = record {
        distinct = (ground (arith, k.fresh o, r.distinct.0), k.ready.distinct);
        within = λ p h. ground (arith, k.ready.within p, k.wider o seen, outpoint_beq_iff p o);
        known = λ p h.
            ground
              (arith, k.ready.known p, r.known o (ground (arith, ==-refl o)), outpoint_beq_iff p o);
      };
      same = λ p v h. k.same p v (ground arith);
      wider = k.wider;
      fresh = λ p h. ground (arith, k.fresh p, outpoint_beq_iff p o);
      tracked = λ id. omega (arith, k.tracked id, ap (one_for id) here);
    }

-- The records that are left are ready, whatever happens to the states elsewhere.
pub IsReady-rest :
    (states other : Dict OutPoint TreeState) (visited more : List OutPoint) (first : LineageRecord)
    (rest : List LineageRecord)
    → IsReady states visited (first ∷ rest)
    → IsWithin visited more
    → ((o : OutPoint) → contains (outpoints rest) o ≡ true → get other o ≡ get states o)
    → IsReady other more rest
IsReady-rest states other visited more first rest r wider same = record {
  distinct = r.distinct.1;
  within = λ o h. wider o (r.within o (ground arith));
  known = λ o h. ap is_some (same o h) ∙ r.known o (ground arith);
}

-- The record's successor is not indexed yet.
pub defer :
    (states : Dict OutPoint TreeState) (visited : List OutPoint) (pending : List PendingTreeLineage)
    (first : LineageRecord) (rest : List LineageRecord) (state : TreeState) (scan : TreeLineageScan)
    → IsReady states visited (first ∷ rest)
    → get states first.outpoint ≡ some state
    → IsKept
        (delete states first.outpoint)
        visited
        (pending ++ (successor state.tree_id first.outpoint ∷ []))
        rest
        scan
    → IsKept states visited pending (first ∷ rest) scan
defer states visited pending first rest state scan r s k =
    let gone = λ (p : OutPoint). get-delete states first.outpoint p in
    let moved = λ (id : ℕ).
      weight-eq id (delete states first.outpoint) states rest
        (λ p h. ground (arith, gone p, r.distinct.0, outpoint_beq_iff p first.outpoint)) in
    record {
      ready = k.ready;
      same = λ p v h. ground (arith, k.same p v, gone p);
      wider = k.wider;
      fresh = λ p h. ground (arith, k.fresh p);
      tracked = λ id. omega (
        arith,
        k.tracked id,
        moved id,
        ap (one_for id) s,
        pending_weight-append id pending (successor state.tree_id first.outpoint ∷ []),
      );
    }

-- The record's successor takes its place.
pub follow :
    (states : Dict OutPoint TreeState) (visited : List OutPoint) (pending : List PendingTreeLineage)
    (first next : LineageRecord) (rest : List LineageRecord) (state : TreeState)
    (scan : TreeLineageScan)
    → IsReady states visited (first ∷ rest)
    → get states first.outpoint ≡ some state
    → contains visited next.outpoint ≡ false
    → IsKept
        ((next.outpoint, state) ∷ delete states first.outpoint)
        (next.outpoint ∷ visited)
        pending
        rest
        scan
    → IsKept states visited pending (first ∷ rest) (add_next (some next) scan)
unfolding get
follow states visited pending first next rest state scan r s new k =
    let n = next.outpoint in
    let gone = λ (p : OutPoint). get-delete states first.outpoint p in
    let unseen : contains (outpoints rest) n ≡ false = ground (arith, r.within n) in
    let here = k.same n (ground (arith, ==-refl n)) unseen in
    let placed : get scan.states n ≡ some state = ground (arith, here, ==-refl n) in
    let moved = λ (id : ℕ).
      weight-eq id ((n, state) ∷ delete states first.outpoint) states rest (λ p h. ground (
        arith,
        gone p,
        r.distinct.0,
        unseen,
        outpoint_beq_iff p first.outpoint,
        outpoint_beq_iff p n,
      )) in
    record {
      ready = record {
        distinct = (ground (arith, k.fresh n, ==-refl n, unseen), k.ready.distinct);
        within =
            λ p h. ground (arith, k.ready.within p, k.wider n, ==-refl n, outpoint_beq_iff p n);
        known = λ p h. ground (arith, k.ready.known p, here, ==-refl n, outpoint_beq_iff p n);
      };
      same = λ p v h. ground (arith, k.same p, gone p, outpoint_beq_iff p n);
      wider = λ p v. k.wider p (ground arith);
      fresh = λ p h. ground (arith, k.fresh p, outpoint_beq_iff p n);
      tracked =
          λ id. omega (arith, k.tracked id, moved id, ap (one_for id) placed, ap (one_for id) s);
    }

-- How often a tree is in a scan.
abbrev pub times : ℕ → TreeLineageScan → ℕ
times id scan = weight id scan.states scan.current + pending_weight id scan.pending

abbrev pub IsScan : TreeLineageScan → Type 0
IsScan scan = IsReady scan.states scan.visited scan.current
