-- ===== src/World/Lineage/Advance.antt =====
-- `TreeLineageScan::advance` of src/world.rs keeps a scan in order.
use woodland_sh.Base.{
  ℕ, Bool, true, false, none, some, List, [], ◌∷◌, ◌++◌, get_elem?, nat_eq, list_eq, contains, ok,
  ◌>>=◌, ok_or, Ensures, returns, fails, Ensures-bind, Ensures-reject, Ensures-ok, ok_or-eq-ok, ◌≡◌,
  refl, arith,
}
use woodland_sh.Base.Dict.{Dict, get, delete, get-delete}
use woodland_sh.Base.Distinct.{IsWithin}
use woodland_sh.Indexer.{OutPoint, outpoint_eq, outpoint_beq_iff}
use woodland_sh.Tree.{TreeState}
use woodland_sh.World.Lineage.{
  LineageError, lost_identity, wrong_identity, cycle, LineageRecord, PendingTreeLineage, successor,
  TreeLineageScan, Successor, matching_indices, spends_elsewhere, add_next, LineageStep,
  advance_spent, advance_record, advance_records, advance,
}
use woodland_sh.World.Lineage.Kept.{
  outpoints, IsReady, IsKept, IsReady-rest, stay, defer, follow, times, IsScan,
}

-- The three ways of a record.
data IsStep (states : Dict OutPoint TreeState) (visited : List OutPoint)
    (pending : List PendingTreeLineage) (first : LineageRecord) : LineageStep → Type 0 where
  stays :
      {successors : List Successor}
      → IsStep states visited pending first (record {
        next = some first;
        states = states;
        visited = visited;
        pending = pending;
        successors = successors;
      })
  defers :
      {successors : List Successor} (state : TreeState)
      → get states first.outpoint ≡ some state
      → IsStep states visited pending first (record {
        next = none;
        states = delete states first.outpoint;
        visited = visited;
        pending = pending ++ (successor state.tree_id first.outpoint ∷ []);
        successors = successors;
      })
  follows :
      {successors : List Successor} (state : TreeState) (next : LineageRecord)
      → get states first.outpoint ≡ some state
      → contains visited next.outpoint ≡ false
      → IsStep states visited pending first (record {
        next = some next;
        states = (next.outpoint, state) ∷ delete states first.outpoint;
        visited = next.outpoint ∷ visited;
        pending = pending;
        successors = successors;
      })

module _ (states : Dict OutPoint TreeState) (visited : List OutPoint)
    (pending : List PendingTreeLineage) (successors : List Successor) (first : LineageRecord) where
  spent_lem :
      (state : TreeState) (indices : List ℕ)
      → get states first.outpoint ≡ some state
      → Ensures
          (IsStep states visited pending first)
          (advance_spent states visited pending successors first state indices)
  unfolding advance_spent
  spent_lem state [] s =
      Ensures-reject (spends_elsewhere first.spent_by successors) wrong_identity _
        (λ _. returns (defers state s))
  spent_lem state (index ∷ []) s =
      Ensures-bind (ok_or (get_elem? successors index) lost_identity) _ (λ found _.
        Ensures-reject (contains visited found.1.outpoint) cycle _
          (λ new. returns (follows state found.1 s new)))
  spent_lem state (index ∷ more ∷ others) s = fails

  record_lem :
      Ensures
        (IsStep states visited pending first)
        (advance_record states visited pending successors first)
  unfolding advance_record
  record_lem = by_spent first.is_spent
    where
      by_spent :
          (spent : Bool)
          → Ensures {E = LineageError} (IsStep states visited pending first) (elim spent [
            | false ↦ ok (record {
              next = some first;
              states = states;
              visited = visited;
              pending = pending;
              successors = successors;
            })
            | true ↦ ok_or (get states first.outpoint) lost_identity >>= λ state.
                advance_spent states visited pending successors first state
                  (matching_indices state first.spent_by 0 successors)
          ])
      by_spent false = returns (stays)
      by_spent true = Ensures-bind (ok_or (get states first.outpoint) lost_identity) _ (λ state s.
          spent_lem state (matching_indices state first.spent_by 0 successors)
            (ok_or-eq-ok (get states first.outpoint) lost_identity s))

-- The states of the records that are left do not change when the successor's is put in.
passed :
    (states : Dict OutPoint TreeState) (visited : List OutPoint) (first next : LineageRecord)
    (rest : List LineageRecord) (state : TreeState)
    → IsReady states visited (first ∷ rest)
    → contains visited next.outpoint ≡ false
    → (o : OutPoint) → contains (outpoints rest) o ≡ true
    → get ((next.outpoint, state) ∷ delete states first.outpoint) o ≡ get states o
unfolding get
passed states visited first next rest state r new o h = ground (
  arith,
  get-delete states first.outpoint o,
  r.distinct.0,
  r.within o,
  outpoint_beq_iff o first.outpoint,
  outpoint_beq_iff o next.outpoint,
)

-- Where the step goes, the rest is ready, and what is kept below is kept here.
go_on :
    (states : Dict OutPoint TreeState) (visited : List OutPoint) (pending : List PendingTreeLineage)
    (first : LineageRecord) (rest : List LineageRecord) (step : LineageStep)
    → IsReady states visited (first ∷ rest)
    → IsStep states visited pending first step
    → IsReady step.states step.visited rest
      × ((scan : TreeLineageScan)
          → IsKept step.states step.visited step.pending rest scan
          → IsKept states visited pending (first ∷ rest) (add_next step.next scan))
go_on states visited pending first rest step r stays = (
  IsReady-rest states states visited visited first rest r (λ o v. v) (λ o h. refl),
  (λ scan k. stay states visited pending first rest scan r k),
)
go_on states visited pending first rest step r (defers state g) = (
  IsReady-rest states (delete states first.outpoint) visited visited first rest r (λ o v. v)
      (λ o h. ground (
        arith,
        get-delete states first.outpoint o,
        r.distinct.0,
        outpoint_beq_iff o first.outpoint,
      )),
  (λ scan k. defer states visited pending first rest state scan r g k),
)
go_on states visited pending first rest step r (follows state next g new) = (
  IsReady-rest states ((next.outpoint, state) ∷ delete states first.outpoint) visited
      (next.outpoint ∷ visited) first rest r (λ o v. ground arith)
      (λ o h. passed states visited first next rest state r new o h),
  (λ scan k. follow states visited pending first next rest state scan r g new k),
)

advance_records_lem :
    (states : Dict OutPoint TreeState) (visited : List OutPoint) (pending : List PendingTreeLineage)
    (successors : List Successor) (records : List LineageRecord)
    → IsReady states visited records
    → Ensures
        (IsKept states visited pending records)
        (advance_records states visited pending successors records)
unfolding advance_records
advance_records_lem states visited pending successors [] r = returns (record {
  ready = record {
    distinct = tt;
    within = λ o h. absurd (ground arith);
    known = λ o h. absurd (ground arith);
  };
  same = λ o v h. refl;
  wider = λ o v. v;
  fresh = λ o h. absurd (ground arith);
  tracked = λ id. refl;
})
advance_records_lem states visited pending successors (first ∷ rest) r =
    Ensures-bind (advance_record states visited pending successors first) _ (λ step e.
      let way = Ensures-ok _ step (record_lem states visited pending successors first) e in
      let on = go_on states visited pending first rest step r way in
      Ensures-bind (advance_records step.states step.visited step.pending step.successors rest) _
        (λ scan f.
          let later =
            advance_records_lem step.states step.visited step.pending step.successors rest on.0 in
          returns (on.1 scan (Ensures-ok _ scan later f))))

-- A scan whose current records have different outpoints, all visited and each with its tree's state, has
-- such records again after it has advanced, whatever successors the indexer gives. Each tree is in it as often
-- as before, as a current record or as a pending lineage, and no outpoint that was visited is forgotten.
pub advance-IsScan :
    (scan next : TreeLineageScan) (successors : List Successor)
    → IsScan scan
    → advance scan successors ≡ ok next
    → IsScan next × ((id : ℕ) → times id next ≡ times id scan) × IsWithin scan.visited next.visited
unfolding advance
advance-IsScan scan next successors r e =
    let kept =
      Ensures-ok _ next
        (advance_records_lem scan.states scan.visited scan.pending successors scan.current r) e in
    (kept.ready, kept.tracked, kept.wider)
