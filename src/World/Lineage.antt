-- ===== src/World/Lineage.antt =====
-- `TreeLineageScan` of src/world.rs: the trees' lineages, followed through the indexer's records. Of a record
-- it reads the outpoint, whether it is spent, and by which transaction. A `HashSet` that is only tested and
-- inserted into is a list, and a `HashMap` a list of entries.
pub mod Kept
pub mod Advance
pub mod Made
mod Examples
use woodland_sh.Base.{
  ℕ, zero, suc, ◌+◌, Bool, true, false, not, ◌&&◌, ◌||◌, Option, none, some, List, [], ◌∷◌, ◌++◌,
  if◌then◌else◌, length, get_elem?, ◌==◌, Eq, nat_eq, list_eq, contains, Result, ok, err, ◌>>=◌,
  ◌>>◌, reject, ok_or,
}
use woodland_sh.Base.Dict.{Dict, get, delete}
use woodland_sh.Indexer.{OutPoint, outpoint_eq}
use woodland_sh.Tree.{TreeState, tree_state_eq}

pub data LineageError : Type 0 where
  duplicate_lineage unexpected_lineage lost_identity multiple_successors : LineageError
  wrong_identity cycle : LineageError

pub record LineageRecord : Type 0 where
  pub outpoint : OutPoint
  pub is_spent : Bool
  pub spent_by : Option (List ℕ)

pub record ValidatedTree : Type 0 where
  pub state : TreeState
  pub deployment_txid : List ℕ

pub data PendingTreeLineage : Type 0 where
  deployment successor : (tree_id : ℕ) (outpoint : OutPoint) → PendingTreeLineage

pub record TreeLineageScan : Type 0 where
  pub current : List LineageRecord
  pub pending : List PendingTreeLineage
  pub states : Dict OutPoint TreeState
  pub visited : List OutPoint

abbrev pub is_some {ℓ} : {A : Type ℓ} → Option A → Bool
is_some none = false
is_some (some a) = true

abbrev pub deployment_outpoint : ValidatedTree → OutPoint
deployment_outpoint tree = record { txid = tree.deployment_txid; vout = 0 }

unfoldable pub declare_states :
    Dict OutPoint TreeState → List ValidatedTree → Result LineageError (Dict OutPoint TreeState)
declare_states states [] = ok states
declare_states states (tree ∷ rest) = do
  reject (is_some (get states (deployment_outpoint tree))) duplicate_lineage
  declare_states ((deployment_outpoint tree, tree.state) ∷ states) rest

unfoldable pub visit_current :
    Dict OutPoint TreeState
    → List OutPoint
    → List LineageRecord
    → Result LineageError (List OutPoint)
visit_current states visited [] = ok visited
visit_current states visited (record_ ∷ rest) = do
  reject (not (is_some (get states record_.outpoint)) || contains visited record_.outpoint)
      unexpected_lineage
  visit_current states (record_.outpoint ∷ visited) rest

-- Trees whose deployment is not indexed yet lose their state, and are pending.
unfoldable pub defer_missing :
    List OutPoint
    → Dict OutPoint TreeState
    → List ValidatedTree
    → Dict OutPoint TreeState × List PendingTreeLineage
defer_missing visited states [] = (states, [])
defer_missing visited states (tree ∷ rest) =
    let here = deployment_outpoint tree in
    let known = defer_missing visited states rest in
    let deferred = defer_missing visited (delete states here) rest in
    if contains visited here
    then known
    else (deferred.0, deployment tree.state.tree_id here ∷ deferred.1)

unfoldable pub new_scan :
    List ValidatedTree → List LineageRecord → Result LineageError TreeLineageScan
unfolding declare_states visit_current defer_missing
new_scan declared current = do
  states ← declare_states [] declared
  visited ← visit_current states [] current
  let deferred = defer_missing visited states declared
  ok (record { current = current; pending = deferred.1; states = deferred.0; visited = visited })

abbrev pub Successor : Type 0
Successor = TreeState × LineageRecord

abbrev pub is_spent_by : Option (List ℕ) → Successor → Bool
is_spent_by none candidate = true
is_spent_by (some txid) candidate = candidate.1.outpoint.txid == txid

abbrev pub is_successor : TreeState → Option (List ℕ) → Successor → Bool
is_successor state spent_by candidate = (candidate.0 == state) && is_spent_by spent_by candidate

unfoldable pub matching_indices : TreeState → Option (List ℕ) → ℕ → List Successor → List ℕ
matching_indices state spent_by index [] = []
matching_indices state spent_by index (candidate ∷ rest) =
    let others = matching_indices state spent_by (suc index) rest in
    if is_successor state spent_by candidate then index ∷ others else others

unfoldable pub spends_elsewhere : Option (List ℕ) → List Successor → Bool
spends_elsewhere none successors = false
spends_elsewhere (some txid) [] = false
spends_elsewhere (some txid) (candidate ∷ rest) =
    (candidate.1.outpoint.txid == txid) || spends_elsewhere (some txid) rest

abbrev pub put_at : ℕ → Successor → List Successor → List Successor
put_at index value [] = []
put_at zero value (x ∷ rest) = value ∷ rest
put_at (suc index) value (x ∷ rest) = x ∷ put_at index value rest

abbrev pub all_but_last : List Successor → List Successor
all_but_last [] = []
all_but_last (x ∷ []) = []
all_but_last (x ∷ y ∷ rest) = x ∷ all_but_last (y ∷ rest)

abbrev pub last_or : Successor → List Successor → Successor
last_or d [] = d
last_or d (x ∷ rest) = last_or x rest

-- What `swap_remove` leaves: the last takes the place of the one taken out.
unfoldable pub swap_remove : List Successor → ℕ → Successor → List Successor
swap_remove successors index taken =
    put_at index (last_or taken successors) (all_but_last successors)

-- What one record leaves: the next record, if it has one, and the scan's parts.
pub record LineageStep : Type 0 where
  pub next : Option LineageRecord
  pub states : Dict OutPoint TreeState
  pub visited : List OutPoint
  pub pending : List PendingTreeLineage
  pub successors : List Successor

-- A spent record, with the places of its successors.
unfoldable pub advance_spent :
    Dict OutPoint TreeState
    → List OutPoint
    → List PendingTreeLineage
    → List Successor
    → LineageRecord
    → TreeState
    → List ℕ
    → Result LineageError LineageStep
unfolding spends_elsewhere swap_remove
advance_spent states visited pending successors first state [] = do
  reject (spends_elsewhere first.spent_by successors) wrong_identity
  ok (record {
    next = none;
    states = delete states first.outpoint;
    visited = visited;
    pending = pending ++ (successor state.tree_id first.outpoint ∷ []);
    successors = successors;
  })
advance_spent states visited pending successors first state (index ∷ []) = do
  found ← ok_or (get_elem? successors index) lost_identity
  reject (contains visited found.1.outpoint) cycle
  ok (record {
    next = some found.1;
    states = (found.1.outpoint, state) ∷ delete states first.outpoint;
    visited = found.1.outpoint ∷ visited;
    pending = pending;
    successors = swap_remove successors index found;
  })
advance_spent states visited pending successors first state (index ∷ more ∷ others) =
    err multiple_successors

unfoldable pub advance_record :
    Dict OutPoint TreeState
    → List OutPoint
    → List PendingTreeLineage
    → List Successor
    → LineageRecord
    → Result LineageError LineageStep
unfolding matching_indices advance_spent
advance_record states visited pending successors first = elim first.is_spent [
  | false ↦ ok (record {
    next = some first;
    states = states;
    visited = visited;
    pending = pending;
    successors = successors;
  })
  | true ↦ do
    state ← ok_or (get states first.outpoint) lost_identity
    advance_spent states visited pending successors first state
        (matching_indices state first.spent_by 0 successors)
]

abbrev pub add_next : Option LineageRecord → TreeLineageScan → TreeLineageScan
add_next none scan = scan
add_next (some next) scan = record scan { current = next ∷ scan.current }

-- The records one after the other; the scan that is returned has the next records only.
unfoldable pub advance_records :
    Dict OutPoint TreeState
    → List OutPoint
    → List PendingTreeLineage
    → List Successor
    → List LineageRecord
    → Result LineageError TreeLineageScan
unfolding advance_record
advance_records states visited pending successors [] =
    ok (record { current = []; pending = pending; states = states; visited = visited })
advance_records states visited pending successors (first ∷ rest) = do
  step ← advance_record states visited pending successors first
  scan ← advance_records step.states step.visited step.pending step.successors rest
  ok (add_next step.next scan)

unfoldable pub advance : TreeLineageScan → List Successor → Result LineageError TreeLineageScan
unfolding advance_records
advance scan successors =
    advance_records scan.states scan.visited scan.pending successors scan.current
