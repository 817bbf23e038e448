-- ===== src/World/Lineage/Examples.antt =====
-- A tree whose record is spent, and two rounds of the scan of src/world.rs.
use woodland_sh.Base.{ℕ, true, false, none, some, List, [], ◌∷◌, ok, err, ◌≡◌, refl}
use woodland_sh.Base.Dict.{get, delete}
use woodland_sh.Base.Distinct.{IsWithin}
use woodland_sh.Indexer.{outpoint_eq}
use woodland_sh.Tree.{TreeState}
use woodland_sh.World.Lineage.{
  LineageRecord, ValidatedTree, deployment, TreeLineageScan, new_scan, advance, unexpected_lineage,
  multiple_successors, wrong_identity,
}
use woodland_sh.World.Lineage.Kept.{IsScan, times}
use woodland_sh.World.Lineage.Advance.{advance-IsScan}
use woodland_sh.World.Lineage.Made.{new_scan-IsScan}

abbrev oak : TreeState
oak = record { tree_id = 5; x = 1; y = 2 }

abbrev elm : TreeState
elm = record { tree_id = 6; x = 3; y = 2 }

abbrev declared : List ValidatedTree
declared =
    record { state = oak; deployment_txid = 1 ∷ [] }
    ∷ record { state = elm; deployment_txid = 2 ∷ [] }
    ∷ []

abbrev spent_at : ℕ → ℕ → LineageRecord
spent_at txid by = record {
  outpoint = record { txid = txid ∷ []; vout = 0 };
  is_spent = true;
  spent_by = some (by ∷ []);
}

abbrev live_at : ℕ → LineageRecord
live_at txid = record {
  outpoint = record { txid = txid ∷ []; vout = 0 };
  is_spent = false;
  spent_by = none;
}

-- The second tree is not indexed yet.
abbrev scan : TreeLineageScan
scan = record {
  current = spent_at 1 7 ∷ [];
  pending = deployment 6 (record { txid = 2 ∷ []; vout = 0 }) ∷ [];
  states = (record { txid = 1 ∷ []; vout = 0 }, oak) ∷ [];
  visited = record { txid = 1 ∷ []; vout = 0 } ∷ [];
}

made : new_scan declared (spent_at 1 7 ∷ []) ≡ ok scan
unfolding new_scan get delete
made = refl

unknown_record : new_scan declared (live_at 3 ∷ []) ≡ err unexpected_lineage
unfolding new_scan get delete
unknown_record = refl

abbrev next : TreeLineageScan
next = record {
  current = live_at 7 ∷ [];
  pending = deployment 6 (record { txid = 2 ∷ []; vout = 0 }) ∷ [];
  states = (record { txid = 7 ∷ []; vout = 0 }, oak) ∷ [];
  visited = record { txid = 7 ∷ []; vout = 0 } ∷ record { txid = 1 ∷ []; vout = 0 } ∷ [];
}

advanced : advance scan ((elm, live_at 8) ∷ (oak, live_at 7) ∷ []) ≡ ok next
unfolding advance get delete
advanced = refl

two_successors : advance scan ((oak, live_at 7) ∷ (oak, live_at 7) ∷ []) ≡ err multiple_successors
unfolding advance get delete
two_successors = refl

other_tree : advance scan ((elm, live_at 7) ∷ []) ≡ err wrong_identity
unfolding advance get delete
other_tree = refl

scan-IsScan : IsScan scan
scan-IsScan = new_scan-IsScan declared (spent_at 1 7 ∷ []) scan made

advance-IsScan_example :
    IsScan next × ((id : ℕ) → times id next ≡ times id scan) × IsWithin scan.visited next.visited
advance-IsScan_example =
    advance-IsScan scan next ((elm, live_at 8) ∷ (oak, live_at 7) ∷ []) scan-IsScan advanced
