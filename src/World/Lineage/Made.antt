-- ===== src/World/Lineage/Made.antt =====
-- `TreeLineageScan::new` of src/world.rs makes a scan in order.
use woodland_sh.Base.{
  true, false, not, ◌||◌, List, [], ◌∷◌, nat_eq, list_eq, contains, ==-refl, ok, Ensures, returns,
  Ensures-reject, Ensures-ok, Ensures-imp, ok-injective, >>=-eq-ok, ◌≡◌, refl, ◌∙◌, ap, subst,
  arith,
}
use woodland_sh.Base.Dict.{Dict, get, delete, get-delete}
use woodland_sh.Base.Distinct.{IsWithin}
use woodland_sh.Indexer.{OutPoint, outpoint_eq, outpoint_beq_iff}
use woodland_sh.Tree.{TreeState}
use woodland_sh.World.Lineage.{
  ValidatedTree, deployment_outpoint, unexpected_lineage, declare_states, visit_current,
  defer_missing, new_scan, LineageRecord, TreeLineageScan, is_some,
}
use woodland_sh.World.Lineage.Kept.{outpoints, IsReady, IsScan}

visit_lem :
    (states : Dict OutPoint TreeState) (visited : List OutPoint) (records : List LineageRecord)
    → Ensures
        (λ after.
          IsReady states after records
          × IsWithin visited after
          × ((o : OutPoint) → contains (outpoints records) o ≡ true → contains visited o ≡ false))
        (visit_current states visited records)
unfolding visit_current
visit_lem states visited [] = returns (
  record {
    distinct = tt;
    within = λ o h. absurd (ground arith);
    known = λ o h. absurd (ground arith);
  },
  (λ o v. v),
  (λ o h. absurd (ground arith)),
)
visit_lem states visited (first ∷ rest) =
    let p = first.outpoint in
    Ensures-reject (not (is_some (get states p)) || contains visited p) unexpected_lineage _
      (λ fine.
        Ensures-imp
          (λ after f. (
            record {
              distinct = (ground (arith, f.2 p, ==-refl p), f.0.distinct);
              within = λ o h. ground (arith, f.0.within o, f.1 p, ==-refl p, outpoint_beq_iff o p);
              known = λ o h. ground (arith, f.0.known o, fine, outpoint_beq_iff o p);
            },
            (λ o v. f.1 o (ground arith)),
            (λ o h. ground (arith, f.2 o, fine, outpoint_beq_iff o p)),
          ))
          (visit_lem states (p ∷ visited) rest))

defer_missing_lem :
    (visited : List OutPoint) (states : Dict OutPoint TreeState) (trees : List ValidatedTree)
    (o : OutPoint)
    → contains visited o ≡ true
    → get (defer_missing visited states trees).0 o ≡ get states o
unfolding defer_missing
defer_missing_lem visited states [] o h = refl
defer_missing_lem visited states (tree ∷ rest) o h = ground (
  arith,
  defer_missing_lem visited states rest o h,
  defer_missing_lem visited (delete states (deployment_outpoint tree)) rest o h,
  get-delete states (deployment_outpoint tree) o,
  outpoint_beq_iff o (deployment_outpoint tree),
)

-- A scan that is made of declared trees and the indexer's records is one of these.
pub new_scan-IsScan :
    (declared : List ValidatedTree) (current : List LineageRecord) (scan : TreeLineageScan)
    → new_scan declared current ≡ ok scan
    → IsScan scan
unfolding new_scan
new_scan-IsScan declared current scan e =
    let first = >>=-eq-ok (declare_states [] declared) _ e in
    let second = >>=-eq-ok (visit_current first.0 [] current) _ first.2 in
    let ready = (Ensures-ok _ second.0 (visit_lem first.0 [] current) second.1).0 in
    subst IsScan (ok-injective second.2) (record {
      distinct = ready.distinct;
      within = ready.within;
      known = λ o h.
          ap is_some (defer_missing_lem second.0 first.0 declared o (ready.within o h))
          ∙ ready.known o h;
    })
