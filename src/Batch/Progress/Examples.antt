-- ===== src/Batch/Progress/Examples.antt =====
-- The marks of a renewal that goes through.
use woodland_sh.Base.{◌≡◌, ◌↔◌, refl, true, some, ok, List, [], ◌∷◌}
use woodland_sh.Batch.Progress.{
  BatchProgress, finalize, begin_batch, mark_signing_started, mark_tree_signatures_submitted,
  mark_finalization_submitted, finalization_submitted,
}
use woodland_sh.Batch.Progress.Order.{
  Mark, began, signing_started, signatures_submitted, finalization, set_marks, set_marks-finalize,
}

abbrev all_marks : List Mark
all_marks =
    began "b1" ∷ signing_started "b1" ∷ signatures_submitted "b1" ∷ finalization "b1" (7 ∷ []) ∷ []

abbrev all_done : BatchProgress
all_done = record {
  step = finalization_submitted;
  batch_id = some "b1";
  tree_signatures_submitted = true;
  expected_commitment_txid = some (7 ∷ []);
}

set_marks-finalize_example : (finalize all_done "b1" (7 ∷ []) ≡ ok true) ↔ (
    all_marks
    ≡ began "b1"
      ∷ signing_started "b1"
      ∷ signatures_submitted "b1"
      ∷ finalization "b1" (7 ∷ [])
      ∷ [])
unfolding set_marks begin_batch mark_signing_started mark_tree_signatures_submitted
    mark_finalization_submitted
set_marks-finalize_example = set_marks-finalize all_marks all_done "b1" (7 ∷ []) refl
