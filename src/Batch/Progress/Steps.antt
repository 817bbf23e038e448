-- ===== src/Batch/Progress/Steps.antt =====
-- What each mark of `BatchProgress` of src/batch.rs asks of the state before, and leaves.
use woodland_sh.Base.{
  ℕ, true, some, List, option_eq, string_eq, list_eq, nat_eq, option_beq_iff, String, ok, ◌≡◌,
  arith,
}
use woodland_sh.Batch.Progress.{
  BatchProgress, step_number, begin_batch, mark_signing_started, mark_tree_signatures_submitted,
  mark_finalization_submitted, finalize,
}

pub begin_batch-step :
    (p q : BatchProgress) (id : String)
    → begin_batch p id ≡ ok q
    → (step_number p.step ≡ 0) × (q.expected_commitment_txid ≡ p.expected_commitment_txid)
unfolding begin_batch
begin_batch-step p q id h = ground arith

pub mark_signing_started-step :
    (p q : BatchProgress) (id : String)
    → mark_signing_started p id ≡ ok q
    → (step_number p.step ≡ 1) × (q.expected_commitment_txid ≡ p.expected_commitment_txid)
unfolding mark_signing_started
mark_signing_started-step p q id h = ground arith

pub mark_tree_signatures_submitted-step :
    (p q : BatchProgress) (id : String)
    → mark_tree_signatures_submitted p id ≡ ok q
    → (step_number p.step ≡ 2) × (q.expected_commitment_txid ≡ p.expected_commitment_txid)
unfolding mark_tree_signatures_submitted
mark_tree_signatures_submitted-step p q id h = ground arith

pub mark_finalization_submitted-step :
    (p q : BatchProgress) (id : String) (txid : List ℕ)
    → mark_finalization_submitted p id txid ≡ ok q
    → (step_number q.step ≡ 3) × (q.expected_commitment_txid ≡ some txid)
unfolding mark_finalization_submitted
mark_finalization_submitted-step p q id txid h = ground arith

pub finalize-expected :
    (p : BatchProgress) (id : String) (txid : List ℕ)
    → finalize p id txid ≡ ok true
    → p.expected_commitment_txid ≡ some txid
unfolding finalize
finalize-expected p id txid h =
    ground (arith, option_beq_iff p.expected_commitment_txid (some txid))
