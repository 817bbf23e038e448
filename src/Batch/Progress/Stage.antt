-- ===== src/Batch/Progress/Stage.antt =====
-- How many messages a renewal has sent at each step of `BatchProgress` of src/batch.rs.
use woodland_sh.Base.{
  ℕ, ◌<◌, Bool, true, false, some, option_eq, string_eq, list_eq, nat_eq, option_beq_iff, String,
  List, ok, ◌≡◌, arith,
}
use woodland_sh.Batch.Progress.{
  BatchProgress, Step, start, batch_started, batch_signing_started, finalization_submitted,
  is_start, begin_batch, accepts_signing_start, mark_signing_started, accepts_nonces,
  mark_tree_signatures_submitted, accepts_finalization, mark_finalization_submitted, finalize,
}

-- Steps that never go with this flag have the number 9.
abbrev pub stage_of : Step → Bool → ℕ
stage_of start false = 0
stage_of batch_started false = 1
stage_of batch_signing_started false = 2
stage_of batch_signing_started true = 3
stage_of finalization_submitted true = 5
stage_of _ _ = 9

abbrev pub stage : BatchProgress → ℕ
stage p = stage_of p.step p.tree_signatures_submitted

pub stage-is_start : (p : BatchProgress) → stage p < 9 → is_start p ≡ true → stage p ≡ 0
unfolding is_start
stage-is_start p h e = ground arith

pub stage-accepts_signing_start :
    (p : BatchProgress) (id : String)
    → stage p < 9
    → accepts_signing_start p id ≡ true
    → stage p ≡ 1
unfolding accepts_signing_start
stage-accepts_signing_start p id h e = ground arith

pub stage-accepts_nonces :
    (p : BatchProgress) (id : String) → stage p < 9 → accepts_nonces p id ≡ true → stage p ≡ 2
unfolding accepts_nonces
stage-accepts_nonces p id h e = ground arith

pub stage-accepts_finalization :
    (p : BatchProgress) (id : String) → stage p < 9 → accepts_finalization p id ≡ true → stage p ≡ 3
unfolding accepts_finalization
stage-accepts_finalization p id h e = ground arith

pub stage-begin_batch :
    (p q : BatchProgress) (id : String) → stage p ≡ 0 → begin_batch p id ≡ ok q → stage q ≡ 1
unfolding begin_batch
stage-begin_batch p q id h e = ground arith

pub stage-mark_signing_started :
    (p q : BatchProgress) (id : String)
    → stage p ≡ 1
    → mark_signing_started p id ≡ ok q
    → stage q ≡ 2
unfolding mark_signing_started
stage-mark_signing_started p q id h e = ground arith

pub stage-mark_tree_signatures_submitted :
    (p q : BatchProgress) (id : String)
    → stage p ≡ 2
    → mark_tree_signatures_submitted p id ≡ ok q
    → stage q ≡ 3
unfolding mark_tree_signatures_submitted
stage-mark_tree_signatures_submitted p q id h e = ground arith

pub stage-mark_finalization_submitted :
    (p q : BatchProgress) (id : String) (txid : List ℕ)
    → stage p ≡ 3
    → mark_finalization_submitted p id txid ≡ ok q
    → stage q ≡ 5
unfolding mark_finalization_submitted
stage-mark_finalization_submitted p q id txid h e = ground arith

pub stage-finalize :
    (p : BatchProgress) (id : String) (txid : List ℕ)
    → stage p < 9
    → finalize p id txid ≡ ok true
    → stage p ≡ 5
unfolding finalize
stage-finalize p id txid h e = ground (arith, option_beq_iff p.expected_commitment_txid (some txid))
