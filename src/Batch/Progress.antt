-- ===== src/Batch/Progress.antt =====
-- `BatchProgress` of src/batch.rs: how far the renewal has come in its batch.
pub mod Order
pub mod Steps
pub mod Stage
mod Examples
use woodland_sh.Base.{
  ℕ, Bool, true, false, not, ◌&&◌, ◌||◌, Option, none, some, List, [], ◌∷◌, if◌then◌else◌, ◌==◌,
  nat_eq, list_eq, option_beq, bool_eq, string_eq, option_eq, String, Result, ok, err, ◌>>=◌, Eq,
}

pub data Step : Type 0 where
  start batch_started batch_signing_started finalization_submitted : Step

pub data ProgressError : Type 0 where
  started_late signing_out_of_order signatures_out_of_order finalization_out_of_order :
      ProgressError
  unexpected_commitment : ProgressError

abbrev pub step_number : Step → ℕ
step_number start = 0
step_number batch_started = 1
step_number batch_signing_started = 2
step_number finalization_submitted = 3

abbrev pub step_beq : Step → Step → Bool
step_beq a b = step_number a == step_number b

pub record BatchProgress : Type 0 where
  pub step : Step
  pub batch_id : Option String
  pub tree_signatures_submitted : Bool
  pub expected_commitment_txid : Option (List ℕ)

abbrev pub default : BatchProgress
default = record {
  step = start;
  batch_id = none;
  tree_signatures_submitted = false;
  expected_commitment_txid = none;
}

unfoldable pub is_start : BatchProgress → Bool
is_start p = step_beq p.step start

unfoldable pub matches_batch : BatchProgress → String → Bool
matches_batch p id = p.batch_id == some id

unfoldable pub begin_batch : BatchProgress → String → Result ProgressError BatchProgress
unfolding is_start
begin_batch p id =
    if not (is_start p)
    then err started_late
    else ok (record p { batch_id = some id; step = batch_started })

unfoldable pub accepts_tree_chunk : BatchProgress → String → Bool
unfolding matches_batch
accepts_tree_chunk p id =
    (step_beq p.step batch_started || step_beq p.step batch_signing_started) && matches_batch p id

pub accepts_tree_signature : BatchProgress → String → Bool
unfolding matches_batch
accepts_tree_signature p id = step_beq p.step batch_signing_started && matches_batch p id

unfoldable pub accepts_signing_start : BatchProgress → String → Bool
unfolding matches_batch
accepts_signing_start p id = step_beq p.step batch_started && matches_batch p id

unfoldable pub mark_signing_started : BatchProgress → String → Result ProgressError BatchProgress
unfolding accepts_signing_start
mark_signing_started p id =
    if not (accepts_signing_start p id)
    then err signing_out_of_order
    else ok (record p { step = batch_signing_started })

unfoldable pub accepts_nonces : BatchProgress → String → Bool
unfolding matches_batch
accepts_nonces p id =
    step_beq p.step batch_signing_started && matches_batch p id && not p.tree_signatures_submitted

unfoldable pub mark_tree_signatures_submitted :
    BatchProgress → String → Result ProgressError BatchProgress
unfolding accepts_nonces
mark_tree_signatures_submitted p id =
    if not (accepts_nonces p id)
    then err signatures_out_of_order
    else ok (record p { tree_signatures_submitted = true })

unfoldable pub accepts_finalization : BatchProgress → String → Bool
unfolding matches_batch
accepts_finalization p id =
    step_beq p.step batch_signing_started && matches_batch p id && p.tree_signatures_submitted

unfoldable pub mark_finalization_submitted :
    BatchProgress → String → List ℕ → Result ProgressError BatchProgress
unfolding accepts_finalization
mark_finalization_submitted p id commitment_txid =
    if not (accepts_finalization p id)
    then err finalization_out_of_order
    else ok (record p {
      expected_commitment_txid = some commitment_txid;
      step = finalization_submitted;
    })

unfoldable pub finalize : BatchProgress → String → List ℕ → Result ProgressError Bool
unfolding matches_batch
finalize p id commitment_txid =
    if not (step_beq p.step finalization_submitted) || not (matches_batch p id)
    then ok false
    else if not (p.expected_commitment_txid == some commitment_txid)
    then err unexpected_commitment
    else ok true
