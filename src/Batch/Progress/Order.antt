-- ===== src/Batch/Progress/Order.antt =====
-- The order of the marks that a renewal sets in its batch (src/batch.rs).
use woodland_sh.Base.{
  ℕ, Bool, true, false, Option, none, some, List, [], ◌∷◌, ◌++◌, option_eq, string_eq, list_eq,
  nat_eq, list_beq_iff, String, Result, ok, ◌>>=◌, >>=-eq-ok, ◌≡◌, ◌↔◌, refl, sym, subst, arith,
  eq_iff,
}
use mathlib.Core.List.{append_assoc, append-nil}
use woodland_sh.Batch.Progress.{
  Step, batch_started, batch_signing_started, finalization_submitted, ProgressError, BatchProgress,
  default, begin_batch, mark_signing_started, mark_tree_signatures_submitted,
  mark_finalization_submitted, finalize,
}

-- A mark that the event loop sets.
pub data Mark : Type 0 where
  began : String → Mark
  signing_started : String → Mark
  signatures_submitted : String → Mark
  finalization : String → List ℕ → Mark

unfoldable pub set_mark : BatchProgress → Mark → Result ProgressError BatchProgress
set_mark p (began id) = begin_batch p id
set_mark p (signing_started id) = mark_signing_started p id
set_mark p (signatures_submitted id) = mark_tree_signatures_submitted p id
set_mark p (finalization id txid) = mark_finalization_submitted p id txid

-- Marks set one after the other; the first that is refused ends the renewal.
unfoldable pub set_marks : BatchProgress → List Mark → Result ProgressError BatchProgress
unfolding set_mark
set_marks p [] = ok p
set_marks p (m ∷ rest) = do q ← set_mark p m; set_marks q rest

abbrev at_step : Step → Option String → Bool → Option (List ℕ) → BatchProgress
at_step step id submitted expected = record {
  step = step;
  batch_id = id;
  tree_signatures_submitted = submitted;
  expected_commitment_txid = expected;
}

-- The marks that a state shows, for the states that marks can reach.
data History (p : BatchProgress) (marks : List Mark) : Type 0 where
  nothing : p ≡ default → marks ≡ [] → History p marks
  begun :
      (id : String)
      → p ≡ at_step batch_started (some id) false none
      → marks ≡ began id ∷ []
      → History p marks
  signing :
      (id : String)
      → p ≡ at_step batch_signing_started (some id) false none
      → marks ≡ began id ∷ signing_started id ∷ []
      → History p marks
  signed :
      (id : String)
      → p ≡ at_step batch_signing_started (some id) true none
      → marks ≡ began id ∷ signing_started id ∷ signatures_submitted id ∷ []
      → History p marks
  submitted :
      (id : String) (txid : List ℕ)
      → p ≡ at_step finalization_submitted (some id) true (some txid)
      → marks ≡ began id ∷ signing_started id ∷ signatures_submitted id ∷ finalization id txid ∷ []
      → History p marks

History-step :
    {p q : BatchProgress} {marks : List Mark} (m : Mark)
    → History p marks
    → set_mark p m ≡ ok q
    → History q (marks ++ (m ∷ []))
unfolding set_mark begin_batch mark_signing_started mark_tree_signatures_submitted
    mark_finalization_submitted
History-step (began id) (nothing s h) e = begun id (ground arith) (ground arith)
History-step (signing_started id) (begun id' s h) e =
    signing id (ground (arith, eq_iff id' id)) (ground (arith, eq_iff id' id))
History-step (signatures_submitted id) (signing id' s h) e =
    signed id (ground (arith, eq_iff id' id)) (ground (arith, eq_iff id' id))
History-step (finalization id txid) (signed id' s h) e =
    submitted id txid (ground (arith, eq_iff id' id)) (ground (arith, eq_iff id' id))
History-step (began id) (begun id' s h) e = absurd (ground arith)
History-step (began id) (signing id' s h) e = absurd (ground arith)
History-step (began id) (signed id' s h) e = absurd (ground arith)
History-step (began id) (submitted id' t s h) e = absurd (ground arith)
History-step (signing_started id) (nothing s h) e = absurd (ground arith)
History-step (signing_started id) (signing id' s h) e = absurd (ground arith)
History-step (signing_started id) (signed id' s h) e = absurd (ground arith)
History-step (signing_started id) (submitted id' t s h) e = absurd (ground arith)
History-step (signatures_submitted id) (nothing s h) e = absurd (ground arith)
History-step (signatures_submitted id) (begun id' s h) e = absurd (ground arith)
History-step (signatures_submitted id) (signed id' s h) e = absurd (ground arith)
History-step (signatures_submitted id) (submitted id' t s h) e = absurd (ground arith)
History-step (finalization id txid) (nothing s h) e = absurd (ground arith)
History-step (finalization id txid) (begun id' s h) e = absurd (ground arith)
History-step (finalization id txid) (signing id' s h) e = absurd (ground arith)
History-step (finalization id txid) (submitted id' t s h) e = absurd (ground arith)

History-set_marks :
    (marks : List Mark) {p q : BatchProgress} {before : List Mark}
    → History p before
    → set_marks p marks ≡ ok q
    → History q (before ++ marks)
unfolding set_marks
History-set_marks [] {p} {q} {before} h e =
    subst (λ all. History q all) (sym (append-nil before)) (subst (λ r. History r before) same h)
  where
    same : p ≡ q
    same = cc
History-set_marks (m ∷ rest) {p} {q} {before} h e =
    let (next, first, others) = >>=-eq-ok (set_mark p m) (λ s. set_marks s rest) e in
    subst (λ all. History q all) (append_assoc before (m ∷ []) rest)
      (History-set_marks rest (History-step m h first) others)

History-finalize :
    (marks : List Mark) (p : BatchProgress) (id : String) (txid : List ℕ)
    → History p marks
    → (finalize p id txid ≡ ok true) ↔ (
        marks ≡ began id ∷ signing_started id ∷ signatures_submitted id ∷ finalization id txid ∷ [])
unfolding finalize
History-finalize marks p id txid (nothing s h) = ground arith
History-finalize marks p id txid (begun id' s h) = ground arith
History-finalize marks p id txid (signing id' s h) = ground arith
History-finalize marks p id txid (signed id' s h) = ground arith
History-finalize marks p id txid (submitted id' t s h) =
    ground (arith, eq_iff id' id, list_beq_iff t txid)

-- Where no mark of a renewal is refused, a batch is reported as finalized exactly after the four
-- marks, in this order, all for that batch, the last with the commitment transaction that it
-- finalizes.
pub set_marks-finalize :
    (marks : List Mark) (p : BatchProgress) (id : String) (txid : List ℕ)
    → set_marks default marks ≡ ok p
    → (finalize p id txid ≡ ok true) ↔ (
        marks ≡ began id ∷ signing_started id ∷ signatures_submitted id ∷ finalization id txid ∷ [])
set_marks-finalize marks p id txid e =
    History-finalize marks p id txid (History-set_marks marks (nothing refl refl) e)
