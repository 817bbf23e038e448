-- ===== src/Batch/Session/Outcome.antt =====
-- `join_batch_with_intent` of src/batch.rs around the event loop: registration, deadline and cleanup; and
-- what a whole renewal comes to.
use woodland_sh.Base.{
  ◌&&◌, if◌then◌else◌, Bool, true, false, not, List, nat_eq, list_eq, string_eq, String, Result, ok,
  err, ◌≡◌, refl, subst, ap, arith,
}
use woodland_sh.Base.Int.{ℤ}
use woodland_sh.Batch.Forfeits.{tx_eq}
use woodland_sh.Batch.Session.Released.{run_lem}
use woodland_sh.Batch.Session.{SessionError, RenewalOutcome, SessionLibrary, Renewal}
use woodland_sh.Batch.Session.Justified.{IsJustifiedLog, has_released, IsSound, initial-IsSound}
use woodland_sh.Batch.Session.Keeps.{Keeps, on, back, over}
use woodland_sh.Batch.Session.Sound.{IsRenewed}
use woodland_sh.Batch.Session.Handlers
use woodland_sh.Batch.Session.Handlers.{
  Event, stream_started, heartbeat, tree_nonces_aggregated, batch_started, tree_tx, tree_signature,
  tree_signing_started, tree_nonces, batch_finalization, batch_finalized, batch_failed_event, Next,
  continues, returned, failed, Session, Sent, confirmation, public_nonces, partial_signatures,
  emulator_request, signed_forfeits, initial, send,
}

pub data JoinError : Type 0 where
  cleanup_failed registration_failed registration_timed_out timed_out : JoinError
  session_failed : SessionError → JoinError

-- What `register_intent` answers before the deadline.
pub data Registration : Type 0 where
  registered : (intent_id : String) → Registration
  duplicate refused late : Registration

-- The second attempt, after the conflicting intent is gone.
abbrev pub register_again : Registration → Result JoinError String × Bool
register_again (registered intent_id) = (ok intent_id, false)
register_again duplicate = (err registration_failed, false)
register_again refused = (err registration_failed, false)
register_again late = (err registration_timed_out, true)

-- Two attempts, and whether the intents of these inputs were deleted.
abbrev pub register_renewal_intent :
    Registration → Registration → Bool → Result JoinError String × Bool
register_renewal_intent (registered intent_id) second cleaned = (ok intent_id, false)
register_renewal_intent refused second cleaned = (err registration_failed, false)
register_renewal_intent late second cleaned = (err registration_timed_out, true)
register_renewal_intent duplicate second false = (err cleanup_failed, true)
register_renewal_intent duplicate second true = ((register_again second).0, true)

module _ (lib : SessionLibrary) where
  abbrev pub session_of : Next lib → Session lib
  session_of (continues s) = s
  session_of (returned outcome s) = s
  session_of (failed e s) = s

  -- How a registered renewal ends, and whether its intent is deleted afterwards.
  pub data Joined : Type 0 where
    renewed : RenewalOutcome → Joined
    to_reconcile : JoinError → Joined
    cleaned_up : JoinError → Joined

  abbrev pub is_renewed : Joined → Bool
  is_renewed (renewed outcome) = true
  is_renewed _ = false

  abbrev pub is_cleaned_up : Joined → Bool
  is_cleaned_up (cleaned_up e) = true
  is_cleaned_up _ = false

  -- `deadline_passed`: the stream did not end the loop before the deadline.
  abbrev pub end_error : Bool → SessionError → JoinError
  end_error true e = timed_out
  end_error false e = session_failed e

  unfoldable pub settle : Bool → Next lib → Joined
  settle deadline_passed (returned outcome s) = renewed outcome
  settle deadline_passed (continues s) =
      if s.forfeits_released then to_reconcile timed_out else cleaned_up timed_out
  settle deadline_passed (failed e s) =
      if s.forfeits_released
      then to_reconcile (end_error deadline_passed e)
      else cleaned_up (end_error deadline_passed e)

module _ (lib : SessionLibrary) (renewal : Renewal) where
  unfoldable pub join_batch : List (ℤ × Event lib) → Bool → Joined lib
  unfolding settle Handlers.run
  join_batch events deadline_passed =
      settle lib deadline_passed (Handlers.run lib renewal (initial lib) events)

  abbrev outcome_or : RenewalOutcome → Next lib → RenewalOutcome
  outcome_or d (returned outcome s) = outcome
  outcome_or d _ = d

  abbrev pub last_session : List (ℤ × Event lib) → Session lib
  last_session events = session_of lib (Handlers.run lib renewal (initial lib) events)

  Keeps-session :
      (next : Next lib)
      → Keeps lib (IsSound lib renewal) (IsSound lib renewal) (IsRenewed lib renewal) next
      → IsSound lib renewal (session_of lib next)
  Keeps-session (continues s) (on h) = h
  Keeps-session (returned outcome s) (back h r) = h
  Keeps-session (failed e s) (over h) = h

  run-IsSound : (events : List (ℤ × Event lib)) → IsSound lib renewal (last_session events)
  run-IsSound events =
      Keeps-session _ (run_lem lib renewal events (initial lib) (initial-IsSound lib renewal))

  -- Whatever events arrive, and whatever arkd and the emulator answer, each message of the session is
  -- justified. Nonces and partial signatures are made for a commitment whose VTXO tree is validated, over the
  -- graph of all the chunks of that tree. Forfeits go to the emulator only for such a commitment, with the
  -- signatures of the transactions of that graph verified, and a validated connector tree that has one leaf
  -- for each input; they are those made of the renewal's inputs and the graph of that tree. What goes to arkd
  -- comes right after a request to the emulator: it is the combination of that request's forfeits, all of
  -- them, with the forfeits that the emulator answered it with.
  pub run-IsJustified :
      (events : List (ℤ × Event lib)) → IsJustifiedLog lib renewal (last_session events).sent
  run-IsJustified events = (run-IsSound events).justified

  -- When the loop returns an outcome, the outcome names the commitment whose VTXO tree has been validated and
  -- the outpoint that this tree renews the state to, and the completed forfeits have gone to arkd.
  pub run-IsRenewed :
      (events : List (ℤ × Event lib)) (outcome : RenewalOutcome) (s : Session lib)
      → Handlers.run lib renewal (initial lib) events ≡ returned outcome s
      → IsRenewed lib renewal outcome s
  run-IsRenewed events outcome s e =
      by_next _ e (run_lem lib renewal events (initial lib) (initial-IsSound lib renewal))
    where
      by_next :
          (next : Next lib)
          → next ≡ returned outcome s
          → Keeps lib (IsSound lib renewal) (IsSound lib renewal) (IsRenewed lib renewal) next
          → IsRenewed lib renewal outcome s
      by_next (continues s') e k = cc
      by_next (returned outcome' s') e (back h r) =
          subst (IsRenewed lib renewal outcome) (ap (session_of lib) e)
            (subst (λ o. IsRenewed lib renewal o s') (ap (outcome_or outcome) e) r)
      by_next (failed x s') e k = cc

  -- A registered renewal deletes its intent afterwards just if it ended without an outcome and no forfeits have
  -- gone to the emulator.
  pub join_batch-cleanup :
      (events : List (ℤ × Event lib)) (deadline_passed : Bool)
      → is_cleaned_up lib (join_batch events deadline_passed) ≡ (
          not (is_renewed lib (join_batch events deadline_passed))
          && not (has_released lib renewal (last_session events).sent))
  unfolding join_batch
  join_batch-cleanup events deadline_passed =
      by_next (Handlers.run lib renewal (initial lib) events) (run-IsSound events)
    where
      by_next :
          (next : Next lib)
          → IsSound lib renewal (session_of lib next)
          → is_cleaned_up lib (settle lib deadline_passed next) ≡ (
              not (is_renewed lib (settle lib deadline_passed next))
              && not (has_released lib renewal (session_of lib next).sent))
      by_next (continues s) h = ground (arith, h.flagged)
      by_next (returned outcome s) h = refl
      by_next (failed x s) h = ground (arith, h.flagged)

-- Registration, then the session under the intent's ID.
pub data Settled (lib : SessionLibrary) : Type 0 where
  unregistered : JoinError → (deleted : Bool) → Settled lib
  after_session : Joined lib → Settled lib

unfoldable pub join_batch_with_intent :
    (lib : SessionLibrary)
    → Renewal
    → Registration
    → Registration
    → Bool
    → List (ℤ × Event lib)
    → Bool
    → Settled lib
unfolding join_batch
join_batch_with_intent lib renewal first second cleaned events deadline_passed =
    elim (register_renewal_intent first second cleaned).0 [
      | err e ↦ unregistered e (register_renewal_intent first second cleaned).1
      | ok intent_id ↦
          after_session
            (join_batch lib (record renewal { intent_id = intent_id }) events deadline_passed)
    ]
