-- ===== src/AuthMachine/Prior.antt =====
-- The phase that a failable flow returns to (`priorPhase` of
-- apps/mobile/src/features/auth/state/authStateMachine.ts), and what repeated events do.
use purrivacy_app.Prelude.{
  ◌≡◌, ◌≢◌, true, false, ◌||◌, not, none, some, List, [], ◌∷◌, arith, same_nullable_iff,
}
use purrivacy_app.AuthMachine.State.{State, Phase, mfa_pending, signing_out, deleting, initial}
use purrivacy_app.AuthMachine.Events.{
  Event, bootstrap_completed, auth_error, mfa_challenge_raised, mfa_challenge_cancelled,
}
use purrivacy_app.AuthMachine.Handlers.Tests.{is_mfa_pending, is_signing_out, is_deleting}
use purrivacy_app.AuthMachine.Reducer.{auth_reducer, run}

-- A flow never records its own phase as the one to return to.
pub record IsPriorSound (s : State) : Type 0 where
  pub mfa : is_mfa_pending s.phase ≡ true → s.prior_phase ≢ some mfa_pending
  pub leave_sign_out :
      (is_signing_out s.phase || is_deleting s.phase) ≡ true → s.prior_phase ≢ some signing_out
  pub leave_delete :
      (is_signing_out s.phase || is_deleting s.phase) ≡ true → s.prior_phase ≢ some deleting

pub auth_reducer-IsPriorSound :
    (s : State) (e : Event) → IsPriorSound s → IsPriorSound (auth_reducer s e)
unfolding auth_reducer
auth_reducer-IsPriorSound s bootstrap_completed h = ground arith
auth_reducer-IsPriorSound s _ h = ground arith

run_from-IsPriorSound : (s : State) (es : List Event) → IsPriorSound s → IsPriorSound (run s es)
unfolding run
run_from-IsPriorSound s [] h = h
run_from-IsPriorSound s (e ∷ es) h =
    run_from-IsPriorSound (auth_reducer s e) es (auth_reducer-IsPriorSound s e h)

pub run-IsPriorSound : (es : List Event) → IsPriorSound (run initial es)
unfolding initial
run-IsPriorSound es = run_from-IsPriorSound initial es start
  where
    start : IsPriorSound initial
    start = ground arith

-- In every state that dispatched events can reach and that is in a challenge, a sign-out or a
-- deletion, the phase that is recorded to return to is another phase than the present one, and for a
-- sign-out or a deletion it is neither of these two.
pub prior_is_another_phase :
    (es : List Event) (p : Phase)
    → (is_mfa_pending (run initial es).phase
        || is_signing_out (run initial es).phase
        || is_deleting (run initial es).phase)
      ≡ true
    → (run initial es).prior_phase ≡ some p
    → (p ≢ (run initial es).phase)
      × ((is_mfa_pending (run initial es).phase || not (is_signing_out p || is_deleting p)) ≡ true)
prior_is_another_phase es p flow at = prior_facts (run initial es) p (run-IsPriorSound es) flow at
  where
    prior_facts :
        (s : State) (p : Phase)
        → IsPriorSound s
        → (is_mfa_pending s.phase || is_signing_out s.phase || is_deleting s.phase) ≡ true
        → s.prior_phase ≡ some p
        → (p ≢ s.phase)
          × ((is_mfa_pending s.phase || not (is_signing_out p || is_deleting p)) ≡ true)
    prior_facts s p h flow at = ground arith

-- Dispatching an event twice in a row gives the state that dispatching it once gives, for every
-- event, in every state whose recorded prior phase is sound.
pub auth_reducer_idempotent :
    (s : State) (e : Event) → IsPriorSound s → auth_reducer (auth_reducer s e) e ≡ auth_reducer s e
unfolding auth_reducer
auth_reducer_idempotent s bootstrap_completed h = ground arith
auth_reducer_idempotent s (auth_error m) h = ground (arith, same_nullable_iff (some m) (some m))
auth_reducer_idempotent s _ h = ground arith

-- A challenge that is raised outside the MFA flow and then cancelled returns to the phase in which
-- it was raised, but without the backend session, and changes nothing else than the loading flag,
-- the recorded prior phase and the error.
pub challenge_round_trip :
    (s : State)
    → s.phase ≢ mfa_pending
    → auth_reducer (auth_reducer s mfa_challenge_raised) mfa_challenge_cancelled ≡ record s {
      session_authenticated = false;
      is_auth_loading = false;
      prior_phase = none;
      error = none;
    }
unfolding auth_reducer
challenge_round_trip s h = ground arith
