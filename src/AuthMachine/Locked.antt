-- ===== src/AuthMachine/Locked.antt =====
-- Secrets in the locked and signed-out phases, by orders of events
-- (apps/mobile/src/features/auth/state/authStateMachine.ts).
use purrivacy_app.Prelude.{
  String, ◌≡◌, ◌≢◌, Bool, true, not, ◌||◌, ◌&&◌, some, List, [], ◌∷◌, arith, same_text_iff,
  same_nullable_iff,
}
use purrivacy_app.AuthMachine.State.{
  State, ObjectRef, authenticated, locally_locked, signed_out, initial,
}
use purrivacy_app.AuthMachine.Events.{
  Event, bootstrap_completed, mfa_challenge_raised, mfa_challenge_cancelled,
  pending_password_changed, sign_out_started, session_auth_lost, session_created, sign_out_failed,
}
use purrivacy_app.AuthMachine.Handlers.Tests.{is_signing_out, is_deleting, is_locally_locked}
use purrivacy_app.AuthMachine.Secrets.{HoldsNoSecret}
use purrivacy_app.AuthMachine.Reducer.{auth_reducer, run}

-- A locked phase holds no secret, and neither does a flow that returns to it.
pub record IsLockClean (s : State) : Type 0 where
  pub locked : s.phase ≡ locally_locked → HoldsNoSecret s
  pub returning :
      s.prior_phase ≡ some locally_locked
      → HoldsNoSecret s × ((is_signing_out s.phase || is_deleting s.phase) ≡ true)

-- The event raises no MFA challenge over a locked session.
abbrev pub fits_lock : State → Event → Bool
fits_lock s mfa_challenge_raised = not (is_locally_locked s.phase)
fits_lock s _ = true

auth_reducer-IsLockClean :
    (s : State) (e : Event) → fits_lock s e ≡ true → IsLockClean s → IsLockClean (auth_reducer s e)
unfolding auth_reducer
auth_reducer-IsLockClean s bootstrap_completed f h = ground arith
auth_reducer-IsLockClean s _ f h = ground arith

-- No event of the list raises an MFA challenge while the session is locked.
abbrev pub no_locked_challenge : State → List Event → Bool
no_locked_challenge s [] = true
no_locked_challenge s (e ∷ es) = fits_lock s e && no_locked_challenge (auth_reducer s e) es

run_from-IsLockClean :
    (s : State) (es : List Event)
    → no_locked_challenge s es ≡ true
    → IsLockClean s
    → IsLockClean (run s es)
unfolding run
run_from-IsLockClean s [] f h = h
run_from-IsLockClean s (e ∷ es) f h =
    run_from-IsLockClean (auth_reducer s e) es (ground arith)
      (auth_reducer-IsLockClean s e (ground arith) h)

initial-IsLockClean : IsLockClean initial
unfolding initial
initial-IsLockClean = ground arith

-- Whatever events are dispatched from the initial state, in any order, a locally locked state holds
-- neither a pending password nor decrypted user data, provided that no MFA challenge was raised
-- while the session was locked.
pub locked_holds_no_secret :
    (es : List Event)
    → no_locked_challenge initial es ≡ true
    → (run initial es).phase ≡ locally_locked
    → HoldsNoSecret (run initial es)
locked_holds_no_secret es f p = (run_from-IsLockClean initial es f initial-IsLockClean).locked p

-- The proviso is needed: from every locked state, a challenge that is raised, a non-empty password
-- that arrives during it and a cancellation lead back to the locked phase with the password held.
pub locked_challenge_keeps_password :
    (s : State) (password : String)
    → s.phase ≡ locally_locked
    → password ≢ ""
    → let t = run s (
        mfa_challenge_raised
        ∷ pending_password_changed (some password)
        ∷ mfa_challenge_cancelled
        ∷ []) in
      (t.phase ≡ locally_locked) × (t.pending_password ≡ some password)
unfolding run auth_reducer
locked_challenge_keeps_password s password p h =
    ground (arith, same_text_iff password "", same_nullable_iff s.pending_password (some password))

-- A sign-out from the authenticated phase that fails after the backend session was lost and created
-- again ends in the signed-out phase with the decrypted user data still held.
pub failed_sign_out_keeps_decrypted :
    (s : State) (d : ObjectRef) (message : String)
    → s.phase ≡ authenticated
    → s.user_decrypted ≡ some d
    → let t =
        run s
          (sign_out_started ∷ session_auth_lost ∷ session_created ∷ sign_out_failed message ∷ []) in
      (t.phase ≡ signed_out) × (t.user_decrypted ≡ some d)
unfolding run auth_reducer
failed_sign_out_keeps_decrypted s d message p h = ground arith
