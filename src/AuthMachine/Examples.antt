-- ===== src/AuthMachine/Examples.antt =====
-- The machine's properties at concrete states and events
-- (apps/mobile/src/features/auth/state/authStateMachine.ts).
use purrivacy_app.Prelude.{◌≡◌, refl, true, some, List, [], ◌∷◌}
use purrivacy_app.AuthMachine.State.{
  State, initial, authenticated, firebase_authenticated, locally_locked, to_locally_locked,
}
use purrivacy_app.AuthMachine.Events.{
  Event, firebase_user_established, session_created, mfa_challenge_raised, sign_out_started,
  mfa_challenge_cancelled, lock_completed, authenticated_ui_ready, pending_password_changed,
  user_decrypted_changed, user_changed, loading_started, lock_requested,
}
use purrivacy_app.AuthMachine.Reducer.{auth_reducer, run}
use purrivacy_app.AuthMachine.Secrets.{HoldsNoSecret}
use purrivacy_app.AuthMachine.Locked.{locked_holds_no_secret, locked_challenge_keeps_password}

-- A user signs in, the UI is entered, and the session is locked.
abbrev sign_in_and_lock : List Event
sign_in_and_lock =
    firebase_user_established 1
    ∷ session_created
    ∷ user_decrypted_changed (some 2)
    ∷ user_changed 3
    ∷ authenticated_ui_ready
    ∷ lock_requested
    ∷ lock_completed
    ∷ []

abbrev signed_in : State
signed_in = record initial {
  phase = authenticated;
  user = some 3;
  fb_user = some 1;
  session_authenticated = true;
  auth_completed = true;
  user_decrypted = some 2;
}

abbrev locked : State
locked = to_locally_locked signed_in

abbrev ready : State
ready = record signed_in { phase = firebase_authenticated }

abbrev leaving : List Event
leaving = firebase_user_established 1 ∷ sign_out_started ∷ []

abbrev late : List Event
late =
    loading_started ∷ pending_password_changed (some "late") ∷ user_decrypted_changed (some 9) ∷ []

locked_holds_no_secret_example : HoldsNoSecret (run initial sign_in_and_lock)
unfolding run auth_reducer initial
locked_holds_no_secret_example = locked_holds_no_secret sign_in_and_lock refl refl

locked_challenge_keeps_password_example :
    let t = run locked (
      mfa_challenge_raised
      ∷ pending_password_changed (some "secret")
      ∷ mfa_challenge_cancelled
      ∷ []) in
    (t.phase ≡ locally_locked) × (t.pending_password ≡ some "secret")
unfolding to_locally_locked
locked_challenge_keeps_password_example =
    locked_challenge_keeps_password locked "secret" refl (λ e. cc)
