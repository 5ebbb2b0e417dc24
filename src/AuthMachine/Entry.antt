-- ===== src/AuthMachine/Entry.antt =====
-- How the authenticated phase is entered
-- (apps/mobile/src/features/auth/state/authStateMachine.ts).
use purrivacy_app.Prelude.{◌≡◌, ◌≢◌, ◌⊎◌, true, none, some, arith}
use purrivacy_app.AuthMachine.State.{State, authenticated}
use purrivacy_app.AuthMachine.Events.{Event, bootstrap_completed, authenticated_ui_ready}
use purrivacy_app.AuthMachine.Reducer.{auth_reducer}

-- A Firebase user, a backend session, the user of the UI and decrypted data; the password is gone.
pub record IsReady (s : State) : Type 0 where
  pub fb_user : s.fb_user ≢ none
  pub session : s.session_authenticated ≡ true
  pub user : s.user ≢ none
  pub decrypted : s.user_decrypted ≢ none
  pub no_password : s.pending_password ≡ none
  pub completed : s.auth_completed ≡ true

-- A step into the authenticated phase, from any other phase, is either AUTHENTICATED_UI_READY, and
-- then the new state has a Firebase user, a backend session, the user of the UI and decrypted data
-- and no pending password, or it restores a prior phase that was the authenticated one.
pub enters_authenticated :
    (s : State) (e : Event)
    → s.phase ≢ authenticated
    → (auth_reducer s e).phase ≡ authenticated
    → ((e ≡ authenticated_ui_ready) × IsReady (auth_reducer s e))
      ⊎ (s.prior_phase ≡ some authenticated)
unfolding auth_reducer
enters_authenticated s bootstrap_completed h p = ground arith
enters_authenticated s _ h p = ground arith
