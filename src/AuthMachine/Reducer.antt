-- ===== src/AuthMachine/Reducer.antt =====
-- `authReducer`, and its runs (apps/mobile/src/features/auth/state/authStateMachine.ts).
use purrivacy_app.Prelude.{List, [], ◌∷◌}
use purrivacy_app.AuthMachine.State.{State}
use purrivacy_app.AuthMachine.Events.{
  Event, bootstrap_completed, firebase_user_lost, session_created, session_auth_lost,
  mfa_challenge_raised, mfa_challenge_cancelled, unlock_requested, unlock_succeeded, lock_requested,
  lock_completed, local_lock_cleared, sign_out_started, sign_out_completed, deletion_started,
  deletion_completed, partial_auth_cleared, auth_ui_settled, authenticated_ui_ready,
  loading_started, loading_finished, user_cleared, firebase_user_cleared, firebase_user_established,
  local_lock_detected, unlock_failed, sign_out_failed, deletion_failed, auth_error,
  checking_inactivity, app_state_changed, last_signed_in_user_changed, biometric_sign_in_marked,
  pending_password_changed, user_decrypted_changed, user_changed,
}
use purrivacy_app.AuthMachine.Handlers.Session.{
  on_firebase_user_lost, on_firebase_user_established, on_local_lock_detected, on_session_created,
  on_session_auth_lost, on_mfa_challenge_raised, on_mfa_challenge_cancelled,
}
use purrivacy_app.AuthMachine.Handlers.Lock.{
  on_unlock_requested, on_unlock_succeeded, on_unlock_failed, on_lock_requested, on_lock_completed,
  on_local_lock_cleared,
}
use purrivacy_app.AuthMachine.Handlers.Leave.{
  on_sign_out_started, on_sign_out_completed, on_sign_out_failed, on_deletion_started,
  on_deletion_completed, on_deletion_failed, on_partial_auth_cleared,
}
use purrivacy_app.AuthMachine.Handlers.Flags.{
  on_auth_error, on_auth_ui_settled, on_authenticated_ui_ready, on_loading_started,
  on_loading_finished, on_checking_inactivity, on_app_state_changed, on_last_signed_in_user_changed,
  on_biometric_sign_in_marked, on_pending_password_changed, on_user_decrypted_changed,
  on_user_changed, on_user_cleared, on_firebase_user_cleared,
}

-- The `switch` of `authReducer`. A proof that unfolds it sees the cases too.
unfoldable pub auth_reducer : State → Event → State
unfolding on_firebase_user_lost on_firebase_user_established on_local_lock_detected
    on_session_created on_session_auth_lost on_mfa_challenge_raised on_mfa_challenge_cancelled
    on_unlock_requested on_unlock_succeeded on_unlock_failed on_lock_requested on_lock_completed
    on_local_lock_cleared on_sign_out_started on_sign_out_completed on_sign_out_failed
    on_deletion_started on_deletion_completed on_deletion_failed on_partial_auth_cleared
    on_auth_error on_auth_ui_settled on_authenticated_ui_ready on_loading_started
    on_loading_finished on_checking_inactivity on_app_state_changed on_last_signed_in_user_changed
    on_biometric_sign_in_marked on_pending_password_changed on_user_decrypted_changed
    on_user_changed on_user_cleared on_firebase_user_cleared
auth_reducer s bootstrap_completed = on_firebase_user_lost s
auth_reducer s firebase_user_lost = on_firebase_user_lost s
auth_reducer s (firebase_user_established u) = on_firebase_user_established u s
auth_reducer s (local_lock_detected u) = on_local_lock_detected u s
auth_reducer s session_created = on_session_created s
auth_reducer s session_auth_lost = on_session_auth_lost s
auth_reducer s mfa_challenge_raised = on_mfa_challenge_raised s
auth_reducer s mfa_challenge_cancelled = on_mfa_challenge_cancelled s
auth_reducer s unlock_requested = on_unlock_requested s
auth_reducer s unlock_succeeded = on_unlock_succeeded s
auth_reducer s (unlock_failed message) = on_unlock_failed message s
auth_reducer s lock_requested = on_lock_requested s
auth_reducer s lock_completed = on_lock_completed s
auth_reducer s local_lock_cleared = on_local_lock_cleared s
auth_reducer s sign_out_started = on_sign_out_started s
auth_reducer s sign_out_completed = on_sign_out_completed s
auth_reducer s (sign_out_failed message) = on_sign_out_failed message s
auth_reducer s deletion_started = on_deletion_started s
auth_reducer s deletion_completed = on_deletion_completed s
auth_reducer s (deletion_failed message) = on_deletion_failed message s
auth_reducer s partial_auth_cleared = on_partial_auth_cleared s
auth_reducer s (auth_error message) = on_auth_error message s
auth_reducer s auth_ui_settled = on_auth_ui_settled s
auth_reducer s authenticated_ui_ready = on_authenticated_ui_ready s
auth_reducer s loading_started = on_loading_started s
auth_reducer s loading_finished = on_loading_finished s
auth_reducer s (checking_inactivity checking) = on_checking_inactivity checking s
auth_reducer s (app_state_changed is_background) = on_app_state_changed is_background s
auth_reducer s (last_signed_in_user_changed u) = on_last_signed_in_user_changed u s
auth_reducer s (biometric_sign_in_marked used) = on_biometric_sign_in_marked used s
auth_reducer s (pending_password_changed password) = on_pending_password_changed password s
auth_reducer s (user_decrypted_changed d) = on_user_decrypted_changed d s
auth_reducer s (user_changed u) = on_user_changed u s
auth_reducer s user_cleared = on_user_cleared s
auth_reducer s firebase_user_cleared = on_firebase_user_cleared s

-- The states that `useReducer` goes through for a list of dispatched events.
unfoldable pub run : State → List Event → State
run s [] = s
run s (e ∷ es) = run (auth_reducer s e) es
