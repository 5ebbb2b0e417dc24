-- ===== src/AuthMachine/Events.antt =====
-- The events of the machine (`AuthEvent`).
use purrivacy_app.Prelude.{String, Bool, Option}
use purrivacy_app.AuthMachine.State.{ObjectRef, LastSignedInUser}

-- `AuthEvent`
pub data Event : Type 0 where
  bootstrap_completed firebase_user_lost session_created session_auth_lost : Event
  mfa_challenge_raised mfa_challenge_cancelled unlock_requested unlock_succeeded : Event
  lock_requested lock_completed local_lock_cleared sign_out_started sign_out_completed : Event
  deletion_started deletion_completed partial_auth_cleared auth_ui_settled : Event
  authenticated_ui_ready loading_started loading_finished user_cleared : Event
  firebase_user_cleared : Event
  firebase_user_established : ObjectRef → Event
  local_lock_detected : LastSignedInUser → Event
  unlock_failed : String → Event
  sign_out_failed : String → Event
  deletion_failed : String → Event
  auth_error : String → Event
  checking_inactivity : Bool → Event
  app_state_changed : Bool → Event
  last_signed_in_user_changed : Option LastSignedInUser → Event
  biometric_sign_in_marked : Bool → Event
  pending_password_changed : Option String → Event
  user_decrypted_changed : Option ObjectRef → Event
  user_changed : ObjectRef → Event
