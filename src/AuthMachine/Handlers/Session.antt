-- ===== src/AuthMachine/Handlers/Session.antt =====
-- Bootstrap, the Firebase session, the backend session and the MFA challenge: the cases of
-- `authReducer` from BOOTSTRAP_COMPLETED to MFA_CHALLENGE_CANCELLED.
use purrivacy_app.Prelude.{true, false, not, ◌&&◌, ◌||◌, none, some, if◌then◌else◌}
use purrivacy_app.AuthMachine.State.{
  State, firebase_authenticated, mfa_pending, ObjectRef, LastSignedInUser, to_signed_out,
  to_locally_locked,
}
use purrivacy_app.AuthMachine.Handlers.Tests.{
  is_bootstrapping, is_signed_out, is_mfa_pending, is_unlocking, is_locally_locked, is_deleting,
  or_else, or_nullable,
}

-- BOOTSTRAP_COMPLETED and FIREBASE_USER_LOST
unfoldable pub on_firebase_user_lost : State → State
unfolding to_signed_out
on_firebase_user_lost s =
    if is_signed_out s.phase then s else if is_deleting s.phase then s else to_signed_out false s

-- FIREBASE_USER_ESTABLISHED
unfoldable pub on_firebase_user_established : ObjectRef → State → State
on_firebase_user_established u s =
    if is_locally_locked s.phase || is_unlocking s.phase
    then record s {
      fb_user = some u;
      user = if s.session_authenticated then some u else s.user;
      error = none;
    }
    else record s {
      phase =
          if is_bootstrapping s.phase || is_signed_out s.phase
          then firebase_authenticated
          else s.phase;
      fb_user = some u;
      user = if s.session_authenticated then some u else s.user;
      is_local_session_locked = false;
      error = none;
    }

-- LOCAL_LOCK_DETECTED
unfoldable pub on_local_lock_detected : LastSignedInUser → State → State
unfolding to_locally_locked
on_local_lock_detected u s = record (to_locally_locked s) { last_signed_in_user = some u }

-- SESSION_CREATED
unfoldable pub on_session_created : State → State
on_session_created s =
    if s.session_authenticated && not (is_mfa_pending s.phase)
    then s
    else if is_unlocking s.phase
    then record s {
      session_authenticated = true;
      user = or_nullable s.fb_user s.user;
      prior_phase = none;
      error = none;
    }
    else record s {
      phase =
          if is_mfa_pending s.phase || is_locally_locked s.phase || is_bootstrapping s.phase
          then firebase_authenticated
          else s.phase;
      session_authenticated = true;
      user = or_nullable s.fb_user s.user;
      is_local_session_locked = false;
      prior_phase = none;
      error = none;
    }

-- SESSION_AUTH_LOST
unfoldable pub on_session_auth_lost : State → State
on_session_auth_lost s =
    if not s.session_authenticated then s else record s { session_authenticated = false }

-- MFA_CHALLENGE_RAISED
unfoldable pub on_mfa_challenge_raised : State → State
on_mfa_challenge_raised s = if is_mfa_pending s.phase then s else record s {
  phase = mfa_pending;
  prior_phase = some s.phase;
  session_authenticated = false;
  is_auth_loading = false;
  error = none;
}

-- MFA_CHALLENGE_CANCELLED
unfoldable pub on_mfa_challenge_cancelled : State → State
on_mfa_challenge_cancelled s = if not (is_mfa_pending s.phase) then s else record s {
  phase = or_else s.prior_phase firebase_authenticated;
  prior_phase = none;
  is_auth_loading = false;
  error = none;
}
