-- ===== src/AuthMachine/Handlers/Leave.antt =====
-- Sign-out, account deletion and the cleanup of a partial authentication: the cases of
-- `authReducer` from SIGN_OUT_STARTED to PARTIAL_AUTH_CLEARED.
use purrivacy_app.Prelude.{String, true, false, not, ◌||◌, none, some, if◌then◌else◌}
use purrivacy_app.AuthMachine.State.{State, signed_out, signing_out, deleting, to_signed_out}
use purrivacy_app.AuthMachine.Handlers.Tests.{is_signed_out, is_signing_out, is_deleting, or_else}

-- SIGN_OUT_STARTED
unfoldable pub on_sign_out_started : State → State
on_sign_out_started s = if is_signing_out s.phase then s else record s {
  phase = signing_out;
  prior_phase = if is_deleting s.phase then s.prior_phase else some s.phase;
  is_auth_loading = true;
  error = none;
}

-- SIGN_OUT_COMPLETED
unfoldable pub on_sign_out_completed : State → State
unfolding to_signed_out
on_sign_out_completed s = if is_signed_out s.phase then s else to_signed_out false s

-- SIGN_OUT_FAILED
unfoldable pub on_sign_out_failed : String → State → State
on_sign_out_failed message s = if not (is_signing_out s.phase) then s else record s {
  phase = or_else s.prior_phase signed_out;
  prior_phase = none;
  is_auth_loading = false;
  error = some message;
}

-- DELETION_STARTED
unfoldable pub on_deletion_started : State → State
on_deletion_started s = if is_deleting s.phase then s else record s {
  phase = deleting;
  prior_phase = if is_signing_out s.phase then s.prior_phase else some s.phase;
  is_auth_loading = true;
  error = none;
}

-- DELETION_COMPLETED
unfoldable pub on_deletion_completed : State → State
unfolding to_signed_out
on_deletion_completed s = if is_signed_out s.phase then s else to_signed_out false s

-- DELETION_FAILED
unfoldable pub on_deletion_failed : String → State → State
on_deletion_failed message s = if not (is_deleting s.phase) then s else record s {
  phase = or_else s.prior_phase signed_out;
  prior_phase = none;
  is_auth_loading = false;
  error = some message;
}

-- PARTIAL_AUTH_CLEARED
unfoldable pub on_partial_auth_cleared : State → State
unfolding to_signed_out
on_partial_auth_cleared s =
    if is_signing_out s.phase || is_deleting s.phase
    then record s {
      user = none;
      fb_user = none;
      session_authenticated = false;
      is_local_session_locked = false;
      is_auth_loading = false;
      is_checking_inactivity = false;
      pending_password = none;
      user_decrypted = none;
      error = none;
    }
    else to_signed_out true s
