-- ===== src/AuthMachine/Handlers/Flags.antt =====
-- Errors, the settling of the UI and the flags: the cases of `authReducer` from AUTH_ERROR to
-- FIREBASE_USER_CLEARED.
use purrivacy_app.Prelude.{
  String, Bool, true, false, not, ◌&&◌, ◌||◌, Option, none, some, if◌then◌else◌, same_text,
  same_nullable,
}
use purrivacy_app.AuthMachine.State.{
  State, authenticated, ObjectRef, LastSignedInUser, pending_password_allowed, decrypted_allowed,
  to_signed_out,
}
use purrivacy_app.AuthMachine.Handlers.Tests.{
  is_bootstrapping, is_firebase_authenticated, is_unlocking, is_authenticated, is_none, same_object,
  same_flag, unchanged_user,
}

-- AUTH_ERROR
unfoldable pub on_auth_error : String → State → State
on_auth_error message s =
    if same_nullable s.error (some message) then s else record s { error = some message }

-- AUTH_UI_SETTLED
unfoldable pub on_auth_ui_settled : State → State
unfolding to_signed_out
on_auth_ui_settled s =
    if is_bootstrapping s.phase
    then to_signed_out false s
    else if s.auth_completed && not s.is_auth_loading && not s.is_checking_inactivity
    then s
    else record s {
      auth_completed = true;
      is_auth_loading = false;
      is_checking_inactivity = false;
      error = none;
    }

-- AUTHENTICATED_UI_READY
unfoldable pub on_authenticated_ui_ready : State → State
on_authenticated_ui_ready s =
    if is_authenticated s.phase
    then s
    else if not (is_firebase_authenticated s.phase) && not (is_unlocking s.phase)
    then s
    else if is_none s.fb_user
        || not s.session_authenticated
        || is_none s.user
        || is_none s.user_decrypted
    then s
    else record s {
      phase = authenticated;
      auth_completed = true;
      is_auth_loading = false;
      is_checking_inactivity = false;
      pending_password = none;
      prior_phase = none;
      error = none;
    }

-- LOADING_STARTED
unfoldable pub on_loading_started : State → State
on_loading_started s =
    if s.is_auth_loading then s else record s { is_auth_loading = true; error = none }

-- LOADING_FINISHED
unfoldable pub on_loading_finished : State → State
on_loading_finished s = if not s.is_auth_loading then s else record s { is_auth_loading = false }

-- CHECKING_INACTIVITY
unfoldable pub on_checking_inactivity : Bool → State → State
on_checking_inactivity checking s =
    if same_flag s.is_checking_inactivity checking
    then s
    else record s { is_checking_inactivity = checking }

-- APP_STATE_CHANGED
unfoldable pub on_app_state_changed : Bool → State → State
on_app_state_changed is_background s =
    if same_flag s.app_state_is_background is_background
    then s
    else record s { app_state_is_background = is_background }

-- LAST_SIGNED_IN_USER_CHANGED
unfoldable pub on_last_signed_in_user_changed : Option LastSignedInUser → State → State
on_last_signed_in_user_changed u s =
    if unchanged_user s.last_signed_in_user u then s else record s { last_signed_in_user = u }

-- BIOMETRIC_SIGN_IN_MARKED
unfoldable pub on_biometric_sign_in_marked : Bool → State → State
on_biometric_sign_in_marked used s =
    if same_flag s.last_used_biometric_sign_in used
    then s
    else record s { last_used_biometric_sign_in = used }

drop_pending_password : State → State
drop_pending_password s =
    if is_none s.pending_password then s else record s { pending_password = none }

-- PENDING_PASSWORD_CHANGED; `!event.password` holds of `null` and of the empty text
unfoldable pub on_pending_password_changed : Option String → State → State
unfolding drop_pending_password pending_password_allowed
on_pending_password_changed none s = drop_pending_password s
on_pending_password_changed (some password) s =
    if same_text password ""
    then drop_pending_password s
    else if not (pending_password_allowed s.phase)
    then s
    else if same_nullable s.pending_password (some password)
    then s
    else record s { pending_password = some password }

-- USER_DECRYPTED_CHANGED
unfoldable pub on_user_decrypted_changed : Option ObjectRef → State → State
unfolding decrypted_allowed
on_user_decrypted_changed none s =
    if is_none s.user_decrypted then s else record s { user_decrypted = none }
on_user_decrypted_changed (some d) s =
    if not (decrypted_allowed s.phase)
    then s
    else if same_object s.user_decrypted (some d)
    then s
    else record s { user_decrypted = some d }

-- USER_CHANGED
unfoldable pub on_user_changed : ObjectRef → State → State
on_user_changed u s = record s { user = some u; error = none }

-- USER_CLEARED
unfoldable pub on_user_cleared : State → State
on_user_cleared s = if is_none s.user then s else record s { user = none }

-- FIREBASE_USER_CLEARED
unfoldable pub on_firebase_user_cleared : State → State
on_firebase_user_cleared s = if is_none s.fb_user then s else record s { fb_user = none }
