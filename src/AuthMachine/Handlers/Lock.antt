-- ===== src/AuthMachine/Handlers/Lock.antt =====
-- Local unlock and local lock: the cases of `authReducer` from UNLOCK_REQUESTED to
-- LOCAL_LOCK_CLEARED.
use purrivacy_app.Prelude.{String, true, false, not, ◌&&◌, none, some, if◌then◌else◌}
use purrivacy_app.AuthMachine.State.{State, firebase_authenticated, unlocking, to_locally_locked}
use purrivacy_app.AuthMachine.Handlers.Tests.{is_unlocking, is_locally_locked, is_none}

-- UNLOCK_REQUESTED
unfoldable pub on_unlock_requested : State → State
on_unlock_requested s =
    if is_unlocking s.phase
    then s
    else if not (is_locally_locked s.phase)
    then s
    else record s { phase = unlocking; error = none }

-- UNLOCK_SUCCEEDED
unfoldable pub on_unlock_succeeded : State → State
on_unlock_succeeded s =
    if not (is_unlocking s.phase) && not (is_locally_locked s.phase) then s else record s {
      phase = if is_none s.fb_user then s.phase else firebase_authenticated;
      is_local_session_locked = false;
      error = none;
    }

-- UNLOCK_FAILED
unfoldable pub on_unlock_failed : String → State → State
unfolding to_locally_locked
on_unlock_failed message s =
    if not (is_unlocking s.phase) then s else record (to_locally_locked s) { error = some message }

-- LOCK_REQUESTED
unfoldable pub on_lock_requested : State → State
on_lock_requested s =
    if s.is_auth_loading && is_none s.error
    then s
    else record s { is_auth_loading = true; error = none }

-- LOCK_COMPLETED
unfoldable pub on_lock_completed : State → State
unfolding to_locally_locked
on_lock_completed s = if is_locally_locked s.phase then s else to_locally_locked s

-- LOCAL_LOCK_CLEARED
unfoldable pub on_local_lock_cleared : State → State
on_local_lock_cleared s =
    if not s.is_local_session_locked then s else record s { is_local_session_locked = false }
