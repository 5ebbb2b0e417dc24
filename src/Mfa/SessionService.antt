-- ===== src/Mfa/SessionService.antt =====
-- `runTransition` of the MFA session service
-- (apps/server/src/features/mfa/application/MfaSessionService.ts). `S` is the state that the steps act
-- on and `R` the type of session responses. What the steps call is an argument: creating the session,
-- applying the MFA state, revoking the old sessions and revoking one family.
use Prim.Native.String.{String}
use purrivacy_app.Prelude.{
  Bool, true, false, Option, none, some, List, [], ◌∷◌, if◌then◌else◌, same_text,
}
use purrivacy_app.Prelude.Dict.{lookup}
use purrivacy_app.Server.Errors.{AppError, transition_error, other_error, Result, ok, err}
use purrivacy_app.Transition.Runner.{
  Task, Progress, TransitionStore, Status, completed, failed, Execution, execute_transition,
}

-- `transitionLabel`
pub data TransitionLabel : Type 0 where
  enable disable : TransitionLabel

-- `applyMfa${transitionLabel}`
unfoldable pub apply_step : TransitionLabel → String
apply_step enable = "applyMfaenable"
apply_step disable = "applyMfadisable"

-- `MfaTransitionConfig`, with what the steps call; `family_of` is `sessionFamilyId`
pub record Service (S R : Type 0) : Type 0 where
  pub label : TransitionLabel
  pub store : TransitionStore S R
  pub create_session : S → S × Result R
  pub apply_mfa_state : Bool → S → S × Result (Unit {0})
  pub revoke_old_sessions : String → S → S × Result (Unit {0})
  pub revoke_family : String → S → S × Result (Unit {0})
  pub family_of : R → Option String

-- An error that is no `AppError` becomes a `TransitionError`.
unfoldable pub rethrown : Option AppError → AppError
rethrown none = transition_error
rethrown (some other_error) = transition_error
rethrown (some e) = e

abbrev pub create_step : String
create_step = "createSession"

abbrev pub revoke_step : String
revoke_step = "revokeOldSessions"

-- The steps' state, with the variable `sessionResponse`
abbrev pub Local : Type 0 → Type 0 → Type 0
Local S R = S × Option R

-- `failedStep === name`
unfoldable pub is_step : String → Option String → Bool
is_step name none = false
is_step name (some step) = same_text step name

-- The conclude_with of a completed transition
unfoldable pub completed_with : {R : Type 0} → Option R → Result R
completed_with none = err transition_error
completed_with (some r) = ok r

-- `progress?.steps?.createSession?.result`
unfoldable pub stored_session : {R : Type 0} → Option (Option R) → Option R
stored_session none = none
stored_session (some r) = r

module _ {S R : Type 0} where
  unfoldable pub with_session : S × Result R → Option R → Local S R × Result (Option R)
  with_session (s, ok r) session = ((s, some r), ok (some r))
  with_session (s, err e) session = ((s, session), err e)

  unfoldable pub without_result : S × Result (Unit {0}) → Option R → Local S R × Result (Option R)
  without_result (s, ok u) session = ((s, session), ok none)
  without_result (s, err e) session = ((s, session), err e)

  unfoldable pub revoke_for :
      Service S R → Option String → Local S R → Local S R × Result (Option R)
  unfolding without_result
  revoke_for service none (s, session) = ((s, session), err other_error)
  revoke_for service (some family) (s, session) =
      without_result (service.revoke_old_sessions family s) session

  unfoldable pub family_of_session : Service S R → Option R → Option String
  family_of_session service none = none
  family_of_session service (some r) = service.family_of r

  -- `steps`
  unfoldable pub transition_steps : Service S R → Bool → List (Task (Local S R) R)
  unfolding apply_step with_session without_result revoke_for family_of_session
  transition_steps service is_resume =
      record { name = create_step; run = λ l. with_session (service.create_session l.0) l.1 }
      ∷ record {
        name = apply_step service.label;
        run = λ l. without_result (service.apply_mfa_state is_resume l.0) l.1;
      }
      ∷ record {
        name = revoke_step;
        run = λ l. revoke_for service (family_of_session service l.1) l;
      }
      ∷ []

  unfoldable pub beside : S × Result (Unit {0}) → Option R → Local S R × Result (Unit {0})
  beside (s, result) session = ((s, session), result)

  -- The store, beside the variable
  unfoldable pub local_store : TransitionStore S R → TransitionStore (Local S R) R
  unfolding beside
  local_store store = record {
    read = λ l. store.read l.0;
    complete = λ name r l. beside (store.complete name r l.0) l.1;
    clear = λ l. beside (store.clear l.0) l.1;
  }

  -- The end of the compensation; its errors are logged and ignored
  unfoldable pub clear_after : Service S R → S × Result (Unit {0}) → S
  clear_after service (s, ok u) = (service.store.clear s).0
  clear_after service (s, err e) = s

  -- The compensation, for the session's family if it has one
  unfoldable pub compensate : Service S R → Option String → S → S
  unfolding clear_after
  compensate service none s = s
  compensate service (some family) s = clear_after service (service.revoke_family family s)

  -- What follows `executeTransition`, by the status
  unfoldable pub conclude_with :
      Service S R → Local S R → Status → Option String → Option AppError → S × Result R
  unfolding compensate is_step completed_with rethrown family_of_session apply_step
  conclude_with service (s, session) completed failed_step e = (s, completed_with session)
  conclude_with service (s, session) failed failed_step e = (
    if is_step (apply_step service.label) failed_step
        then compensate service (family_of_session service session) s
        else s,
    if is_step revoke_step failed_step then err transition_error else err (rethrown e),
  )

  unfoldable pub conclude : Service S R → Local S R × Result (Execution R) → S × Result R
  unfolding conclude_with
  conclude service ((s, session), err e) = (s, err e)
  conclude service (local, ok execution) =
      conclude_with service local execution.status execution.failed_step execution.error

  -- `isResume` and `sessionResponse` from what the store returned
  unfoldable pub run_from : Service S R → Result (Option (Progress R)) → S → S × Result R
  unfolding conclude execute_transition transition_steps local_store stored_session
  run_from service (err e) s = (s, err e)
  run_from service (ok none) s = conclude service (
      execute_transition (some (local_store service.store)) (transition_steps service false)
        (s, none))
  run_from service (ok (some progress)) s = conclude service (
      execute_transition (some (local_store service.store)) (transition_steps service true)
        (s, stored_session (lookup create_step progress.steps)))

  -- `runTransition`
  unfoldable pub run_transition : Service S R → S → S × Result R
  unfolding run_from
  run_transition service s = run_from service (service.store.read s) s
