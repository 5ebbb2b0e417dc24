-- ===== src/Mfa/Compensation.antt =====
-- Failures and retries of enabling and disabling
-- (apps/server/src/features/mfa/application/MfaSessionService.ts).
use Prim.Native.String.{String}
use purrivacy_app.Prelude.{◌≡◌, refl, true, false, none, some, [], ◌∷◌, same_text}
use purrivacy_app.Prelude.Dict.{lookup}
use purrivacy_app.Server.Errors.{AppError, transition_error, ok, err}
use purrivacy_app.Transition.Runner.{
  Progress, execute_transition, run_steps, after_run, after_record, record_step, clear_store,
  includes, stored_names, failed_at, read_progress,
}
use purrivacy_app.Mfa.SessionService.{
  TransitionLabel, enable, disable, apply_step, Service, create_step, revoke_step, is_step,
  completed_with, stored_session, with_session, without_result, revoke_for, family_of_session,
  transition_steps, beside, local_store, clear_after, compensate, conclude_with, conclude, run_from,
  run_transition,
}

create_not_apply : (label : TransitionLabel) → same_text create_step (apply_step label) ≡ false
unfolding same_text apply_step
create_not_apply enable = refl
create_not_apply disable = refl

apply_not_revoke : (label : TransitionLabel) → same_text (apply_step label) revoke_step ≡ false
unfolding same_text apply_step
apply_not_revoke enable = refl
apply_not_revoke disable = refl

create_not_revoke : same_text create_step revoke_step ≡ false
unfolding same_text
create_not_revoke = refl

revoke_not_apply : (label : TransitionLabel) → same_text revoke_step (apply_step label) ≡ false
unfolding same_text apply_step
revoke_not_apply enable = refl
revoke_not_apply disable = refl

revoke_is_revoke : same_text revoke_step revoke_step ≡ true
unfolding same_text
revoke_is_revoke = refl

create_is_create : same_text create_step create_step ≡ true
unfolding same_text
create_is_create = refl

module _ {S R : Type 0} (service : Service S R) where
  -- When the old sessions cannot be revoked in a fresh attempt whose first two steps succeeded and
  -- were recorded, a transition error is thrown, and nothing is compensated or cleared.
  pub failed_revocation_keeps_session :
      (s s1 s2 s3 s4 s5 : S) (r : R) (family : String) (e : AppError)
      → service.store.read s ≡ ok none
      → service.create_session s ≡ (s1, ok r)
      → service.store.complete create_step (some r) s1 ≡ (s2, ok tt)
      → service.apply_mfa_state false s2 ≡ (s3, ok tt)
      → service.store.complete (apply_step service.label) none s3 ≡ (s4, ok tt)
      → service.family_of r ≡ some family
      → service.revoke_old_sessions family s4 ≡ (s5, err e)
      → run_transition service s ≡ (s5, err transition_error)
  unfolding run_transition execute_transition run_steps after_run after_record record_step includes
      failed_at read_progress clear_store clear_after compensate conclude conclude_with
      completed_with run_from transition_steps local_store beside with_session without_result
      revoke_for family_of_session is_step stored_session
  failed_revocation_keeps_session s s1 s2 s3 s4 s5 r family e read created stored applied stored_too
        has_family failed_step =
      rw
        (
          read,
          read,
          created,
          stored,
          create_not_apply service.label,
          applied,
          stored_too,
          create_not_revoke,
          apply_not_revoke service.label,
          has_family,
          failed_step,
          has_family,
          failed_step,
          revoke_not_apply service.label,
          revoke_is_revoke,
        )
        refl

  -- A retry that finds the first two steps recorded, with the session, runs the third only; if that
  -- succeeds and is recorded, the progress is cleared and the recorded session is returned.
  pub retry_finishes :
      (s s1 s2 : S) (progress : Progress R) (r : R) (family : String)
      → service.store.read s ≡ ok (some progress)
      → includes create_step (stored_names progress.steps) ≡ true
      → includes (apply_step service.label) (stored_names progress.steps) ≡ true
      → includes revoke_step (stored_names progress.steps) ≡ false
      → lookup create_step progress.steps ≡ some (some r)
      → service.family_of r ≡ some family
      → service.revoke_old_sessions family s ≡ (s1, ok tt)
      → service.store.complete revoke_step none s1 ≡ (s2, ok tt)
      → run_transition service s ≡ ((service.store.clear s2).0, ok r)
  unfolding run_transition execute_transition run_steps after_run after_record record_step includes
      failed_at read_progress clear_store clear_after compensate conclude conclude_with
      completed_with run_from transition_steps local_store beside with_session without_result
      revoke_for family_of_session is_step stored_session
  retry_finishes s s1 s2 progress r family read has_create has_apply no_revoke is_session has_family
        revoked stored =
      rw
        (
          read, is_session, read, has_create, has_apply, no_revoke, has_family, revoked, has_family,
          revoked, stored,
        )
        refl

  -- A retry that finds only the created session recorded, and whose other steps succeed and are
  -- recorded, returns that session, whether or not its family has been revoked since.
  pub retry_returns_recorded_session :
      (s s1 s2 s3 s4 : S) (progress : Progress R) (r : R) (family : String)
      → service.store.read s ≡ ok (some progress)
      → stored_names progress.steps ≡ create_step ∷ []
      → lookup create_step progress.steps ≡ some (some r)
      → service.apply_mfa_state true s ≡ (s1, ok tt)
      → service.store.complete (apply_step service.label) none s1 ≡ (s2, ok tt)
      → service.family_of r ≡ some family
      → service.revoke_old_sessions family s2 ≡ (s3, ok tt)
      → service.store.complete revoke_step none s3 ≡ (s4, ok tt)
      → run_transition service s ≡ ((service.store.clear s4).0, ok r)
  unfolding run_transition execute_transition run_steps after_run after_record record_step includes
      failed_at read_progress clear_store clear_after compensate conclude conclude_with
      completed_with run_from transition_steps local_store beside with_session without_result
      revoke_for family_of_session is_step stored_session
  retry_returns_recorded_session s s1 s2 s3 s4 progress r family read names is_session applied
        stored has_family revoked stored_too =
      rw
        (
          read,
          is_session,
          read,
          names,
          create_is_create,
          create_not_apply service.label,
          applied,
          stored,
          create_not_revoke,
          apply_not_revoke service.label,
          has_family,
          revoked,
          has_family,
          revoked,
          stored_too,
        )
        refl
