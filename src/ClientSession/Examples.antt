-- ===== src/ClientSession/Examples.antt =====
-- The properties of the app's session at concrete answers (apps/mobile/src/api/session).
use purrivacy_app.Prelude.{ℕ, ◌+◌, ◌<◌, ◌≡◌, refl, true, false, none, some, [], ◌∷◌}
use purrivacy_app.Server.Text.{is_empty}
use purrivacy_app.Responses.Types.{SessionAnswer}
use purrivacy_app.ClientSession.Errors.{
  ApiError, no_flags, flags_or, has_refresh_flag, is_rate_limit_error, is_terminal_error,
  is_mfa_required, mark_requires_sign_out,
}
use purrivacy_app.ClientSession.Tokens.{
  AccessToken, StoredSession, is_ahead, has_usable_token, session_of_token, session_until,
  response_from_stored,
}
use purrivacy_app.ClientSession.Manager.{
  session_request, ClientState, threw, Surroundings, clear_backend_session, refreshed,
  caught_refresh, local_or_refreshed, local_session, local_failed, after_local, resume,
  resume_or_request, create_client_session,
}
use purrivacy_app.ClientSession.Remote.{same_bool, is_in_step, sync_remote_mfa_state}
use purrivacy_app.ClientSession.Synced.{remote_change_forces_request}
use purrivacy_app.ClientSession.Ended.{terminal_error_clears_session}
use purrivacy_app.ClientSession.Usable.{served_session_is_usable}

abbrev reused : ApiError
reused = record {
  own = no_flags;
  session_error = some record no_flags { refresh_token_reuse = true };
}

abbrev answers : Surroundings
answers = record {
  now = 100_000;
  recent_swap = false;
  iso = λ time. "2026";
  date_of = λ text. none;
  time_of = λ text. 0;
  refresh_answer = threw reused;
  session_answer = threw reused;
}

abbrev saved : StoredSession
saved = record {
  refresh_token = "refresh";
  refresh_token_expires_at = 900_000;
  mfa_trusted = false;
  mfa_enabled = false;
}

abbrev with_token : ℕ → ClientState
with_token expires = record {
  access_token = some record { token = "access"; expires_at = some expires };
  stored = some saved;
  force_fresh = false;
}

terminal_error_clears_session_example :
    (create_client_session answers true none false (with_token 110_000)).after.stored ≡ none
unfolding create_client_session resume_or_request resume after_local local_session local_failed
    local_or_refreshed refreshed caught_refresh clear_backend_session response_from_stored
    has_usable_token is_ahead is_empty is_terminal_error is_mfa_required is_rate_limit_error
    flags_or has_refresh_flag mark_requires_sign_out
terminal_error_clears_session_example =
    terminal_error_clears_session answers true none false (with_token 110_000)
      (mark_requires_sign_out reused) refl refl refl

abbrev cached : SessionAnswer
cached = record {
  access_token = "access";
  refresh_token = "refresh";
  access_token_expires_at = "2026";
  refresh_token_expires_at = "2026";
  mfa_trusted = false;
  mfa_enabled = false;
  new_recovery_codes = none;
}

served_session_is_usable_example :
    (t : AccessToken) × (expires : ℕ) × (session : StoredSession) × ((with_token
        500_000).access_token
      ≡ some t)
    × (t.expires_at ≡ some expires)
    × (100_000 + 30_000 < expires)
    × ((with_token 500_000).stored ≡ some session)
    × (cached.access_token ≡ t.token)
    × (cached.refresh_token ≡ session.refresh_token)
unfolding create_client_session resume_or_request resume after_local local_session
    local_or_refreshed response_from_stored has_usable_token is_ahead session_until session_of_token
    is_empty
served_session_is_usable_example =
    served_session_is_usable answers true none false (with_token 500_000) cached refl refl

remote_change_forces_request_example :
    ((create_client_session answers true none false
        (sync_remote_mfa_state true true (with_token 500_000))).calls
      ≡ session_request none ∷ [])
    × ((create_client_session answers true none false
          (sync_remote_mfa_state true true (with_token 500_000))).ended
        ≡ threw reused)
unfolding is_in_step same_bool
remote_change_forces_request_example =
    remote_change_forces_request answers true true true none false (with_token 500_000) refl
