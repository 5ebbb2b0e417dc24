-- ===== src/ClientSession/Manager.antt =====
-- `SessionManager` (apps/mobile/src/api/session/sessionManager.ts): the state is the access token, the
-- flag that forces a fresh session, and the session that device storage gives back. The server's answers
-- after `processResponse`, the time and whether a session was swapped lately are arguments. Overlapping
-- calls, failures of the storage and logging are left out.
use purrivacy_app.Prelude.{
  ℕ, String, Bool, false, not, ◌&&◌, ◌||◌, Option, none, some, List, [], ◌∷◌, ◌++◌, if◌then◌else◌,
}
use purrivacy_app.Server.Text.{is_empty}
use purrivacy_app.Responses.Types.{SessionAnswer}
use purrivacy_app.ClientSession.Errors.{
  ApiError, is_rate_limit_error, is_terminal_error, is_mfa_required, mark_requires_sign_out,
  missing_stored_session,
}
use purrivacy_app.ClientSession.Tokens.{AccessToken, StoredSession, response_from_stored}

pub record ClientState : Type 0 where
  pub access_token : Option AccessToken
  pub stored : Option StoredSession
  pub force_fresh : Bool

-- What is done outside: a request of one of three kinds, or the event `signOut`
pub data Call : Type 0 where
  refresh_request : String → Call
  session_request : Option String → Call
  sign_out_request : String → Call
  sign_out_event : Call

pub data Ended : Type 0 where
  returned : SessionAnswer → Ended
  threw : ApiError → Ended

pub record Run : Type 0 where
  pub after : ClientState
  pub calls : List Call
  pub ended : Ended

-- The server's answers, and what the app's surroundings say
pub record Surroundings : Type 0 where
  pub now : ℕ
  pub recent_swap : Bool
  pub iso : ℕ → String
  pub date_of : String → Option ℕ
  pub time_of : String → ℕ
  pub refresh_answer : Ended
  pub session_answer : Ended

-- `this.accessTokens.clear()`
unfoldable pub clear_token : ClientState → ClientState
clear_token s = record s { access_token = none }

-- `clearBackendSession`
unfoldable pub clear_backend_session : ClientState → ClientState
clear_backend_session s = record s { access_token = none; stored = none }

module _ (w : Surroundings) where
  -- `storeSessionResponse`
  unfoldable pub store_session_response : SessionAnswer → ClientState → ClientState
  store_session_response r s = record s {
    access_token =
        some record { token = r.access_token; expires_at = w.date_of r.access_token_expires_at };
    stored = some record {
      refresh_token = r.refresh_token;
      refresh_token_expires_at = w.time_of r.refresh_token_expires_at;
      mfa_trusted = r.mfa_trusted;
      mfa_enabled = r.mfa_enabled;
    };
  }

  -- `refreshSessionOnce` behind its request
  unfoldable pub refreshed : StoredSession → ClientState → Ended → Run
  unfolding store_session_response
  refreshed session s (threw e) = record {
    after = s;
    calls = refresh_request session.refresh_token ∷ [];
    ended = threw e;
  }
  refreshed session s (returned r) = record {
    after = if is_empty r.access_token then s else store_session_response r s;
    calls = refresh_request session.refresh_token ∷ [];
    ended = returned r;
  }

  -- The `catch` block around `refreshSession` in `tryGetLocalSession`
  unfoldable pub caught_refresh : Run → Ended → Run
  unfolding clear_token clear_backend_session
  caught_refresh run (returned r) = run
  caught_refresh run (threw e) =
      if is_mfa_required e
      then record run { after = clear_token run.after }
      else if is_terminal_error e
      then record run {
        after = clear_backend_session run.after;
        ended = threw (mark_requires_sign_out e);
      }
      else if is_rate_limit_error e
      then run
      else record run { after = clear_token run.after }

  unfoldable pub local_or_refreshed : StoredSession → ClientState → Option SessionAnswer → Run
  unfolding refreshed caught_refresh
  local_or_refreshed session s (some r) = record { after = s; calls = []; ended = returned r }
  local_or_refreshed session s none =
      caught_refresh (refreshed session s w.refresh_answer) w.refresh_answer

  -- `tryGetLocalSession` with a stored session
  unfoldable pub local_session : StoredSession → ClientState → Run
  unfolding local_or_refreshed response_from_stored
  local_session session s =
      local_or_refreshed session s (response_from_stored w.iso w.now s.access_token session)

  unfoldable pub answered : Option String → ClientState → List Call → Ended → Run
  unfolding store_session_response clear_backend_session
  answered code s calls (returned r) = record {
    after =
        if is_empty r.access_token
        then s
        else record (store_session_response r s) { force_fresh = false };
    calls = calls ++ session_request code ∷ [];
    ended = returned r;
  }
  answered code s calls (threw e) = record {
    after = if is_terminal_error e then clear_backend_session s else s;
    calls = calls ++ session_request code ∷ [];
    ended = threw e;
  }

  -- The request of a new session in `createSession`
  unfoldable pub request_session : Option String → ClientState → List Call → Run
  unfolding answered
  request_session code s calls = answered code s calls w.session_answer

  -- The `catch` block around `tryGetLocalSession` in `createSession`, and what follows
  unfoldable pub local_failed : Bool → ApiError → ClientState → List Call → Run
  unfolding clear_token request_session
  local_failed retry e s calls =
      if is_mfa_required e
      then (if not retry || is_rate_limit_error e
          then record { after = clear_token s; calls = calls; ended = threw e }
          else request_session none (clear_token s) calls)
      else if is_terminal_error e
      then record {
        after = s;
        calls = if retry && not w.recent_swap then calls ++ sign_out_event ∷ [] else calls;
        ended = threw (mark_requires_sign_out e);
      }
      else if is_rate_limit_error e
      then record { after = s; calls = calls; ended = threw e }
      else request_session none s calls

  unfoldable pub after_local : Bool → Run → Ended → Run
  unfolding local_failed
  after_local retry run (returned r) = run
  after_local retry run (threw e) = local_failed retry e run.after run.calls

  unfoldable pub resume : Bool → ClientState → Option StoredSession → Run
  unfolding after_local local_session request_session local_failed
  resume retry s none =
      if retry then request_session none s [] else local_failed retry missing_stored_session s []
  resume retry s (some session) =
      let run = local_session session s in after_local retry run run.ended

  unfoldable pub resume_or_request : Bool → Option String → ClientState → Run
  unfolding resume request_session
  resume_or_request retry (some code) s = request_session (some code) s []
  resume_or_request retry none s = resume retry s s.stored

  -- `createSession`
  unfoldable pub create_client_session : Bool → Option String → Bool → ClientState → Run
  unfolding resume_or_request request_session clear_token
  create_client_session retry code force s =
      if force || s.force_fresh
      then request_session code (clear_token s) []
      else resume_or_request retry code s
