-- ===== src/ClientSession/Remote.antt =====
-- What the app does when its session changes elsewhere, and when it signs out
-- (apps/mobile/src/api/session/sessionManager.ts and
-- apps/mobile/src/features/security/services/storedSessionService.ts). Device storage keeps what is
-- written to it.
use purrivacy_app.Prelude.{
  ℕ, String, Bool, true, false, not, ◌&&◌, ◌||◌, Option, none, some, List, [], ◌∷◌, ◌++◌, ltb,
  if◌then◌else◌,
}
use purrivacy_app.Server.Text.{is_empty}
use purrivacy_app.ClientSession.Tokens.{AccessToken, StoredSession, has_usable_token}
use purrivacy_app.ClientSession.Manager.{
  ClientState, Call, sign_out_request, Ended, returned, threw, Surroundings, clear_token, refreshed,
}

-- The two tests of `getStoredSession`: a session that fails one is deleted.
unfoldable pub get_stored_session : ℕ → Option StoredSession → Option StoredSession
get_stored_session now none = none
get_stored_session now (some session) =
    if is_empty session.refresh_token || ltb session.refresh_token_expires_at now
    then none
    else some session

-- `updateStoredSessionMfaTrust`
unfoldable pub update_stored_mfa_trust : Bool → Option StoredSession → Option StoredSession
update_stored_mfa_trust trusted none = none
update_stored_mfa_trust trusted (some session) = some record session { mfa_trusted = trusted }

-- `updateStoredSessionMfaState`
unfoldable pub update_stored_mfa_state : Bool → Bool → Option StoredSession → Option StoredSession
update_stored_mfa_state enabled trusted none = none
update_stored_mfa_state enabled trusted (some session) =
    some record session { mfa_enabled = enabled; mfa_trusted = enabled && trusted }

unfoldable pub same_bool : Bool → Bool → Bool
same_bool true b = b
same_bool false b = not b

-- The test of `syncRemoteMfaState`: the stored session has the remote state.
unfoldable pub is_in_step : Bool → Bool → Option StoredSession → Bool
unfolding same_bool
is_in_step enabled trusted none = false
is_in_step enabled trusted (some session) =
    same_bool session.mfa_enabled enabled && same_bool session.mfa_trusted (enabled && trusted)

-- `syncRemoteMfaState`
unfoldable pub sync_remote_mfa_state : Bool → Bool → ClientState → ClientState
unfolding is_in_step update_stored_mfa_state
sync_remote_mfa_state enabled trusted s =
    if is_in_step enabled trusted s.stored then s else record {
      access_token = none;
      stored = update_stored_mfa_state enabled trusted s.stored;
      force_fresh = true;
    }

unfoldable pub token_text : Option AccessToken → String
token_text none = ""
token_text (some t) = t.token

unfoldable pub answer_token : Ended → String
answer_token (returned r) = r.access_token
answer_token (threw e) = ""

module _ (w : Surroundings) where
  -- The state, the token and the requests of `signOut` before its own request
  unfoldable pub refreshed_for_sign_out :
      Option StoredSession → ClientState → ClientState × (String × List Call)
  unfolding refreshed answer_token
  refreshed_for_sign_out none s = (s, ("", []))
  refreshed_for_sign_out (some session) s =
      let run = refreshed w session s w.refresh_answer in
      if not session.mfa_enabled || session.mfa_trusted
      then (run.after, (answer_token run.ended, run.calls))
      else (s, ("", []))

  unfoldable pub token_for_sign_out : ClientState → ClientState × (String × List Call)
  unfolding has_usable_token token_text refreshed_for_sign_out
  token_for_sign_out s =
      if has_usable_token w.now s.access_token
      then (s, (token_text s.access_token, []))
      else refreshed_for_sign_out s.stored s

  -- `signOut`
  unfoldable pub client_sign_out : ClientState → ClientState × List Call
  unfolding token_for_sign_out clear_token
  client_sign_out s =
      let (after, found) = token_for_sign_out s in
      (
        clear_token after,
        if is_empty found.0 then found.1 else found.1 ++ sign_out_request found.0 ∷ [],
      )
