-- ===== src/ClientSession/Usable.antt =====
-- Sessions that are served without a request (apps/mobile/src/api/session/sessionManager.ts and
-- accessTokenStore.ts).
use purrivacy_app.Prelude.{
  ℕ, ◌+◌, ◌<◌, ◌≡◌, refl, sym, ap, ◌∙◌, String, Bool, true, not, ◌&&◌, ◌||◌, Option, none, some,
  List, [], ◌∷◌, ◌++◌, if_elim, arith, ltb→lt,
}
use purrivacy_app.Server.Text.{is_empty}
use purrivacy_app.Responses.Types.{SessionAnswer}
use purrivacy_app.ClientSession.Errors.{
  ApiError, is_rate_limit_error, is_terminal_error, is_mfa_required, missing_stored_session,
}
use purrivacy_app.ClientSession.Tokens.{
  AccessToken, StoredSession, access_token_refresh_buffer_ms, is_ahead, has_usable_token,
  session_of_token, session_until, response_from_stored,
}
use purrivacy_app.ClientSession.Manager.{
  ClientState, Call, refresh_request, Ended, returned, threw, Run, Surroundings, clear_token,
  refreshed, caught_refresh, local_or_refreshed, local_session, answered, request_session,
  local_failed, after_local, resume, resume_or_request, create_client_session,
}

not_empty_append : (calls : List Call) (call : Call) → ¬ (calls ++ call ∷ [] ≡ [])
not_empty_append [] call h = cc h
not_empty_append (c ∷ calls) call h = cc h

module _ (w : Surroundings) (s : ClientState) (r : SessionAnswer) where
  -- The session is that of the token in memory, which is good for longer than the buffer.
  abbrev IsCached : Type 0
  IsCached =
      (t : AccessToken) × (expires : ℕ) × (session : StoredSession) × (s.access_token ≡ some t)
      × (t.expires_at ≡ some expires)
      × (w.now + access_token_refresh_buffer_ms < expires)
      × (s.stored ≡ some session)
      × (r.access_token ≡ t.token)
      × (r.refresh_token ≡ session.refresh_token)

  abbrev Serves : Run → Type 0
  Serves run = run.calls ≡ [] → run.ended ≡ returned r → IsCached

  answered-Serves :
      (code : Option String) (after : ClientState) (calls : List Call) (answer : Ended)
      → Serves (answered w code after calls answer)
  unfolding answered
  answered-Serves code after calls (returned x) none_made h =
      absurd (not_empty_append calls _ none_made)
  answered-Serves code after calls (threw x) none_made h = absurd (cc h)

  local_failed-Serves :
      (retry : Bool) (f : ApiError) (after : ClientState) (calls : List Call)
      → Serves (local_failed w retry f after calls)
  unfolding local_failed request_session
  local_failed-Serves retry f after calls =
      if_elim Serves (is_mfa_required f) _ _
        (λ m.
          if_elim Serves (not retry || is_rate_limit_error f) _ _ (λ k n h. absurd (cc h))
            (λ k. answered-Serves none (clear_token after) calls w.session_answer))
        (λ m.
          if_elim Serves (is_terminal_error f) _ _ (λ k n h. absurd (cc h))
            (λ t.
              if_elim Serves (is_rate_limit_error f) _ _ (λ k n h. absurd (cc h))
                (λ k. answered-Serves none after calls w.session_answer)))

  refreshed-calls :
      (session : StoredSession) (answer : Ended)
      → (caught_refresh w (refreshed w session s answer) answer).calls
        ≡ refresh_request session.refresh_token ∷ []
  unfolding caught_refresh refreshed
  refreshed-calls session (returned x) = refl
  refreshed-calls session (threw f) =
      let same = λ (run : Run). run.calls ≡ refresh_request session.refresh_token ∷ [] in
      if_elim same (is_mfa_required f) _ _ (λ e. refl)
        (λ e.
          if_elim same (is_terminal_error f) _ _ (λ t. refl)
            (λ t. if_elim same (is_rate_limit_error f) _ _ (λ k. refl) (λ k. refl)))

  after_local-Serves :
      (retry : Bool) (run : Run) (ended : Ended)
      → Serves run
      → Serves (after_local w retry run ended)
  unfolding after_local
  after_local-Serves retry run (returned x) serves = serves
  after_local-Serves retry run (threw f) serves = local_failed-Serves retry f run.after run.calls

  until_sound :
      (t : AccessToken) (o : Option ℕ) (session : StoredSession)
      → s.access_token ≡ some t
      → s.stored ≡ some session
      → t.expires_at ≡ o
      → is_ahead w.now o ≡ true
      → session_until w.iso t o session ≡ some r
      → IsCached
  unfolding is_ahead session_until session_of_token
  until_sound t none session at stored same ahead h = absurd (cc h)
  until_sound t (some expires) session at stored same ahead h = (
    t,
    expires,
    session,
    at,
    same,
    ltb→lt (w.now + access_token_refresh_buffer_ms) expires ahead,
    stored,
    cc h,
    cc h,
  )

  from_token :
      (o : Option AccessToken) (session : StoredSession)
      → s.access_token ≡ o
      → s.stored ≡ some session
      → response_from_stored w.iso w.now o session ≡ some r
      → IsCached
  unfolding response_from_stored has_usable_token
  from_token none session at stored = λ h. absurd (cc h)
  from_token (some t) session at stored =
      if_elim (λ (x : Option SessionAnswer). x ≡ some r → IsCached)
        (not (is_empty t.token) && is_ahead w.now t.expires_at) _ _
        (λ u h. until_sound t t.expires_at session at stored refl (ground (arith, u)) h)
        (λ u h. absurd (cc h))

  found-Serves :
      (session : StoredSession) (found : Option SessionAnswer)
      → s.stored ≡ some session
      → response_from_stored w.iso w.now s.access_token session ≡ found
      → Serves (local_or_refreshed w session s found)
  unfolding local_or_refreshed
  found-Serves session none stored at none_made h =
      absurd (cc (sym (refreshed-calls session w.refresh_answer) ∙ none_made))
  found-Serves session (some x) stored at none_made h =
      let same : x ≡ r = cc h in from_token s.access_token session refl stored (at ∙ ap some same)

  resume-Serves :
      (retry : Bool) (stored : Option StoredSession)
      → s.stored ≡ stored
      → Serves (resume w retry s stored)
  unfolding resume request_session local_session
  resume-Serves retry none at =
      if_elim Serves retry _ _ (λ k. answered-Serves none s [] w.session_answer)
        (λ k. local_failed-Serves retry missing_stored_session s [])
  resume-Serves retry (some session) at =
      let found = response_from_stored w.iso w.now s.access_token session in
      let run = local_session w session s in
      after_local-Serves retry run run.ended (found-Serves session found at refl)

  resume_or_request-Serves :
      (retry : Bool) (code : Option String) → Serves (resume_or_request w retry code s)
  unfolding resume_or_request request_session
  resume_or_request-Serves retry (some code) = answered-Serves (some code) s [] w.session_answer
  resume_or_request-Serves retry none = resume-Serves retry s.stored refl

-- A session that is returned without any request is made of the access token in memory, which is good
-- for more than thirty seconds from now, and of the refresh token in device storage.
pub served_session_is_usable :
    (w : Surroundings) (retry : Bool) (code : Option String) (force : Bool) (s : ClientState)
    (r : SessionAnswer)
    → (create_client_session w retry code force s).calls ≡ []
    → (create_client_session w retry code force s).ended ≡ returned r
    → (t : AccessToken) × (expires : ℕ) × (session : StoredSession) × (s.access_token ≡ some t)
      × (t.expires_at ≡ some expires)
      × (w.now + 30_000 < expires)
      × (s.stored ≡ some session)
      × (r.access_token ≡ t.token)
      × (r.refresh_token ≡ session.refresh_token)
unfolding create_client_session request_session
served_session_is_usable w retry code force s r =
    if_elim (Serves w s r) (force || s.force_fresh) _ _
      (λ f. answered-Serves w s r code (clear_token s) [] w.session_answer)
      (λ f. resume_or_request-Serves w s r retry code)
