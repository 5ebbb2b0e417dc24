-- ===== src/ClientSession/Ended.antt =====
-- What is left of the session after an error (apps/mobile/src/api/session/sessionManager.ts).
use purrivacy_app.Prelude.{
  ◌≡◌, refl, sym, ap, ◌∙◌, String, Bool, true, false, not, ◌||◌, Option, none, some, List, [],
  if_elim,
}
use purrivacy_app.Responses.Types.{SessionAnswer}
use purrivacy_app.ClientSession.Errors.{
  ApiError, is_rate_limit_error, is_terminal_error, is_mfa_required, missing_stored_session,
}
use purrivacy_app.ClientSession.Tokens.{StoredSession, response_from_stored}
use purrivacy_app.ClientSession.Manager.{
  ClientState, Call, Ended, returned, threw, Run, Surroundings, clear_token, clear_backend_session,
  refreshed, caught_refresh, local_or_refreshed, local_session, answered, request_session,
  local_failed, after_local, resume, resume_or_request, create_client_session,
}

-- If the run ends with the error, and that is terminal and not about the second factor, no session is
-- stored.
abbrev Leaves : ApiError → Run → Type 0
Leaves e run =
    run.ended ≡ threw e
    → is_terminal_error e ≡ true
    → is_mfa_required e ≡ false
    → run.after.stored ≡ none

threw_injective : {e f : ApiError} → threw e ≡ threw f → e ≡ f
threw_injective h = cc h

module _ (w : Surroundings) (e : ApiError) where
  answered-Leaves :
      (code : Option String) (s : ClientState) (calls : List Call) (answer : Ended)
      → Leaves e (answered w code s calls answer)
  unfolding answered clear_backend_session
  answered-Leaves code s calls (returned r) h terminal mfa = absurd (cc h)
  answered-Leaves code s calls (threw f) h terminal mfa =
      let same : is_terminal_error f ≡ true = ap is_terminal_error (threw_injective h) ∙ terminal in
      rw same refl

  local_failed-Leaves :
      (retry : Bool) (f : ApiError) (s : ClientState) (calls : List Call)
      → (is_terminal_error f ≡ true → is_mfa_required f ≡ false → s.stored ≡ none)
      → Leaves e (local_failed w retry f s calls)
  unfolding local_failed request_session
  local_failed-Leaves retry f s calls gone =
      if_elim (Leaves e) (is_mfa_required f) _ _
        (λ m.
          if_elim (Leaves e) (not retry || is_rate_limit_error f) _ _
            (λ r h terminal mfa. absurd (cc (sym m ∙ ap is_mfa_required (threw_injective h) ∙ mfa)))
            (λ r. answered-Leaves none (clear_token s) calls w.session_answer))
        (λ m.
          if_elim (Leaves e) (is_terminal_error f) _ _ (λ t h terminal mfa. gone t m)
            (λ t.
              if_elim (Leaves e) (is_rate_limit_error f) _ _
                (λ r h terminal mfa.
                  absurd (cc (sym t ∙ ap is_terminal_error (threw_injective h) ∙ terminal)))
                (λ r. answered-Leaves none s calls w.session_answer)))

  -- A failed refresh with a terminal error has cleared what is stored.
  caught_refresh_clears :
      (session : StoredSession) (s : ClientState) (answer : Ended) (f : ApiError)
      → (caught_refresh w (refreshed w session s answer) answer).ended ≡ threw f
      → is_terminal_error f ≡ true
      → is_mfa_required f ≡ false
      → (caught_refresh w (refreshed w session s answer) answer).after.stored ≡ none
  unfolding caught_refresh refreshed clear_backend_session
  caught_refresh_clears session s (returned r) f = λ h terminal mfa. absurd (cc h)
  caught_refresh_clears session s (threw g) f =
      if_elim (Leaves f) (is_mfa_required g) _ _
        (λ m h terminal mfa. absurd (cc (sym m ∙ ap is_mfa_required (threw_injective h) ∙ mfa)))
        (λ m.
          if_elim (Leaves f) (is_terminal_error g) _ _ (λ t h terminal mfa. refl)
            (λ t.
              if_elim (Leaves f) (is_rate_limit_error g) _ _
                (λ r h terminal mfa.
                  absurd (cc (sym t ∙ ap is_terminal_error (threw_injective h) ∙ terminal)))
                (λ r h terminal mfa.
                  absurd (cc (sym t ∙ ap is_terminal_error (threw_injective h) ∙ terminal)))))

  local_session_clears :
      (session : StoredSession) (s : ClientState) (found : Option SessionAnswer) (f : ApiError)
      → Leaves f (local_or_refreshed w session s found)
  unfolding local_or_refreshed
  local_session_clears session s none f = caught_refresh_clears session s w.refresh_answer f
  local_session_clears session s (some r) f = λ h terminal mfa. absurd (cc h)

  after_local-Leaves :
      (retry : Bool) (run : Run) (ended : Ended)
      → run.ended ≡ ended
      → ((f : ApiError) → Leaves f run)
      → Leaves e (after_local w retry run ended)
  unfolding after_local
  after_local-Leaves retry run (returned r) at gone = gone e
  after_local-Leaves retry run (threw f) at gone =
      local_failed-Leaves retry f run.after run.calls (λ t m. gone f at t m)

  resume-Leaves :
      (retry : Bool) (s : ClientState) (stored : Option StoredSession)
      → s.stored ≡ stored
      → Leaves e (resume w retry s stored)
  unfolding resume request_session local_session
  resume-Leaves retry s none at =
      if_elim (Leaves e) retry _ _ (λ r. answered-Leaves none s [] w.session_answer)
        (λ r. local_failed-Leaves retry missing_stored_session s [] (λ t m. at))
  resume-Leaves retry s (some session) at =
      let run = local_session w session s in
      after_local-Leaves retry run run.ended refl
        (local_session_clears session s (response_from_stored w.iso w.now s.access_token session))

  resume_or_request-Leaves :
      (retry : Bool) (code : Option String) (s : ClientState)
      → Leaves e (resume_or_request w retry code s)
  unfolding resume_or_request request_session
  resume_or_request-Leaves retry (some code) s = answered-Leaves (some code) s [] w.session_answer
  resume_or_request-Leaves retry none s = resume-Leaves retry s s.stored refl

-- When the creation of a session ends with an error about the refresh token, which is not a request for
-- the second factor, device storage holds no session any more: the app cannot go on with a dead one.
pub terminal_error_clears_session :
    (w : Surroundings) (retry : Bool) (code : Option String) (force : Bool) (s : ClientState)
    (e : ApiError)
    → (create_client_session w retry code force s).ended ≡ threw e
    → is_terminal_error e ≡ true
    → is_mfa_required e ≡ false
    → (create_client_session w retry code force s).after.stored ≡ none
unfolding create_client_session request_session
terminal_error_clears_session w retry code force s e =
    if_elim (Leaves e) (force || s.force_fresh) _ _
      (λ f. answered-Leaves w e code (clear_token s) [] w.session_answer)
      (λ f. resume_or_request-Leaves w e retry code s)
