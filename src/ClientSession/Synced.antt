-- ===== src/ClientSession/Synced.antt =====
-- A change of the second factor on another device (apps/mobile/src/api/session/sessionManager.ts).
use purrivacy_app.Prelude.{
  ◌≡◌, refl, String, Bool, true, false, ◌||◌, Option, [], ◌∷◌, if_elim, arith,
}
use purrivacy_app.ClientSession.Manager.{
  ClientState, session_request, Ended, returned, threw, Run, Surroundings, clear_token, answered,
  request_session, create_client_session,
}
use purrivacy_app.ClientSession.Remote.{is_in_step, sync_remote_mfa_state}

answered-made :
    (w : Surroundings) (code : Option String) (s : ClientState) (answer : Ended)
    → ((answered w code s [] answer).calls ≡ session_request code ∷ [])
      × ((answered w code s [] answer).ended ≡ answer)
unfolding answered
answered-made w code s (returned r) = (refl, refl)
answered-made w code s (threw e) = (refl, refl)

forced-made :
    (w : Surroundings) (retry : Bool) (code : Option String) (force : Bool) (s : ClientState)
    → s.force_fresh ≡ true
    → ((create_client_session w retry code force s).calls ≡ session_request code ∷ [])
      × ((create_client_session w retry code force s).ended ≡ w.session_answer)
unfolding create_client_session request_session
forced-made w retry code force s forced =
    if_elim
      (λ (run : Run). (run.calls ≡ session_request code ∷ []) × (run.ended ≡ w.session_answer))
      (force || s.force_fresh) _ _ (λ f. answered-made w code (clear_token s) w.session_answer)
      (λ f. absurd (ground (arith, forced, f)))

-- When the remote state of the second factor differs from that of the stored session, or none is
-- stored, the next creation of a session asks the server, with the code given, and ends with its answer:
-- neither the token in memory nor a refresh of the old session is used.
pub remote_change_forces_request :
    (w : Surroundings) (enabled trusted retry : Bool) (code : Option String) (force : Bool)
    (s : ClientState)
    → is_in_step enabled trusted s.stored ≡ false
    → ((create_client_session w retry code force (sync_remote_mfa_state enabled trusted s)).calls
        ≡ session_request code ∷ [])
      × ((create_client_session w retry code force (sync_remote_mfa_state enabled trusted s)).ended
          ≡ w.session_answer)
unfolding sync_remote_mfa_state
remote_change_forces_request w enabled trusted retry code force s differs =
    forced-made w retry code force (sync_remote_mfa_state enabled trusted s) (rw differs refl)
