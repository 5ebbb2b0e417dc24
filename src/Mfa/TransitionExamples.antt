-- ===== src/Mfa/TransitionExamples.antt =====
-- The MFA transitions at a small service whose state logs what was called
-- (apps/server/src/features/mfa/application/MfaSessionService.ts).
use Prim.Native.String.{String}
use purrivacy_app.Prelude.{
  arith, ◌≡◌, refl, Bool, false, Option, none, some, List, [], ◌∷◌, same_text,
}
use purrivacy_app.Prelude.Dict.{Dict, lookup, insert}
use purrivacy_app.Server.Errors.{Result, ok}
use purrivacy_app.Transition.Runner.{TransitionStore, stored_names, includes}
use purrivacy_app.Mfa.SessionService.{enable, apply_step, Service, run_transition}
use purrivacy_app.Server.DictStore.{dict_store, empty}
use purrivacy_app.Mfa.TransitionStore.{
  EncryptedResult, TransitionDoc, TransitionDb, read_transition, complete_step,
}
use purrivacy_app.Mfa.StoredProgress.{step_over_expired_is_lost}
use purrivacy_app.Mfa.Enable.{SetupDoc, SetupDb, verify_and_enable_mfa}
use purrivacy_app.Mfa.Enabling.{IsProved, IsEnabled, enabling_needs_proof}
use purrivacy_app.Mfa.Compensation.{retry_finishes, retry_returns_recorded_session}

-- The calls, newest first, and the recorded steps
abbrev Toy : Type 0
Toy = List String × Dict (Option String)

abbrev toy_store : TransitionStore Toy String
toy_store = record {
  read =
      λ s. elim s.1 [ [] ↦ ok none | step ∷ steps ↦ ok (some (record { steps = step ∷ steps })) ];
  complete = λ name r s. ((s.0, (name, r) ∷ s.1), ok tt);
  clear = λ s. ((s.0, []), ok tt);
}

abbrev toy : Result (Unit {0}) → Result (Unit {0}) → Service Toy String
toy applied revoked = record {
  label = enable;
  store = toy_store;
  create_session = λ s. (("create" ∷ s.0, s.1), ok "family");
  apply_mfa_state = λ is_resume s. (("apply" ∷ s.0, s.1), applied);
  revoke_old_sessions = λ family s. (("revoke others" ∷ s.0, s.1), revoked);
  revoke_family = λ family s. (("revoke" ∷ s.0, s.1), ok tt);
  family_of = λ r. some r;
}

abbrev created : Dict (Option String)
created = ("createSession", some "family") ∷ []

abbrev applied_too : Dict (Option String)
applied_too = ("applyMfaenable", none) ∷ created

retry_finishes_example :
    run_transition (toy (ok tt) (ok tt)) ([], applied_too)
    ≡ (("revoke others" ∷ [], []), ok "family")
unfolding includes stored_names apply_step lookup same_text
retry_finishes_example =
    retry_finishes (toy (ok tt) (ok tt)) ([], applied_too) ("revoke others" ∷ [], applied_too)
      ("revoke others" ∷ [], ("revokeOldSessions", none) ∷ applied_too)
      (record { steps = applied_too }) "family" "family" refl refl refl refl refl refl refl refl

retry_returns_recorded_session_example :
    run_transition (toy (ok tt) (ok tt)) ([], created)
    ≡ (("revoke others" ∷ "apply" ∷ [], []), ok "family")
unfolding stored_names apply_step lookup same_text
retry_returns_recorded_session_example =
    retry_returns_recorded_session (toy (ok tt) (ok tt)) ([], created) ("apply" ∷ [], created)
      ("apply" ∷ [], applied_too) ("revoke others" ∷ "apply" ∷ [], applied_too)
      ("revoke others" ∷ "apply" ∷ [], ("revokeOldSessions", none) ∷ applied_too)
      (record { steps = created }) "family" "family" refl refl refl refl refl refl refl refl

abbrev setup : SetupDoc
setup = record {
  encrypted_secret = "secret";
  iv = "iv";
  tag = "tag";
  hashed_recovery_codes = "#A" ∷ [];
  expires_at = 10;
}

-- A user without MFA who has set it up
abbrev set_up : SetupDb dict_store
set_up = record {
  setups = dict_store.put "user" setup empty;
  mfa = record { users = dict_store.put "user" false empty; security = empty; nonces = empty };
}

abbrev toy_decrypt : String → String → String → Result String
toy_decrypt secret iv tag = ok secret

abbrev toy_verify : String → String → Bool
toy_verify secret code = same_text code "123456"

enabling_needs_proof_example :
    (found : SetupDoc) × IsProved dict_store
      (λ s. s)
      toy_decrypt
      toy_verify
      "user"
      "123456"
      5
      set_up
      found
    × IsEnabled dict_store "user" found
        (verify_and_enable_mfa dict_store
          (λ s. s)
          toy_decrypt
          toy_verify
          "user"
          "123456"
          5
          set_up).0
unfolding verify_and_enable_mfa insert lookup same_text
enabling_needs_proof_example =
    enabling_needs_proof dict_store (λ s. s) toy_decrypt toy_verify "user" "123456" 5 set_up refl

abbrev toy_encrypt : String → EncryptedResult
toy_encrypt r = record { encrypted_data = r; iv = "iv"; tag = "tag" }

abbrev toy_open : EncryptedResult → Option String
toy_open encrypted = some encrypted.encrypted_data

abbrev no_progress : TransitionDb dict_store
no_progress = record { docs = empty; clock = 7 }

abbrev old_doc : TransitionDoc
old_doc = record {
  transition_key = "key";
  user_id = "user";
  created_at = 0;
  expires_at = 5;
  steps = [];
}

abbrev old_progress : TransitionDb dict_store
old_progress = record { docs = dict_store.put "hash" old_doc empty; clock = 7 }

step_over_expired_is_lost_example :
    read_transition dict_store toy_encrypt toy_open "hash" "key" "user"
      (record (complete_step dict_store toy_encrypt toy_open "hash" "key" "user" "createSession"
        (some "family")
        old_progress) { clock = 8 })
    ≡ none
unfolding insert lookup same_text
step_over_expired_is_lost_example =
    step_over_expired_is_lost dict_store toy_encrypt toy_open "hash" "key" "user" "createSession"
      (some "family") old_progress old_doc 8 refl (omega arith) (omega arith)
