-- ===== src/Responses/Session.antt =====
-- A new session's answer, from the server to the app
-- (apps/mobile/src/api/request/responseSchema.ts and processResponse.ts,
-- apps/server/src/features/session/api/sessionRoutes.ts).
use Prim.Native.String.{String, ◌++◌}
use purrivacy_app.Prelude.{
  ℕ, ◌≡◌, refl, sym, ap, ◌∙◌, inl, inr, Bool, false, Option, none, some, List, [], ◌∷◌,
  ◌++◌ as append, same_text, arith,
}
use purrivacy_app.Prelude.Dict.{lookup}
use purrivacy_app.Server.Json.{elements}
use purrivacy_app.Server.Text.{is_empty}
use purrivacy_app.Server.Append.{append_empty, append_cons, append_one}
use purrivacy_app.Server.Documents.{DocumentStore}
use purrivacy_app.Server.Errors.{ok, ok_injective, Result-cases}
use purrivacy_app.Session.Types.{SessionResponse, Db}
use purrivacy_app.Session.Tokens.{generate_refresh_token, normalize_device_id}
use purrivacy_app.Session.Records.{build_session_response}
use purrivacy_app.Session.Create.{CreateOptions, Fresh, create_for_device, create_backend_session}
use purrivacy_app.Responses.Fields.{
  accepted, as_record, require_string, check_string, require_boolean, check_boolean,
  require_string_array, check_strings, checked_strings, strings_of, add_string, unless_missing,
}
use purrivacy_app.Responses.Types.{SessionAnswer}
use purrivacy_app.Responses.Parsers.{parse_session_response, parse_mfa_trust}
use purrivacy_app.Responses.Registry.{
  a_session, a_flag, session_response, contract_of, exact_contract, run_parser, finish,
  validate_with, validate_response,
}
use purrivacy_app.Responses.Process.{
  returned, close_mfa_modal, codes_event, modal_event, not_empty_codes, recovery_codes_of,
  add_events, process_ok,
}
use purrivacy_app.Responses.Sent.{texts, with_codes, session_body, trust_body}

-- No text of the list is empty.
abbrev pub AllFilled : List String → Type 0
AllFilled [] = Unit
AllFilled (s ∷ ss) = (is_empty s ≡ false) × AllFilled ss

abbrev pub AllFilledOrNone : Option (List String) → Type 0
AllFilledOrNone none = Unit
AllFilledOrNone (some codes) = AllFilled codes

pub strings_of-texts :
    (ss : List String) → AllFilled ss → strings_of (elements (texts ss)) ≡ some ss
unfolding strings_of texts add_string
strings_of-texts [] h = refl
strings_of-texts (s ∷ ss) (filled, rest) = rw (strings_of-texts ss rest, filled) refl

-- What the app keeps of a session's answer
unfoldable pub kept : (ℕ → String) → SessionResponse → Option (List String) → SessionAnswer
kept iso r codes = record {
  access_token = r.access_token;
  refresh_token = r.refresh_token;
  access_token_expires_at = iso r.access_token_expires_at;
  refresh_token_expires_at = iso r.refresh_token_expires_at;
  mfa_trusted = r.mfa_trusted;
  mfa_enabled = r.mfa_enabled;
  new_recovery_codes = codes;
}

is_empty-append : (s t : String) → is_empty t ≡ false → is_empty (s ++ t) ≡ false
unfolding is_empty
is_empty-append String.[] t h = rw (append_empty t) h
is_empty-append (String.◌∷◌ c s) t h = rw (append_cons c s t) refl

module _ (iso : ℕ → String) (iso_filled : (time : ℕ) → is_empty (iso time) ≡ false) where
  parse-session_body :
      (r : SessionResponse) (codes : Option (List String))
      → is_empty r.access_token ≡ false
      → is_empty r.refresh_token ≡ false
      → AllFilledOrNone codes
      → parse_session_response (session_body iso r codes) ≡ accepted (kept iso r codes)
  unfolding parse_session_response session_body as_record require_string check_string lookup
      same_text require_boolean check_boolean require_string_array check_strings unless_missing
      with_codes kept checked_strings
  parse-session_body r none access refresh h =
      rw
        (
          access,
          refresh,
          iso_filled r.access_token_expires_at,
          iso_filled r.refresh_token_expires_at,
        )
        refl
  parse-session_body r (some codes) access refresh h =
      rw
        (
          access,
          refresh,
          iso_filled r.access_token_expires_at,
          iso_filled r.refresh_token_expires_at,
          strings_of-texts codes h,
        )
        refl

  process-session_body :
      (endpoint : String) (r : SessionResponse) (codes : Option (List String))
      → contract_of endpoint "POST" ≡ some session_response
      → is_empty r.access_token ≡ false
      → is_empty r.refresh_token ≡ false
      → AllFilledOrNone codes
      → process_ok endpoint "POST" (session_body iso r codes)
        ≡ returned
            (a_session (kept iso r codes))
            (append (modal_event endpoint) (codes_event (not_empty_codes codes)))
  unfolding process_ok validate_response validate_with run_parser finish add_events
      recovery_codes_of kept
  process-session_body endpoint r codes found access refresh h =
      rw (found, parse-session_body r codes access refresh h) refl

  module _ (D : DocumentStore) (sha256 : String → String) where
    device_session_filled :
        (user_id : String) (options : CreateOptions) (fresh : Fresh) (db : Db D)
        (device : Option String) (r : SessionResponse)
        → is_empty fresh.access_token ≡ false
        → (create_for_device D sha256 user_id options fresh db device).1 ≡ ok r
        → (is_empty r.access_token ≡ false) × (is_empty r.refresh_token ≡ false)
    unfolding create_for_device build_session_response generate_refresh_token is_empty
    device_session_filled user_id options fresh db device r filled h =
        let same = ok_injective h in
        (
          ap (λ (x : SessionResponse). is_empty x.access_token) (sym same) ∙ filled,
          ap (λ (x : SessionResponse). is_empty x.refresh_token) (sym same)
              ∙ is_empty-append fresh.token_id _ (rw (append_one "." fresh.token_secret) refl),
        )

    created_session_filled :
        (user_id : String) (options : CreateOptions) (fresh : Fresh) (db : Db D)
        (r : SessionResponse)
        → is_empty fresh.access_token ≡ false
        → (create_backend_session D sha256 user_id options fresh db).1 ≡ ok r
        → (is_empty r.access_token ≡ false) × (is_empty r.refresh_token ≡ false)
    unfolding create_backend_session
    created_session_filled user_id options fresh db r filled h =
        elim (Result-cases (normalize_device_id options.device_id)) [
          | inl (device, e) ↦
              device_session_filled user_id options fresh db device r filled (sym (rw e refl) ∙ h)
          | inr (thrown, e) ↦ absurd (ground (arith, e, h))
        ]

    -- The answer to a session's creation passes the app's validation, if the access token and the
    -- recovery codes sent with it are not empty and dates are printed as texts that are not empty: the
    -- app gets the tokens, the dates, the flags and the codes as they were sent, and shows the codes if
    -- there are any.
    pub created_session_arrives :
        (user_id : String) (options : CreateOptions) (fresh : Fresh) (db : Db D)
        (r : SessionResponse) (codes : Option (List String))
        → is_empty fresh.access_token ≡ false
        → AllFilledOrNone codes
        → (create_backend_session D sha256 user_id options fresh db).1 ≡ ok r
        → process_ok "/auth/session" "POST" (session_body iso r codes)
          ≡ returned (a_session (kept iso r codes)) (codes_event (not_empty_codes codes))
    unfolding contract_of exact_contract modal_event same_text
    created_session_arrives user_id options fresh db r codes filled all h =
        let (access, refresh) = created_session_filled user_id options fresh db r filled h in
        process-session_body "/auth/session" r codes refl access refresh all

-- Fresh recovery codes that the server sends with its answer to `/mfa/session/trust` do not reach the
-- app: the validated data holds the flag only, and the modal is closed without showing them.
pub trust_answer_drops_codes :
    (trusted : Bool) (codes : List String)
    → process_ok "/mfa/session/trust" "POST" (trust_body trusted (some codes))
      ≡ returned (a_flag trusted) (close_mfa_modal ∷ [])
unfolding process_ok validate_response validate_with contract_of exact_contract same_text run_parser
    parse_mfa_trust as_record require_boolean check_boolean trust_body with_codes lookup finish
    add_events recovery_codes_of codes_event modal_event
trust_answer_drops_codes trusted codes = refl
