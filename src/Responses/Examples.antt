-- ===== src/Responses/Examples.antt =====
-- The properties of validated answers at concrete answers (apps/mobile/src/api/request).
use Prim.Native.String.{◌++◌}
use purrivacy_app.Prelude.{ℕ, String, ◌≡◌, refl, true, false, none, some, [], ◌∷◌, same_text}
use purrivacy_app.Prelude.Dict.{lookup}
use purrivacy_app.Server.DictStore.{dict_store}
use purrivacy_app.Server.Errors.{ok}
use purrivacy_app.Server.Json.{null, bool, str, obj, Properties, property, end}
use purrivacy_app.Server.Text.{is_empty}
use purrivacy_app.Session.Types.{SessionResponse}
use purrivacy_app.Session.Tokens.{generate_refresh_token, normalize_device_id}
use purrivacy_app.Session.Records.{build_session_response, create_access_token_for_family}
use purrivacy_app.Session.Create.{
  CreateOptions, Fresh, new_family, commit_family, sweep_devices, create_for_device,
  create_backend_session,
}
use purrivacy_app.Session.Samples.{toy_hash, id_2, db}
use purrivacy_app.UserKeys.Pages.{
  KeyPage, read_key_page, paginate, filter_since, is_since, sort, place, to_entries, to_key_records,
  page_from, cursor_behind, last, start_index, size_or_default,
}
use purrivacy_app.UserKeys.Lists.{read_from_db}
use purrivacy_app.UserKeys.RecordSet.{number_or_zero}
use purrivacy_app.UserKeys.Samples.{payload, first_id, stored_record, stored_record_read}
use purrivacy_app.Responses.Fields.{accepted}
use purrivacy_app.Responses.Parsers.{parse_user_key_records}
use purrivacy_app.Responses.Registry.{
  mfa_trust, a_session, a_flag, unchanged, valid, exact_contract, contract_of, first_of,
  validate_response,
}
use purrivacy_app.Responses.Process.{
  returned, close_mfa_modal, codes_event, not_empty_codes, process_ok, key_records_endpoint,
}
use purrivacy_app.Responses.Sent.{session_body, trust_body, page_body}
use purrivacy_app.Responses.Known.{unknown_fields_change_nothing, known_fields}
use purrivacy_app.Responses.Session.{kept, created_session_arrives, trust_answer_drops_codes}
use purrivacy_app.Responses.Queries.{page_requests_are_not_validated}
use purrivacy_app.Responses.Records.{received_all}
use purrivacy_app.Responses.Pages.{page_passes_validation}

abbrev trusted_fields : Properties
trusted_fields = property "mfaTrusted" (bool true) end

abbrev more_fields : Properties
more_fields = property "since" (str "today") (property "mfaTrusted" (bool true) end)

unknown_fields_change_nothing_example :
    validate_response "/mfa/session/trust" "POST" (obj more_fields)
    ≡ validate_response "/mfa/session/trust" "POST" (obj trusted_fields)
unfolding contract_of exact_contract first_of same_text known_fields lookup
unknown_fields_change_nothing_example =
    unknown_fields_change_nothing "/mfa/session/trust" "POST" mfa_trust more_fields trusted_fields
      refl (refl, tt)

abbrev iso : ℕ → String
iso time = "2026"

abbrev options : CreateOptions
options = record {
  user_has_mfa = false;
  mfa_trusted = false;
  label = none;
  platform = none;
  device_id = some "phone";
  sweep_stale_families = true;
}

abbrev fresh : Fresh
fresh = record {
  family_id = "new";
  token_id = id_2;
  token_secret = "s2";
  access_token = "access2";
  now = 10;
  later = 11;
}

abbrev created : SessionResponse
created = record {
  access_token = "access2";
  refresh_token = id_2 ++ ".s2";
  access_token_expires_at = 900_011;
  refresh_token_expires_at = 7_776_000_010;
  mfa_trusted = false;
  mfa_enabled = false;
  session_family_id = "new";
}

created_session_arrives_example :
    process_ok "/auth/session" "POST" (session_body iso created (some ("code" ∷ [])))
    ≡ returned
        (a_session (kept iso created (some ("code" ∷ []))))
        (codes_event (not_empty_codes (some ("code" ∷ []))))
unfolding create_backend_session create_for_device commit_family new_family build_session_response
    generate_refresh_token create_access_token_for_family normalize_device_id sweep_devices is_empty
created_session_arrives_example =
    created_session_arrives iso (λ time. refl) dict_store toy_hash "user" options fresh db created
      (some ("code" ∷ [])) refl (refl, tt) refl

trust_answer_drops_codes_example :
    process_ok "/mfa/session/trust" "POST" (trust_body true (some ("code" ∷ [])))
    ≡ returned (a_flag true) (close_mfa_modal ∷ [])
trust_answer_drops_codes_example = trust_answer_drops_codes true ("code" ∷ [])

page_requests_are_not_validated_example :
    validate_response (key_records_endpoint (λ s. s) 500 (some "5:a") none) "GET" null
    ≡ valid (unchanged null)
page_requests_are_not_validated_example =
    page_requests_are_not_validated (λ s. s) 500 (some "5:a") none null

abbrev page : KeyPage
page = ((first_id, payload) ∷ [], none)

page_read : (read_key_page 9 none none none (some stored_record)).0 ≡ ok page
unfolding read_key_page read_from_db to_entries paginate size_or_default to_key_records filter_since
    is_since sort place page_from cursor_behind last start_index number_or_zero
page_read = rw stored_record_read refl

page_passes_validation_example :
    parse_user_key_records (page_body page)
    ≡ accepted (record { keys = received_all page.0; next_cursor = page.1 })
page_passes_validation_example =
    page_passes_validation 9 none none none stored_record page page_read
