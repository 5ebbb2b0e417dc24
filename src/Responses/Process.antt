-- ===== src/Responses/Process.antt =====
-- The end of an ok response (apps/mobile/src/api/request/processResponse.ts) and the endpoint of a page
-- of key records (apps/mobile/src/api/user/userApi.ts). The request id that is attached to the data,
-- responses without a body and responses that are no success are left out.
use Prim.Native.String.{◌++◌}
use purrivacy_app.Prelude.{
  ℕ, String, Option, none, some, List, [], ◌∷◌, ◌++◌ as append, if◌then◌else◌, same_text,
}
use purrivacy_app.Prelude.Dict.{lookup}
use purrivacy_app.Server.Json.{Json, arr, obj, entries, elements}
use purrivacy_app.Server.Text.{is_empty}
use purrivacy_app.UserKeys.Cursor.{print_number}
use purrivacy_app.Responses.Fields.{strings_of}
use purrivacy_app.Responses.Registry.{
  Answer, a_session, unchanged, Validated, valid, invalid, SchemaError, validate_response,
}

-- The events of `EventService` that are added
pub data UiEvent : Type 0 where
  close_mfa_modal : UiEvent
  show_recovery_codes : List String → UiEvent

-- `recoveryCodes.length > 0`
unfoldable pub not_empty_codes : Option (List String) → Option (List String)
not_empty_codes none = none
not_empty_codes (some []) = none
not_empty_codes (some (code ∷ codes)) = some (code ∷ codes)

-- `Array.isArray(recoveryCodes)` and its two further conditions
unfoldable pub trusted_codes : Option Json → Option (List String)
unfolding strings_of not_empty_codes
trusted_codes (some (arr vs)) = not_empty_codes (strings_of (elements vs))
trusted_codes _ = none

-- The codes of the validated data: only a session's parser picks them, and data of an endpoint without
-- a parser is unchanged.
unfoldable pub recovery_codes_of : Answer → Option (List String)
unfolding not_empty_codes trusted_codes
recovery_codes_of (a_session r) = not_empty_codes r.new_recovery_codes
recovery_codes_of (unchanged (obj ps)) = trusted_codes (lookup "newRecoveryCodes" (entries ps))
recovery_codes_of _ = none

unfoldable pub codes_event : Option (List String) → List UiEvent
codes_event none = []
codes_event (some codes) = show_recovery_codes codes ∷ []

unfoldable pub modal_event : String → List UiEvent
modal_event endpoint = if same_text endpoint "/auth/session" then [] else close_mfa_modal ∷ []

pub data Processed : Type 0 where
  returned : Answer → List UiEvent → Processed
  thrown : SchemaError → Processed

unfoldable pub add_events : String → Validated → Processed
unfolding recovery_codes_of codes_event modal_event
add_events endpoint (invalid e) = thrown e
add_events endpoint (valid answer) =
    returned answer (append (modal_event endpoint) (codes_event (recovery_codes_of answer)))

-- The part of `processResponse` that follows the test of `response.ok`
unfoldable pub process_ok : String → String → Json → Processed
unfolding validate_response add_events
process_ok endpoint method data_ = add_events endpoint (validate_response endpoint method data_)

unfoldable pub cursor_parameter : (String → String) → Option String → String
cursor_parameter encode none = ""
cursor_parameter encode (some cursor) = if is_empty cursor then "" else "&cursor=" ++ encode cursor

unfoldable pub since_parameter : Option ℕ → String
unfolding print_number
since_parameter none = ""
since_parameter (some since) = "&since=" ++ print_number since

-- The endpoint of `getKeyRecords` with a limit; the cursor is encoded by `URLSearchParams`.
unfoldable pub key_records_endpoint : (String → String) → ℕ → Option String → Option ℕ → String
unfolding print_number cursor_parameter since_parameter
key_records_endpoint encode limit cursor since =
    "/user/key-records?limit="
    ++ (print_number limit ++ (cursor_parameter encode cursor ++ since_parameter since))
