-- ===== src/Responses/Registry.antt =====
-- The registry of endpoints and `validateResponse` (apps/mobile/src/api/request/responseSchema.ts).
use Prim.Native.Char.{code}
use Prim.Native.String.{String, ◌++◌}
use purrivacy_app.Prelude.{
  ℕ, Bool, true, false, ◌&&◌, Option, none, some, List, ltb, ◌==◌, if◌then◌else◌, same_text,
}
use purrivacy_app.Server.Json.{Json}
use purrivacy_app.Server.Text.{text_length}
use purrivacy_app.Responses.Fields.{Checked, accepted, rejected, Detail, ◌>>=◌}
use purrivacy_app.Responses.Types.{
  EncryptedKeyRecord, UserKeyRecords, UserEncrypted, RecoveryToken, MfaSetupNonce, MfaSetup,
  SessionAnswer,
}
use purrivacy_app.Responses.Parsers.{
  parse_recovery_challenge, parse_recovery_token, parse_mfa_setup_nonce, parse_mfa_setup,
  parse_session_response, parse_mfa_trust, parse_recovery_code_regenerate,
  parse_recovery_code_remaining, parse_create_user, parse_user_encrypted, parse_user_key_records,
  parse_encrypted_key_record,
}

-- The parsers, each by its name
pub data Contract : Type 0 where
  recovery_challenge recovery_token mfa_setup mfa_setup_nonce session_response : Contract
  mfa_trust recovery_code_regenerate recovery_code_remaining create_user : Contract
  user_encrypted user_key_records encrypted_key_record : Contract

-- What `validateResponse` returns: a picked object of a parser, or the data unchanged
pub data Answer : Type 0 where
  a_salt : String → Answer
  a_recovery_token : RecoveryToken → Answer
  a_setup : MfaSetup → Answer
  a_setup_nonce : MfaSetupNonce → Answer
  a_session : SessionAnswer → Answer
  a_flag : Bool → Answer
  some_codes : List String → Answer
  a_count : ℕ → Answer
  a_user : UserEncrypted → Answer
  a_page : UserKeyRecords → Answer
  a_key_record : EncryptedKeyRecord → Answer
  unchanged : Json → Answer

-- `EXACT_PARSERS`
unfoldable pub exact_contract : String → Option Contract
exact_contract key =
    if same_text key "POST /auth/recovery/challenge"
    then some recovery_challenge
    else if same_text key "POST /auth/recovery/token"
    then some recovery_token
    else if same_text key "POST /mfa/setup"
    then some mfa_setup
    else if same_text key "POST /auth/session/mfa-setup-nonce"
    then some mfa_setup_nonce
    else if same_text key "POST /mfa/enable"
    then some session_response
    else if same_text key "POST /mfa/disable"
    then some session_response
    else if same_text key "POST /mfa/session/trust"
    then some mfa_trust
    else if same_text key "POST /mfa/recovery-codes/regenerate"
    then some recovery_code_regenerate
    else if same_text key "GET /mfa/recovery-codes/remaining"
    then some recovery_code_remaining
    else if same_text key "POST /auth/session"
    then some session_response
    else if same_text key "POST /auth/session/refresh"
    then some session_response
    else if same_text key "POST /user"
    then some create_user
    else if same_text key "GET /user"
    then some user_encrypted
    else if same_text key "GET /user/key-records"
    then some user_key_records
    else if same_text key "POST /user/key-records"
    then some encrypted_key_record
    else none

-- `startsWith`
unfoldable pub starts_with : String → String → Bool
starts_with text String.[] = true
starts_with String.[] (String.◌∷◌ d prefix) = false
starts_with (String.◌∷◌ c text) (String.◌∷◌ d prefix) = code c == code d && starts_with text prefix

-- `DYNAMIC_PARSERS` and the loop over it
unfoldable pub dynamic_contract : String → String → Option Contract
unfolding starts_with
dynamic_contract endpoint method =
    if same_text method "PUT"
      && starts_with endpoint "/user/key-records/"
      && ltb (text_length "/user/key-records/") (text_length endpoint)
    then some encrypted_key_record
    else none

unfoldable pub first_of : Option Contract → Option Contract → Option Contract
first_of (some c) other = some c
first_of none other = other

-- The parser that an endpoint has
unfoldable pub contract_of : String → String → Option Contract
unfolding exact_contract dynamic_contract first_of
contract_of endpoint method =
    first_of (exact_contract (method ++ " " ++ endpoint)) (dynamic_contract endpoint method)

-- The call of a parser
unfoldable pub run_parser : Contract → Json → Checked Answer
unfolding parse_recovery_challenge parse_recovery_token parse_mfa_setup_nonce parse_mfa_setup
    parse_session_response parse_mfa_trust parse_recovery_code_regenerate
    parse_recovery_code_remaining parse_create_user parse_user_encrypted parse_user_key_records
    parse_encrypted_key_record
run_parser recovery_challenge v = parse_recovery_challenge v >>= λ r. accepted (a_salt r)
run_parser recovery_token v = parse_recovery_token v >>= λ r. accepted (a_recovery_token r)
run_parser mfa_setup v = parse_mfa_setup v >>= λ r. accepted (a_setup r)
run_parser mfa_setup_nonce v = parse_mfa_setup_nonce v >>= λ r. accepted (a_setup_nonce r)
run_parser session_response v = parse_session_response v >>= λ r. accepted (a_session r)
run_parser mfa_trust v = parse_mfa_trust v >>= λ r. accepted (a_flag r)
run_parser recovery_code_regenerate v =
    parse_recovery_code_regenerate v >>= λ r. accepted (some_codes r)
run_parser recovery_code_remaining v = parse_recovery_code_remaining v >>= λ r. accepted (a_count r)
run_parser create_user v = parse_create_user v >>= λ r. accepted (a_flag r)
run_parser user_encrypted v = parse_user_encrypted v >>= λ r. accepted (a_user r)
run_parser user_key_records v = parse_user_key_records v >>= λ r. accepted (a_page r)
run_parser encrypted_key_record v = parse_encrypted_key_record v >>= λ r. accepted (a_key_record r)

-- `ApiSchemaError`
pub record SchemaError : Type 0 where
  pub detail : Detail
  pub endpoint : String
  pub method : String

pub data Validated : Type 0 where
  valid : Answer → Validated
  invalid : SchemaError → Validated

-- A parser's end, with the endpoint and the method in its error
unfoldable pub finish : String → String → Checked Answer → Validated
finish at with (accepted a) = valid a
finish at with (rejected why) = invalid record { detail = why; endpoint = at; method = with }

unfoldable pub validate_with : Option Contract → String → String → Json → Validated
unfolding run_parser finish
validate_with none endpoint method v = valid (unchanged v)
validate_with (some c) endpoint method v = finish endpoint method (run_parser c v)

-- `validateResponse`
unfoldable pub validate_response : String → String → Json → Validated
unfolding contract_of validate_with
validate_response endpoint method v = validate_with (contract_of endpoint method) endpoint method v
