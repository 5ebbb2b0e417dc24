-- ===== src/Responses/Known.antt =====
-- Which properties of an answer its validation depends on
-- (apps/mobile/src/api/request/responseSchema.ts).
use purrivacy_app.Prelude.{String, ◌≡◌, refl, some, List, [], ◌∷◌}
use purrivacy_app.Prelude.Dict.{Dict, lookup}
use purrivacy_app.Server.Json.{Json, obj, entries, Properties}
use purrivacy_app.Responses.Fields.{
  as_record, require_string, require_boolean, require_non_negative_integer, require_string_array,
}
use purrivacy_app.Responses.Values.{parse_encrypted_key_record_value}
use purrivacy_app.Responses.Parsers.{
  parse_recovery_challenge, parse_recovery_token, parse_mfa_setup_nonce, parse_mfa_setup,
  parse_session_response, parse_mfa_trust, parse_recovery_code_regenerate,
  parse_recovery_code_remaining, parse_create_user, parse_user_encrypted, parse_user_key_records,
  parse_encrypted_key_record,
}
use purrivacy_app.Responses.Registry.{
  Contract, recovery_challenge, recovery_token, mfa_setup, mfa_setup_nonce, session_response,
  mfa_trust, recovery_code_regenerate, recovery_code_remaining, create_user, user_encrypted,
  user_key_records, encrypted_key_record, contract_of, run_parser, validate_with, validate_response,
}

-- The fields that a parser gives to `logUnknownFields` for the whole answer
unfoldable pub known_fields : Contract → List String
known_fields recovery_challenge = "recoveryVerifierSalt" ∷ []
known_fields recovery_token = "userId" ∷ "tempToken" ∷ "userEncrypted" ∷ []
known_fields mfa_setup_nonce = "nonce" ∷ "expiresAt" ∷ []
known_fields mfa_setup = "secret" ∷ "otpauthUrl" ∷ "recoveryCodes" ∷ "message" ∷ []
known_fields session_response =
    "accessToken" ∷ "refreshToken" ∷ "accessTokenExpiresAt" ∷ "refreshTokenExpiresAt" ∷ "mfaTrusted"
    ∷ "mfaEnabled" ∷ "newRecoveryCodes" ∷ []
known_fields mfa_trust = "mfaTrusted" ∷ []
known_fields recovery_code_regenerate = "recoveryCodes" ∷ []
known_fields recovery_code_remaining = "remainingCodes" ∷ []
known_fields create_user = "success" ∷ []
known_fields user_encrypted = "dekPassword" ∷ "dekSeed" ∷ "keys" ∷ "passphraseStorageEnabled" ∷ []
known_fields user_key_records = "keys" ∷ "nextCursor" ∷ []
known_fields encrypted_key_record = "encryptedData" ∷ "iv" ∷ "tag" ∷ "recordId" ∷ []

-- Two objects have the same values, or none, under the names.
abbrev pub AgreeOn : List String → Dict Json → Dict Json → Type 0
AgreeOn [] a b = Unit
AgreeOn (name ∷ names) a b = (lookup name a ≡ lookup name b) × AgreeOn names a b

run_parser_known :
    (c : Contract) (ps qs : Properties)
    → AgreeOn (known_fields c) (entries ps) (entries qs)
    → run_parser c (obj ps) ≡ run_parser c (obj qs)
unfolding known_fields run_parser as_record require_string require_boolean
    require_non_negative_integer require_string_array parse_encrypted_key_record_value
    parse_recovery_challenge parse_recovery_token parse_mfa_setup_nonce parse_mfa_setup
    parse_session_response parse_mfa_trust parse_recovery_code_regenerate
    parse_recovery_code_remaining parse_create_user parse_user_encrypted parse_user_key_records
    parse_encrypted_key_record
run_parser_known recovery_challenge ps qs (a, u) = rw a refl
run_parser_known recovery_token ps qs (a, (b, (c, u))) = rw (a, b, c) refl
run_parser_known mfa_setup_nonce ps qs (a, (b, u)) = rw (a, b) refl
run_parser_known mfa_setup ps qs (a, (b, (c, (d, u)))) = rw (a, b, c, d) refl
run_parser_known session_response ps qs (a, (b, (c, (d, (e, (f, (g, u))))))) =
    rw (a, b, c, d, e, f, g) refl
run_parser_known mfa_trust ps qs (a, u) = rw a refl
run_parser_known recovery_code_regenerate ps qs (a, u) = rw a refl
run_parser_known recovery_code_remaining ps qs (a, u) = rw a refl
run_parser_known create_user ps qs (a, u) = rw a refl
run_parser_known user_encrypted ps qs (a, (b, (c, (d, u)))) = rw (a, b, c, d) refl
run_parser_known user_key_records ps qs (a, (b, u)) = rw (a, b) refl
run_parser_known encrypted_key_record ps qs (a, (b, (c, (d, u)))) = rw (a, b, c, d) refl

-- For an endpoint that has a parser, two objects with the same values under the parser's known names
-- have the same validation, the errors included: further properties and the order of the properties
-- change nothing.
pub unknown_fields_change_nothing :
    (endpoint method : String) (c : Contract) (ps qs : Properties)
    → contract_of endpoint method ≡ some c
    → AgreeOn (known_fields c) (entries ps) (entries qs)
    → validate_response endpoint method (obj ps) ≡ validate_response endpoint method (obj qs)
unfolding validate_response validate_with
unknown_fields_change_nothing endpoint method c ps qs found same =
    rw (found, run_parser_known c ps qs same) refl
