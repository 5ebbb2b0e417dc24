-- ===== src/Responses/Parsers.antt =====
-- The parser of each answer (apps/mobile/src/api/request/responseSchema.ts).
use purrivacy_app.Prelude.{ℕ, String, Bool, true, none, some, List, if◌then◌else◌}
use purrivacy_app.Prelude.Dict.{lookup}
use purrivacy_app.Server.Json.{Json}
use purrivacy_app.Responses.Fields.{
  Checked, accepted, rejected, success_not_true, ◌>>=◌, as_record, require_string, require_boolean,
  require_non_negative_integer, require_string_array, unless_missing, require_keys,
}
use purrivacy_app.Responses.Types.{
  EncryptedKeyRecord, UserKeyRecords, UserEncrypted, RecoveryToken, MfaSetupNonce, MfaSetup,
  SessionAnswer,
}
use purrivacy_app.Responses.Values.{
  parse_encryption_base_value, parse_encryption_value, parse_encrypted_key_record_value, parse_each,
}

-- `parseRecoveryChallengeResponse`, with its one property
unfoldable pub parse_recovery_challenge : Json → Checked String
unfolding as_record require_string
parse_recovery_challenge value =
    as_record none (some value) >>= λ raw. require_string "recoveryVerifierSalt" raw

-- `parseRecoveryTokenResponse`
unfoldable pub parse_recovery_token : Json → Checked RecoveryToken
unfolding as_record require_string parse_encryption_value
parse_recovery_token value = as_record none (some value) >>= λ raw.
    as_record (some "userEncrypted") (lookup "userEncrypted" raw) >>= λ user_encrypted.
    require_string "userId" raw >>= λ user. require_string "tempToken" raw >>= λ token.
    parse_encryption_value "userEncrypted.dekSeed" (lookup "dekSeed" user_encrypted) >>= λ seed.
    accepted record { user_id = user; temp_token = token; dek_seed = seed }

-- `parseMfaSetupNonceResponse`
unfoldable pub parse_mfa_setup_nonce : Json → Checked MfaSetupNonce
unfolding as_record require_string
parse_mfa_setup_nonce value = as_record none (some value) >>= λ raw.
    require_string "nonce" raw >>= λ n.
    require_string "expiresAt" raw >>= λ time. accepted record { nonce = n; expires_at = time }

-- `parseMfaSetupResponse`
unfoldable pub parse_mfa_setup : Json → Checked MfaSetup
unfolding as_record require_string require_string_array
parse_mfa_setup value = as_record none (some value) >>= λ raw.
    require_string "secret" raw >>= λ key. require_string "otpauthUrl" raw >>= λ url.
    require_string_array "recoveryCodes" raw >>= λ codes. require_string "message" raw >>= λ text.
    accepted record { secret = key; otpauth_url = url; recovery_codes = codes; message = text }

-- `parseSessionResponse`
unfoldable pub parse_session_response : Json → Checked SessionAnswer
unfolding as_record require_string require_boolean require_string_array unless_missing
parse_session_response value = as_record none (some value) >>= λ raw.
    require_string "accessToken" raw >>= λ access. require_string "refreshToken" raw >>= λ refresh.
    require_string "accessTokenExpiresAt" raw >>= λ access_end.
    require_string "refreshTokenExpiresAt" raw >>= λ refresh_end.
    require_boolean "mfaTrusted" raw >>= λ trusted. require_boolean "mfaEnabled" raw >>= λ enabled.
    unless_missing (lookup "newRecoveryCodes" raw) (require_string_array "newRecoveryCodes" raw)
    >>= λ codes. accepted record {
      access_token = access;
      refresh_token = refresh;
      access_token_expires_at = access_end;
      refresh_token_expires_at = refresh_end;
      mfa_trusted = trusted;
      mfa_enabled = enabled;
      new_recovery_codes = codes;
    }

-- `parseMfaTrustResponse`, with its one property
unfoldable pub parse_mfa_trust : Json → Checked Bool
unfolding as_record require_boolean
parse_mfa_trust value = as_record none (some value) >>= λ raw. require_boolean "mfaTrusted" raw

-- `parseRecoveryCodeRegenerateResponse`, with its one property
unfoldable pub parse_recovery_code_regenerate : Json → Checked (List String)
unfolding as_record require_string_array
parse_recovery_code_regenerate value =
    as_record none (some value) >>= λ raw. require_string_array "recoveryCodes" raw

-- `parseRecoveryCodeRemainingResponse`, with its one property
unfoldable pub parse_recovery_code_remaining : Json → Checked ℕ
unfolding as_record require_non_negative_integer
parse_recovery_code_remaining value =
    as_record none (some value) >>= λ raw. require_non_negative_integer "remainingCodes" raw

-- `parseCreateUserResponse`
unfoldable pub parse_create_user : Json → Checked Bool
unfolding as_record require_boolean
parse_create_user value = as_record none (some value) >>= λ raw.
    require_boolean "success" raw >>= λ success.
    if success then accepted true else rejected success_not_true

-- `parseUserEncrypted`
unfoldable pub parse_user_encrypted : Json → Checked UserEncrypted
unfolding as_record require_keys parse_encryption_value parse_encryption_base_value parse_each
    require_boolean unless_missing
parse_user_encrypted value = as_record none (some value) >>= λ raw.
    require_keys (lookup "keys" raw) >>= λ keys_raw.
    parse_encryption_value "dekPassword" (lookup "dekPassword" raw) >>= λ password.
    parse_encryption_value "dekSeed" (lookup "dekSeed" raw) >>= λ seed.
    parse_each parse_encryption_base_value 0 keys_raw >>= λ parsed.
    unless_missing (lookup "passphraseStorageEnabled" raw)
      (require_boolean "passphraseStorageEnabled" raw)
    >>= λ enabled. accepted record {
      dek_password = password;
      dek_seed = seed;
      keys = parsed;
      passphrase_storage_enabled = enabled;
    }

-- `parseUserKeyRecordsResponse`
unfoldable pub parse_user_key_records : Json → Checked UserKeyRecords
unfolding as_record require_keys parse_encrypted_key_record_value parse_each require_string
    unless_missing
parse_user_key_records value = as_record none (some value) >>= λ raw.
    require_keys (lookup "keys" raw) >>= λ keys_raw.
    parse_each parse_encrypted_key_record_value 0 keys_raw >>= λ parsed.
    unless_missing (lookup "nextCursor" raw) (require_string "nextCursor" raw) >>= λ cursor.
    accepted record { keys = parsed; next_cursor = cursor }

-- `parseEncryptedKeyRecordWithId`
unfoldable pub parse_encrypted_key_record : Json → Checked EncryptedKeyRecord
unfolding parse_encrypted_key_record_value
parse_encrypted_key_record value = parse_encrypted_key_record_value "key record" (some value)
