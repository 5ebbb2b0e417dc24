-- ===== src/Mfa/Verify.antt =====
-- The check of an MFA code (apps/server/src/features/mfa/application/verifyMfaCode.ts,
-- verifyMfaTotpCode.ts, mfaCodeFormats.ts and mfaErrors.ts). Decryption, with the key of the
-- environment, and the one-time-password library, at the time of the call, are arguments.
use purrivacy_app.Prelude.{
  ℕ, String, Bool, false, ◌||◌, ◌&&◌, Option, none, some, List, [], ◌∷◌, ◌==◌, if◌then◌else◌,
}
use purrivacy_app.Server.Documents.{DocumentStore}
use purrivacy_app.Server.Errors.{
  AppError, auth_error, mfa_required, mfa_required_sensitive, wrong_mfa_code, mfa_not_enabled,
  Result, ok, err,
}
use purrivacy_app.Server.Text.{text_length, is_empty, trim, all_chars, between}
use purrivacy_app.Mfa.Types.{MfaSecurity, MfaDb, get_user_mfa_state}
use purrivacy_app.Mfa.RecoveryCodes.{verify_and_consume_recovery_code}

-- `MfaCodeKind`
pub data CodeKind : Type 0 where
  recovery totp invalid : CodeKind

-- `[A-Z0-9]`
unfoldable pub is_recovery_char : ℕ → Bool
is_recovery_char n = between b'A' b'Z' n || between b'0' b'9' n

-- `\d`
unfoldable pub is_digit : ℕ → Bool
is_digit n = between b'0' b'9' n

-- `getMfaCodeKind`
unfoldable pub get_mfa_code_kind : String → CodeKind
unfolding text_length all_chars is_recovery_char is_digit
get_mfa_code_kind code =
    if text_length code == 12 && all_chars is_recovery_char code
    then recovery
    else if text_length code == 6 && all_chars is_digit code
    then totp
    else invalid

-- The flag that asks for a code.
unfoldable pub required_flag : Bool → AppError
required_flag is_sensitive =
    auth_error ((if is_sensitive then mfa_required_sensitive else mfa_required) ∷ []) 403

-- `getInvalidMfaError`
unfoldable pub get_invalid_mfa_error : Bool → AppError
get_invalid_mfa_error is_sensitive =
    auth_error
      (wrong_mfa_code ∷ (if is_sensitive then mfa_required_sensitive else mfa_required) ∷ []) 403

module _ (D : DocumentStore) (sha256 : String → String)
    (decrypt : String → String → String → Result String)
    (verify_totp : String → String → Bool) where
  totp_secret : Result String → String → Result Bool
  totp_secret (err e) code = err e
  totp_secret (ok secret) code = ok (verify_totp secret code)

  totp_found : Option MfaSecurity → String → Result Bool
  unfolding totp_secret is_empty
  totp_found none code = ok false
  totp_found (some s) code =
      if is_empty s.mfa_secret || is_empty s.mfa_secret_iv || is_empty s.mfa_secret_tag
      then ok false
      else totp_secret (decrypt s.mfa_secret s.mfa_secret_iv s.mfa_secret_tag) code

  totp_enabled : Result Bool → String → String → MfaDb D → Result Bool
  unfolding totp_found
  totp_enabled (err e) user_id code db = err e
  totp_enabled (ok enabled) user_id code db =
      if enabled then totp_found (D.get user_id db.security) code else err mfa_not_enabled

  -- `verifyMfaTotpCode`
  unfoldable pub verify_mfa_totp_code : String → String → MfaDb D → Result Bool
  unfolding totp_enabled get_user_mfa_state
  verify_mfa_totp_code user_id code db =
      totp_enabled (get_user_mfa_state D user_id db) user_id code db

  recovery_checked :
      Bool
      → MfaDb D × Result (Bool × Option (List String))
      → MfaDb D × Result (Option (List String))
  unfolding get_invalid_mfa_error
  recovery_checked is_sensitive (db, err e) = (db, err e)
  recovery_checked is_sensitive (db, ok (valid, codes)) =
      if valid then (db, ok codes) else (db, err (get_invalid_mfa_error is_sensitive))

  totp_checked : Bool → MfaDb D → Result Bool → MfaDb D × Result (Option (List String))
  unfolding get_invalid_mfa_error
  totp_checked is_sensitive db (err e) = (db, err e)
  totp_checked is_sensitive db (ok valid) =
      if valid then (db, ok none) else (db, err (get_invalid_mfa_error is_sensitive))

  verify_kind :
      CodeKind
      → String
      → Bool
      → String
      → List String
      → MfaDb D
      → MfaDb D × Result (Option (List String))
  unfolding recovery_checked totp_checked get_invalid_mfa_error
  verify_kind recovery user_id is_sensitive code fresh db =
      recovery_checked is_sensitive
        (verify_and_consume_recovery_code D sha256 user_id code fresh db)
  verify_kind invalid user_id is_sensitive code fresh db =
      (db, err (get_invalid_mfa_error is_sensitive))
  verify_kind totp user_id is_sensitive code fresh db =
      totp_checked is_sensitive db (verify_mfa_totp_code user_id code db)

  -- `verifyMfaCode`: `none` is a code that is not a text
  unfoldable pub verify_mfa_code :
      String
      → Bool
      → Option String
      → List String
      → MfaDb D
      → MfaDb D × Result (Option (List String))
  unfolding verify_kind get_mfa_code_kind trim is_empty required_flag
  verify_mfa_code user_id is_sensitive none fresh db = (db, err (required_flag is_sensitive))
  verify_mfa_code user_id is_sensitive (some mfa_code) fresh db =
      let code = trim mfa_code in
      if is_empty code
      then (db, err (required_flag is_sensitive))
      else verify_kind (get_mfa_code_kind code) user_id is_sensitive code fresh db
