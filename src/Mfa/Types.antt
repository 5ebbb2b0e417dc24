-- ===== src/Mfa/Types.antt =====
-- The documents of the MFA feature (apps/server/src/core/types/index.ts,
-- apps/server/src/features/mfa/application/mfaSetupNonce.ts and
-- apps/server/src/features/user/application/userReads.ts).
use purrivacy_app.Prelude.{ℕ, ◌*◌, String, Bool, Option, none, some}
use purrivacy_app.Server.Documents.{DocumentStore}
use purrivacy_app.Server.Errors.{Result, ok, err, not_found}
use purrivacy_app.Prelude.{List}

abbrev pub recovery_code_count : ℕ
recovery_code_count = 10

abbrev pub auto_regenerate_threshold : ℕ
auto_regenerate_threshold = 2

abbrev pub mfa_setup_nonce_ttl_ms : ℕ
mfa_setup_nonce_ttl_ms = 5 * 60 * 1000

abbrev pub fresh_session_window_ms : ℕ
fresh_session_window_ms = 10 * 60 * 1000

abbrev pub mfa_setup_nonce_min_length : ℕ
mfa_setup_nonce_min_length = 32

abbrev pub mfa_setup_nonce_max_length : ℕ
mfa_setup_nonce_max_length = 128

-- `UserMfaSecurity`; the codes are `none` where the field is not an array
pub record MfaSecurity : Type 0 where
  pub mfa_secret : String
  pub mfa_secret_iv : String
  pub mfa_secret_tag : String
  pub mfa_recovery_codes : Option (List String)

-- `MfaSetupNonceRecord`
pub record NonceRecord : Type 0 where
  pub user_id : String
  pub session_family_id : String
  pub created_at : ℕ
  pub expires_at : ℕ
  pub consumed_at : Option ℕ

-- The user documents, by their field `mfaEnabled === true`, and the security documents, both by user
-- id, and the nonces by their hash.
pub record MfaDb (D : DocumentStore) : Type 0 where
  pub users : D.Collection Bool
  pub security : D.Collection MfaSecurity
  pub nonces : D.Collection NonceRecord

found_user : Option Bool → Result Bool
found_user none = err not_found
found_user (some enabled) = ok enabled

module _ (D : DocumentStore) where
  -- `getUserMfaState`
  unfoldable pub get_user_mfa_state : String → MfaDb D → Result Bool
  unfolding found_user
  get_user_mfa_state user_id db = found_user (D.get user_id db.users)
