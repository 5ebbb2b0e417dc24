-- ===== src/Responses/Types.antt =====
-- The answers of the server in the mobile app (apps/mobile/src/features/auth/model/userTypes.ts,
-- apps/mobile/src/features/auth/model/recoveryTypes.ts, apps/mobile/src/features/mfa/model/mfaTypes.ts,
-- apps/mobile/src/features/security/model/sessionTypes.ts and
-- apps/mobile/src/shared/model/cryptoTypes.ts).
use purrivacy_app.Prelude.{String, Bool, Option, List}

pub record EncryptionBase : Type 0 where
  pub encrypted_data : String
  pub iv : String
  pub tag : String

-- An `EncryptionBase` and its salt
pub record Encryption : Type 0 where
  pub base : EncryptionBase
  pub salt : String

-- `EncryptedKeyRecordWithId`
pub record EncryptedKeyRecord : Type 0 where
  pub base : EncryptionBase
  pub record_id : String

pub record UserKeyRecords : Type 0 where
  pub keys : List EncryptedKeyRecord
  pub next_cursor : Option String

pub record UserEncrypted : Type 0 where
  pub dek_password : Encryption
  pub dek_seed : Encryption
  pub keys : List EncryptionBase
  pub passphrase_storage_enabled : Option Bool

-- `RecoveryTokenResponse`; `dek_seed` is the one property of its `userEncrypted`.
pub record RecoveryToken : Type 0 where
  pub user_id : String
  pub temp_token : String
  pub dek_seed : Encryption

pub record MfaSetupNonce : Type 0 where
  pub nonce : String
  pub expires_at : String

pub record MfaSetup : Type 0 where
  pub secret : String
  pub otpauth_url : String
  pub recovery_codes : List String
  pub message : String

pub record SessionAnswer : Type 0 where
  pub access_token : String
  pub refresh_token : String
  pub access_token_expires_at : String
  pub refresh_token_expires_at : String
  pub mfa_trusted : Bool
  pub mfa_enabled : Bool
  pub new_recovery_codes : Option (List String)
