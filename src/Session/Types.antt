-- ===== src/Session/Types.antt =====
-- The documents of the session collections (apps/server/src/core/types/index.ts and
-- apps/server/src/core/constants/index.ts). A date is its milliseconds since the epoch.
use purrivacy_app.Prelude.{ℕ, ◌*◌, String, Bool, true, false, Option, none, some}
use purrivacy_app.Server.Documents.{DocumentStore}

abbrev pub access_token_lifetime_ms : ℕ
access_token_lifetime_ms = 15 * 60 * 1000

abbrev pub refresh_token_lifetime_ms : ℕ
refresh_token_lifetime_ms = 90 * 24 * 60 * 60 * 1000

abbrev pub untrusted_mfa_max_age_ms : ℕ
untrusted_mfa_max_age_ms = 4 * 60 * 60 * 1000

-- `Session`: an access token
pub record Session : Type 0 where
  pub access_token_hash : String
  pub user_id : String
  pub refresh_token_family_id : String
  pub created_at : ℕ
  pub expires_at : ℕ
  pub user_has_mfa : Bool

-- `RefreshTokenFamily`
pub record Family : Type 0 where
  pub family_id : String
  pub user_id : String
  pub device_id : Option String
  pub created_at : ℕ
  pub last_used_at : ℕ
  pub expires_at : ℕ
  pub revoked_at : Option ℕ
  pub user_has_mfa : Bool
  pub mfa_trusted : Bool
  pub mfa_verified_at : Option ℕ
  pub label : Option String
  pub platform : Option String

-- `RefreshToken`
pub record RefreshToken : Type 0 where
  pub token_id : String
  pub family_id : String
  pub user_id : String
  pub token_hash : String
  pub created_at : ℕ
  pub expires_at : ℕ
  pub used_at : Option ℕ
  pub revoked_at : Option ℕ
  pub replaced_by_token_id : Option String

-- `SessionResponse`, with the dates as numbers
pub record SessionResponse : Type 0 where
  pub access_token : String
  pub refresh_token : String
  pub access_token_expires_at : ℕ
  pub refresh_token_expires_at : ℕ
  pub mfa_trusted : Bool
  pub mfa_enabled : Bool
  pub session_family_id : String

-- `sessionCollections`
pub record Db (D : DocumentStore) : Type 0 where
  pub sessions : D.Collection Session
  pub families : D.Collection Family
  pub tokens : D.Collection RefreshToken

abbrev pub is_set {ℓ} : {A : Type ℓ} → Option A → Bool
is_set none = false
is_set (some _) = true
