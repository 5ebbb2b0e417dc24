-- ===== src/Session/Validate.antt =====
-- The check of an access token
-- (apps/server/src/features/session/application/validateSession.ts).
use purrivacy_app.Prelude.{ℕ, String, Bool, true, Option, none, some, [], ◌∷◌, ltb, if◌then◌else◌}
use purrivacy_app.Server.Documents.{DocumentStore}
use purrivacy_app.Server.Errors.{
  AppError, auth_error, access_token_invalid, access_token_expired, session_invalid,
  session_expired, Result, ok, err,
}
use purrivacy_app.Session.Types.{Session, Family, Db, is_set}

abbrev pub invalid_access_token : AppError
invalid_access_token = auth_error (access_token_invalid ∷ session_invalid ∷ []) 401

abbrev pub expired_access_token : AppError
expired_access_token = auth_error (access_token_expired ∷ session_expired ∷ []) 401

-- `!familyDoc.exists || familyDoc.data()?.revokedAt`
unfoldable pub is_revoked : Option Family → Bool
is_revoked none = true
is_revoked (some family) = is_set family.revoked_at

module _ (D : DocumentStore) (sha256 : String → String) where
  validate_found : Option Session → String → ℕ → Db D → Db D × Result Session
  unfolding is_revoked
  validate_found none hash now db = (db, err invalid_access_token)
  validate_found (some data') hash now db =
      if ltb data'.expires_at now
      then (record db { sessions = D.delete hash db.sessions }, err expired_access_token)
      else if is_revoked (D.get data'.refresh_token_family_id db.families)
      then (record db { sessions = D.delete hash db.sessions }, err invalid_access_token)
      else (db, ok data')

  -- `validateBackendSession`
  unfoldable pub validate_backend_session : String → ℕ → Db D → Db D × Result Session
  unfolding validate_found
  validate_backend_session access_token now db =
      validate_found (D.get (sha256 access_token) db.sessions) (sha256 access_token) now db
