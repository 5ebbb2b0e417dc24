-- ===== src/Session/Families.antt =====
-- The operations on one refresh-token family
-- (apps/server/src/features/session/application/sessionFamilyMutations.ts).
use purrivacy_app.Prelude.{
  ℕ, String, Bool, not, ◌||◌, ◌&&◌, Option, none, some, [], ◌∷◌, same_text, if◌then◌else◌,
}
use purrivacy_app.Server.Documents.{DocumentStore}
use purrivacy_app.Server.Errors.{AppError, auth_error, session_invalid, Result, ok, err}
use purrivacy_app.Server.Text.{is_empty}
use purrivacy_app.Session.Types.{Family, Db, is_set}
use purrivacy_app.Session.Records.{delete_family_records}

abbrev pub invalid_session : AppError
invalid_session = auth_error (session_invalid ∷ []) 401

owned : Option Family → String → Result Family
owned none user_id = err invalid_session
owned (some family) user_id =
    if not (same_text family.user_id user_id) || is_set family.revoked_at
    then err invalid_session
    else ok family

module _ (D : DocumentStore) where
  -- `getOwnedFamilyRef`
  unfoldable pub get_owned_family : String → String → Db D → Result Family
  unfolding owned is_empty
  get_owned_family family_id user_id db =
      if is_empty family_id
      then err invalid_session
      else owned (D.get family_id db.families) user_id

  trust_family : Result Family → String → Bool → ℕ → Db D → Db D × Result Bool
  trust_family (err e) family_id mfa_trusted now db = (db, err e)
  trust_family (ok family) family_id mfa_trusted now db =
      let next = family.user_has_mfa && mfa_trusted in
      (
        record db {
          families =
              D.put family_id
                (record family {
                  mfa_trusted = next;
                  mfa_verified_at = if family.user_has_mfa then some now else none;
                  last_used_at = now;
                })
                db.families;
        },
        ok next,
      )

  -- `setSessionFamilyMfaTrust`
  unfoldable pub set_session_family_mfa_trust :
      String → String → Bool → ℕ → Db D → Db D × Result Bool
  unfolding trust_family get_owned_family
  set_session_family_mfa_trust family_id user_id mfa_trusted now db =
      trust_family (get_owned_family family_id user_id db) family_id mfa_trusted now db

  verify_family : Result Family → String → ℕ → Db D → Db D × Result (Unit {0})
  verify_family (err e) family_id now db = (db, err e)
  verify_family (ok family) family_id now db = (
    record db {
      families =
          D.put family_id
            (record family { mfa_verified_at = if family.user_has_mfa then some now else none })
            db.families;
    },
    ok tt,
  )

  -- `markSessionFamilyMfaVerified`
  unfoldable pub mark_session_family_mfa_verified :
      String → String → ℕ → Db D → Db D × Result (Unit {0})
  unfolding verify_family get_owned_family
  mark_session_family_mfa_verified family_id user_id now db =
      verify_family (get_owned_family family_id user_id db) family_id now db

  revoke_found : Option Family → String → String → Db D → Db D × Result (Unit {0})
  revoke_found none family_id user_id db = (db, ok tt)
  revoke_found (some family) family_id user_id db =
      if not (same_text family.user_id user_id)
      then (db, err invalid_session)
      else ((delete_family_records D family_id family_id db).0, ok tt)

  -- `revokeSessionFamily`
  unfoldable pub revoke_session_family : String → String → Db D → Db D × Result (Unit {0})
  unfolding revoke_found
  revoke_session_family family_id user_id db =
      revoke_found (D.get family_id db.families) family_id user_id db
