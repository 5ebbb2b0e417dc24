-- ===== src/Session/Records.antt =====
-- Access tokens, and the deletion of a family's records
-- (apps/server/src/features/session/application/sessionRecordStore.ts and sessionResponse.ts).
use purrivacy_app.Prelude.{
  ℕ, ◌+◌, String, Bool, not, ◌&&◌, ◌||◌, Option, none, some, [], ◌∷◌, ltb, leb, same_text,
  same_nullable, if◌then◌else◌,
}
use purrivacy_app.Prelude.Dict.{Dict}
use purrivacy_app.Server.Documents.{DocumentStore}
use purrivacy_app.Server.ChunkedWrites.{no_filter, delete_paged_query_results}
use purrivacy_app.Server.Text.{text_length, is_empty}
use purrivacy_app.Session.Types.{
  Session, Family, RefreshToken, SessionResponse, Db, access_token_lifetime_ms,
}
use purrivacy_app.Session.Tokens.{max_access_token_length}

-- `buildSessionResponse`
unfoldable pub build_session_response : String → ℕ → String → ℕ → Family → SessionResponse
build_session_response access_token access_expires refresh_token refresh_expires family = record {
  access_token = access_token;
  refresh_token = refresh_token;
  access_token_expires_at = access_expires;
  refresh_token_expires_at = refresh_expires;
  mfa_trusted = family.mfa_trusted;
  mfa_enabled = family.user_has_mfa;
  session_family_id = family.family_id;
}

-- The queries `where('refreshTokenFamilyId', '==', id)`, `where('familyId', '==', id)`.
abbrev pub session_of_family : String → Session → Bool
session_of_family family_id s = same_text s.refresh_token_family_id family_id

abbrev pub token_of_family : String → RefreshToken → Bool
token_of_family family_id t = same_text t.family_id family_id

module _ (D : DocumentStore) (sha256 : String → String) where
  -- `createAccessTokenForFamily`: `access_token` is the new random text
  unfoldable pub create_access_token_for_family : String → ℕ → Family → Db D → Db D × ℕ
  create_access_token_for_family access_token now family db =
      let hash = sha256 access_token in
      let expires = now + access_token_lifetime_ms in
      (
        record db {
          sessions =
              D.put hash
                (record {
                  access_token_hash = hash;
                  user_id = family.user_id;
                  refresh_token_family_id = family.family_id;
                  created_at = now;
                  expires_at = expires;
                  user_has_mfa = family.user_has_mfa;
                })
                db.sessions;
        },
        expires,
      )

  found_session :
      Option Session
      → String
      → Family
      → ℕ
      → D.Collection Session
      → D.Collection Session × Option Session
  found_session none hash family now sessions = (sessions, none)
  found_session (some data') hash family now sessions =
      if leb data'.expires_at now
      then (D.delete hash sessions, none)
      else if not (same_text data'.user_id family.user_id)
          || not (same_text data'.refresh_token_family_id family.family_id)
      then (sessions, none)
      else (sessions, some (record data' { access_token_hash = hash }))

  -- `getValidActiveAccessSession`, with the sessions that it leaves
  unfoldable pub get_valid_active_access_session :
      Option String → Family → ℕ → D.Collection Session → D.Collection Session × Option Session
  unfolding found_session
  get_valid_active_access_session none family now sessions = (sessions, none)
  get_valid_active_access_session (some token) family now sessions =
      if is_empty token || ltb max_access_token_length (text_length token)
      then (sessions, none)
      else found_session (D.get (sha256 token) sessions) (sha256 token) family now sessions

module _ (D : DocumentStore) where
  -- `deleteFamilyRecords`: the family document first, then its sessions and its tokens
  unfoldable pub delete_family_records : String → String → Db D → Db D × ℕ
  delete_family_records family_id family_ref db =
      let families = D.delete family_ref db.families in
      let sessions =
        delete_paged_query_results D (session_of_family family_id) no_filter db.sessions in
      let tokens = delete_paged_query_results D (token_of_family family_id) no_filter db.tokens in
      (
        record { sessions = sessions.collection; families = families; tokens = tokens.collection },
        1 + sessions.deleted_count + tokens.deleted_count,
      )

  -- The loop of `deleteStaleDeviceFamilies` over the documents of the query; the test is that of
  -- its `filter`.
  unfoldable pub delete_stale : String → String → Dict Family → ℕ → Db D → Db D × ℕ
  unfolding delete_family_records is_empty
  delete_stale user_id new_family_id [] count db = (db, count)
  delete_stale user_id new_family_id ((doc_id, family) ∷ docs) count db =
      let (db', deleted) =
        (if same_text family.user_id user_id && not (same_text family.family_id new_family_id)
          then delete_family_records
              (if is_empty family.family_id then doc_id else family.family_id) doc_id db
          else (db, 0)) in
      delete_stale user_id new_family_id docs (count + deleted) db'

  -- `deleteStaleDeviceFamilies`
  unfoldable pub delete_stale_device_families : String → String → String → Db D → Db D × ℕ
  unfolding delete_stale
  delete_stale_device_families user_id device_id new_family_id db =
      delete_stale user_id new_family_id
        (D.query_all (λ family. same_nullable family.device_id (some device_id)) db.families) 0 db
