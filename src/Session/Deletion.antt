-- ===== src/Session/Deletion.antt =====
-- The deletion of a user's sessions and of expired records
-- (apps/server/src/features/session/application/sessionDeletion.ts and expiredSessionCleanup.ts).
use purrivacy_app.Prelude.{
  ℕ, ◌+◌, String, Bool, true, not, ◌||◌, Option, none, some, ltb, same_text, if◌then◌else◌,
}
use purrivacy_app.Server.Documents.{DocumentStore}
use purrivacy_app.Server.ChunkedWrites.{no_filter, delete_paged_query_results}
use purrivacy_app.Server.Text.{is_empty}
use purrivacy_app.Session.Types.{Session, Family, RefreshToken, Db}

-- The `filter` of a collection, by its family field; an empty id is no exclusion.
unfoldable pub not_excluded : Option String → String → Bool
unfolding is_empty
not_excluded none family_id = true
not_excluded (some excluded) family_id =
    if is_empty excluded then true else not (same_text family_id excluded)

module _ (D : DocumentStore) where
  -- `deleteAccessSession`, with the hash of the token
  unfoldable pub delete_access_session : (String → String) → String → Db D → Db D
  delete_access_session sha256 access_token db = record db {
    sessions = D.delete (sha256 access_token) db.sessions;
  }

  -- `deleteAllUserSessions`: sessions, then families, then tokens, as `sessionCollections` lists them
  unfoldable pub delete_all_user_sessions : String → Option String → Db D → Db D × ℕ
  delete_all_user_sessions user_id excluded db =
      let sessions =
        delete_paged_query_results D (λ (s : Session). same_text s.user_id user_id)
          (λ s. not_excluded excluded s.refresh_token_family_id) db.sessions in
      let families =
        delete_paged_query_results D (λ (f : Family). same_text f.user_id user_id)
          (λ f. not_excluded excluded f.family_id) db.families in
      let tokens =
        delete_paged_query_results D (λ (t : RefreshToken). same_text t.user_id user_id)
          (λ t. not_excluded excluded t.family_id) db.tokens in
      (
        record {
          sessions = sessions.collection;
          families = families.collection;
          tokens = tokens.collection;
        },
        sessions.deleted_count + families.deleted_count + tokens.deleted_count,
      )

  -- `cleanupExpiredSessionRecords`, with the count and whether a sweep was cut short
  unfoldable pub cleanup_expired_session_records : ℕ → Db D → Db D × ℕ × Bool
  cleanup_expired_session_records now db =
      let sessions =
        delete_paged_query_results D (λ (s : Session). ltb s.expires_at now) no_filter
          db.sessions in
      let tokens =
        delete_paged_query_results D (λ (t : RefreshToken). ltb t.expires_at now) no_filter
          db.tokens in
      let families =
        delete_paged_query_results D (λ (f : Family). ltb f.expires_at now) no_filter db.families in
      (
        record {
          sessions = sessions.collection;
          families = families.collection;
          tokens = tokens.collection;
        },
        sessions.deleted_count + tokens.deleted_count + families.deleted_count,
        sessions.truncated || tokens.truncated || families.truncated,
      )
