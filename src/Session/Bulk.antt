-- ===== src/Session/Bulk.antt =====
-- What the deletion of all of a user's sessions leaves
-- (apps/server/src/features/session/application/sessionDeletion.ts).
use purrivacy_app.Prelude.{
  String, ◌≡◌, inl, inr, ◌∙◌, Bool, false, ◌&&◌, Option, some, same_text, arith,
}
use purrivacy_app.Server.Documents.{DocumentStore}
use purrivacy_app.Server.ChunkedWrites.{delete_paged_query_results}
use purrivacy_app.Server.PagedDelete.{delete_paged_query_results-Spares}
use purrivacy_app.Session.Types.{Session, Family, RefreshToken, Db}
use purrivacy_app.Session.Deletion.{not_excluded, delete_all_user_sessions}

module _ (D : DocumentStore) where
  -- A sweep keeps a document that fails one of its tests.
  sweep_spares :
      {V : Type 0} (p filter : V → Bool) (c : D.Collection V) (k : String) (v : V)
      → D.get k c ≡ some v
      → (p v && filter v) ≡ false
      → D.get k (delete_paged_query_results D p filter c).collection ≡ some v
  sweep_spares p filter c k v at skip = elim (delete_paged_query_results-Spares D p filter c k) [
    | inl same ↦ same ∙ at
    | inr (gone, (w, at', match, pass)) ↦ ground arith
  ]

  -- The documents of other users, and those of the session family that the call excludes, survive the
  -- deletion of all of a user's sessions: the access tokens, the families and the refresh tokens.
  pub delete_all_user_sessions_spares :
      (user_id : String) (excluded : Option String) (db : Db D) (k_s k_f k_t : String) (s : Session)
      (f : Family) (t : RefreshToken)
      → D.get k_s db.sessions ≡ some s
      → D.get k_f db.families ≡ some f
      → D.get k_t db.tokens ≡ some t
      → (same_text s.user_id user_id && not_excluded excluded s.refresh_token_family_id) ≡ false
      → (same_text f.user_id user_id && not_excluded excluded f.family_id) ≡ false
      → (same_text t.user_id user_id && not_excluded excluded t.family_id) ≡ false
      → let db' = (delete_all_user_sessions D user_id excluded db).0 in
        (D.get k_s db'.sessions ≡ some s)
        × (D.get k_f db'.families ≡ some f)
        × (D.get k_t db'.tokens ≡ some t)
  unfolding delete_all_user_sessions
  delete_all_user_sessions_spares user_id excluded db k_s k_f k_t s f t at_s at_f at_t skip_s skip_f
        skip_t =
      (
        sweep_spares (λ (s : Session). same_text s.user_id user_id)
            (λ s. not_excluded excluded s.refresh_token_family_id) db.sessions k_s s at_s skip_s,
        sweep_spares (λ (f : Family). same_text f.user_id user_id)
            (λ f. not_excluded excluded f.family_id) db.families k_f f at_f skip_f,
        sweep_spares (λ (t : RefreshToken). same_text t.user_id user_id)
            (λ t. not_excluded excluded t.family_id) db.tokens k_t t at_t skip_t,
      )
