-- ===== src/Session/Access.antt =====
-- The access that a family gives, before and after it is deleted or revoked
-- (apps/server/src/features/session/application).
use purrivacy_app.Prelude.{
  ℕ, ◌≤◌, String, ◌≡◌, ◌≢◌, ◌↔◌, ◌⊎◌, true, false, ◌||◌, Option, none, some, same_text_iff, arith,
}
use purrivacy_app.Server.Documents.{DocumentStore}
use purrivacy_app.Server.Errors.{ok, err}
use purrivacy_app.Session.Types.{Session, Family, RefreshToken, SessionResponse, Db, is_set}
use purrivacy_app.Session.Tokens.{parse_refresh_token_id}
use purrivacy_app.Session.Records.{delete_family_records}
use purrivacy_app.Session.Rotate.{Renewal, rotate_backend_refresh_token}
use purrivacy_app.Session.Validate.{
  is_revoked, validate_backend_session, invalid_access_token, expired_access_token,
}
use purrivacy_app.Session.Families.{revoke_session_family}
use purrivacy_app.Session.Dead.{IsDead}
use purrivacy_app.Session.Revoked.{Reach, Reach-IsDead}
use purrivacy_app.Session.Reuse.{Presents, reuse-revokes}
use purrivacy_app.Session.Rotation.{rotation_needs}

module _ (D : DocumentStore) (sha256 : String → String) where
  -- An access token is accepted exactly when its session is stored and has not expired and its family
  -- is stored and not revoked; the session is then the one stored.
  pub validate_backend_session_iff :
      (access_token : String) (now : ℕ) (db : Db D) (s : Session)
      → ((validate_backend_session D sha256 access_token now db).1 ≡ ok s) ↔ (
          (D.get (sha256 access_token) db.sessions ≡ some s)
          × (now ≤ s.expires_at)
          × (is_revoked (D.get s.refresh_token_family_id db.families) ≡ false))
  unfolding validate_backend_session
  validate_backend_session_iff access_token now db s = (λ h. ground arith, λ h. ground arith)

  -- Once a family is deleted or revoked, no access token of it is accepted after any further
  -- operations that draw other family ids: the call fails and deletes the token's session.
  pub revoked-access_refused :
      (fam access_token : String) (now : ℕ) (db db' : Db D) (s : Session)
      → IsDead D fam db
      → Reach D fam sha256 db db'
      → D.get (sha256 access_token) db'.sessions ≡ some s
      → s.refresh_token_family_id ≡ fam
      → let (after, result) = validate_backend_session D sha256 access_token now db' in
        (D.get (sha256 access_token) after.sessions ≡ none)
        × ((result ≡ err expired_access_token) ⊎ (result ≡ err invalid_access_token))
  unfolding validate_backend_session
  revoked-access_refused fam access_token now db db' s h r at eq =
      let dead : IsDead D fam db' = Reach-IsDead D fam h r in
      ground (
        arith,
        dead.revoked,
        D.get-delete (sha256 access_token) (sha256 access_token) db'.sessions,
        same_text_iff (sha256 access_token) (sha256 access_token),
      )

  -- Once a family is deleted or revoked, no refresh token of it rotates after any further operations
  -- that draw other family ids.
  pub revoked-refresh_refused :
      (fam refresh_token token_id : String) (current : Option String) (renewal : Renewal)
      (db db' : Db D) (t : RefreshToken) (r : SessionResponse)
      → IsDead D fam db
      → Reach D fam sha256 db db'
      → parse_refresh_token_id refresh_token ≡ ok token_id
      → D.get token_id db'.tokens ≡ some t
      → t.family_id ≡ fam
      → (rotate_backend_refresh_token D sha256 refresh_token current renewal db').1 ≢ ok r
  unfolding is_revoked
  revoked-refresh_refused fam refresh_token token_id current renewal db db' t r h reach parsed at eq
        done =
      let dead : IsDead D fam db' = Reach-IsDead D fam h reach in
      let (id, t', f, p, ready) = rotation_needs D sha256 refresh_token current renewal db' done in
      ground (arith, dead.revoked, p.parsed, p.stored, p.family, ready.family_not_revoked)

  -- A revocation that succeeds leaves its family deleted.
  pub revoke-IsDead :
      (fam user_id : String) (db : Db D)
      → (revoke_session_family D fam user_id db).1 ≡ ok tt
      → IsDead D fam (revoke_session_family D fam user_id db).0
  unfolding revoke_session_family delete_family_records is_revoked
  revoke-IsDead fam user_id db h = record {
    revoked = ground (arith, D.get-delete fam fam db.families, same_text_iff fam fam);
  }

  -- After a reuse is refused, and any further operations that draw other family ids, no refresh token
  -- of the same family rotates.
  pub reuse_locks_family :
      (refresh_token token_id : String) (t : RefreshToken) (f : Family) (db db' : Db D)
      (current : Option String) (renewal : Renewal) (other_token other_id : String)
      (current' : Option String) (renewal' : Renewal) (t' : RefreshToken) (r : SessionResponse)
      → Presents D sha256 refresh_token token_id t f db
      → (is_set t.used_at || is_set t.revoked_at) ≡ true
      → Reach D t.family_id sha256
          (rotate_backend_refresh_token D sha256 refresh_token current renewal db).0
          db'
      → parse_refresh_token_id other_token ≡ ok other_id
      → D.get other_id db'.tokens ≡ some t'
      → t'.family_id ≡ t.family_id
      → (rotate_backend_refresh_token D sha256 other_token current' renewal' db').1 ≢ ok r
  unfolding is_revoked
  reuse_locks_family refresh_token token_id t f db db' current renewal other other_id current'
        renewal' t' r p used reach parsed at eq =
      let (refused, revoked, same) =
        reuse-revokes D sha256 refresh_token token_id t f db current renewal p used in
      revoked-refresh_refused t.family_id other other_id current' renewal' _ db' t' r
        (record { revoked = rw revoked }) reach parsed at eq
