-- ===== src/Session/Rotate.antt =====
-- The rotation of a refresh token
-- (apps/server/src/features/session/application/rotateRefreshToken.ts). A transaction is one step: an
-- error that it throws leaves the documents as they were, one that it returns keeps its writes.
use purrivacy_app.Prelude.{
  ℕ, ◌+◌, String, Bool, not, ◌||◌, Option, none, some, [], ◌∷◌, ltb, same_text, if◌then◌else◌,
}
use purrivacy_app.Server.Documents.{DocumentStore}
use purrivacy_app.Server.Errors.{
  AppError, auth_error, refresh_token_missing, refresh_token_invalid, refresh_token_reuse,
  refresh_token_expired, mfa_required, Result, ok, err,
}
use purrivacy_app.Server.Text.{is_empty}
use purrivacy_app.Session.Types.{
  Session, Family, RefreshToken, SessionResponse, Db, refresh_token_lifetime_ms, is_set,
}
use purrivacy_app.Session.Tokens.{
  Generated, generate_refresh_token, parse_refresh_token_id, invalid_refresh_token,
}
use purrivacy_app.Session.MfaPolicy.{requires_mfa_for_refresh}
use purrivacy_app.Session.Records.{
  build_session_response, create_access_token_for_family, get_valid_active_access_session,
}

abbrev pub reused_refresh_token : AppError
reused_refresh_token = auth_error (refresh_token_invalid ∷ refresh_token_reuse ∷ []) 401

abbrev pub expired_refresh_token : AppError
expired_refresh_token = auth_error (refresh_token_expired ∷ refresh_token_invalid ∷ []) 401

abbrev pub missing_refresh_token : AppError
missing_refresh_token = auth_error (refresh_token_missing ∷ []) 401

abbrev pub mfa_required_for_refresh : AppError
mfa_required_for_refresh = auth_error (mfa_required ∷ []) 403

-- The random texts and the clock of one call: `later` is the time of the access token.
pub record Renewal : Type 0 where
  pub token_id : String
  pub token_secret : String
  pub access_token : String
  pub now : ℕ
  pub later : ℕ

-- `CryptoUtils.timingSafeEqual`: the same bytes
unfoldable pub timing_safe_equal : String → String → Bool
timing_safe_equal a b = same_text a b

module _ (D : DocumentStore) (sha256 : String → String) where
  -- The writes of a rotation that succeeds.
  unfoldable pub write_rotation :
      String → RefreshToken → Family → Generated → ℕ → Db D → Db D × Family
  write_rotation token_id token_data family_data new_token now db =
      let expires = now + refresh_token_lifetime_ms in
      let updated : Family = record family_data { last_used_at = now; expires_at = expires } in
      (
        record db {
          tokens =
              D.put new_token.token_id
                (record {
                  token_id = new_token.token_id;
                  family_id = family_data.family_id;
                  user_id = family_data.user_id;
                  token_hash = new_token.token_hash;
                  created_at = now;
                  expires_at = expires;
                  used_at = none;
                  revoked_at = none;
                  replaced_by_token_id = none;
                })
                (D.put token_id
                  (record token_data {
                    used_at = some now;
                    replaced_by_token_id = some new_token.token_id;
                  })
                  db.tokens);
          families = D.put token_data.family_id updated db.families;
        },
        updated,
      )

  -- The transaction from the check of reuse on; `db'` has the sessions that the lookup of the
  -- access session left.
  unfoldable pub rotate_checked :
      String
      → RefreshToken
      → Family
      → Generated
      → ℕ
      → Option Session
      → Db D
      → Db D
      → Db D × Result Family
  unfolding write_rotation
  rotate_checked token_id token_data family_data new_token now active db db' =
      if is_set token_data.used_at || is_set token_data.revoked_at
      then (
        record db' {
          families =
              D.put token_data.family_id
                (record family_data { revoked_at = some now; last_used_at = now }) db'.families;
        },
        err reused_refresh_token,
      )
      else if is_set family_data.revoked_at
      then (db, err invalid_refresh_token)
      else if ltb token_data.expires_at now || ltb family_data.expires_at now
      then (
        record db' {
          tokens = D.delete token_id db'.tokens;
          families = D.delete token_data.family_id db'.families;
        },
        err expired_refresh_token,
      )
      else if requires_mfa_for_refresh family_data active now
      then (db, err mfa_required_for_refresh)
      else (let (written, updated) =
            write_rotation token_id token_data family_data new_token now db' in
          (written, ok updated))

  rotate_family :
      Option Family
      → String
      → RefreshToken
      → Generated
      → ℕ
      → Option String
      → Db D
      → Db D × Result Family
  unfolding rotate_checked
  rotate_family none token_id token_data new_token now current db = (db, err invalid_refresh_token)
  rotate_family (some family_data) token_id token_data new_token now current db =
      let (sessions', active) =
        get_valid_active_access_session D sha256 current family_data now db.sessions in
      rotate_checked token_id token_data family_data new_token now active db
        (record db { sessions = sessions' })

  rotate_token :
      Option RefreshToken
      → String
      → String
      → Generated
      → ℕ
      → Option String
      → Db D
      → Db D × Result Family
  unfolding rotate_family timing_safe_equal
  rotate_token none token_id hash new_token now current db = (db, err invalid_refresh_token)
  rotate_token (some token_data) token_id hash new_token now current db =
      if is_empty token_data.token_hash || not (timing_safe_equal token_data.token_hash hash)
      then (db, err invalid_refresh_token)
      else rotate_family (D.get token_data.family_id db.families) token_id token_data new_token now
          current db

  -- The transaction of `rotateBackendRefreshToken`.
  unfoldable pub rotate_transaction :
      String → String → Generated → ℕ → Option String → Db D → Db D × Result Family
  unfolding rotate_token
  rotate_transaction token_id hash new_token now current db =
      rotate_token (D.get token_id db.tokens) token_id hash new_token now current db

  -- The end of `rotateBackendRefreshToken`: the access token and the response.
  unfoldable pub finish_rotation :
      Generated → Renewal → Db D × Result Family → Db D × Result SessionResponse
  finish_rotation new_token renewal (db, err e) = (db, err e)
  finish_rotation new_token renewal (db, ok family) =
      let (db', access_expires) =
        create_access_token_for_family D sha256 renewal.access_token renewal.later family db in
      (
        db',
        ok (
            build_session_response renewal.access_token access_expires new_token.raw_token
              (renewal.now + refresh_token_lifetime_ms) family),
      )

  rotate_parsed :
      Result String → String → Option String → Renewal → Db D → Db D × Result SessionResponse
  unfolding finish_rotation
  rotate_parsed (err e) refresh_token current renewal db = (db, err e)
  rotate_parsed (ok token_id) refresh_token current renewal db =
      let new_token = generate_refresh_token sha256 renewal.token_id renewal.token_secret in
      finish_rotation new_token renewal
        (rotate_transaction token_id (sha256 refresh_token) new_token renewal.now current db)

  -- `rotateBackendRefreshToken`
  unfoldable pub rotate_backend_refresh_token :
      String → Option String → Renewal → Db D → Db D × Result SessionResponse
  unfolding rotate_parsed is_empty
  rotate_backend_refresh_token refresh_token current renewal db =
      if is_empty refresh_token
      then (db, err missing_refresh_token)
      else rotate_parsed (parse_refresh_token_id refresh_token) refresh_token current renewal db
