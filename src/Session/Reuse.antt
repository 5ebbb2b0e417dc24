-- ===== src/Session/Reuse.antt =====
-- The presentation of a refresh token, fresh or used
-- (apps/server/src/features/session/application/rotateRefreshToken.ts).
use purrivacy_app.Prelude.{
  ℕ, ◌≤◌, String, ◌≡◌, refl, true, false, ◌∙◌, ◌||◌, Option, none, some, same_text, same_text_iff,
  arith,
}
use purrivacy_app.Server.Documents.{DocumentStore}
use purrivacy_app.Server.Errors.{Result, ok, err}
use purrivacy_app.Server.Text.{is_empty}
use purrivacy_app.Session.Types.{Session, Family, RefreshToken, Db, is_set}
use purrivacy_app.Session.Tokens.{Generated, generate_refresh_token, parse_refresh_token_id}
use purrivacy_app.Session.MfaPolicy.{requires_mfa_for_refresh}
use purrivacy_app.Session.Records.{get_valid_active_access_session}
use purrivacy_app.Session.Rotate.{
  Renewal, reused_refresh_token, rotate_transaction, write_rotation, rotate_backend_refresh_token,
  timing_safe_equal, rotate_checked, finish_rotation,
}

module _ (D : DocumentStore) (sha256 : String → String) where
  -- The token that `refresh_token` names is stored, with its hash, and so is its family.
  pub record Presents (refresh_token token_id : String) (t : RefreshToken) (f : Family) (db : Db D)
      : Type 0 where
    pub parsed : parse_refresh_token_id refresh_token ≡ ok token_id
    pub nonempty : is_empty refresh_token ≡ false
    pub stored : D.get token_id db.tokens ≡ some t
    pub hashed : t.token_hash ≡ sha256 refresh_token
    pub hash_nonempty : is_empty t.token_hash ≡ false
    pub family : D.get t.family_id db.families ≡ some f

  -- What the call does with a token that is presented.
  abbrev pub checked :
      String → RefreshToken → Family → Db D → Option String → Renewal → Db D × Result Family
  checked token_id t f db current renewal =
      let (sessions', active) =
        get_valid_active_access_session D sha256 current f renewal.now db.sessions in
      rotate_checked D sha256 token_id t f
        (generate_refresh_token sha256 renewal.token_id renewal.token_secret) renewal.now active db
        (record db { sessions = sessions' })

  pub rotate_presented :
      (refresh_token token_id : String) (t : RefreshToken) (f : Family) (db : Db D)
      (current : Option String) (renewal : Renewal)
      → Presents refresh_token token_id t f db
      → rotate_backend_refresh_token D sha256 refresh_token current renewal db
        ≡ finish_rotation D sha256
            (generate_refresh_token sha256 renewal.token_id renewal.token_secret)
            renewal
            (checked token_id t f db current renewal)
  unfolding rotate_backend_refresh_token rotate_transaction timing_safe_equal
  rotate_presented refresh_token token_id t f db current renewal h =
      let same : same_text t.token_hash (sha256 refresh_token) ≡ true =
        (same_text_iff t.token_hash (sha256 refresh_token)).1 h.hashed in
      rw (h.nonempty, h.parsed, h.stored, h.hash_nonempty, same, h.family)

  -- Presenting a refresh token that was used or revoked before is refused as a reuse, whatever else
  -- holds of it; it revokes the token's family at that moment and changes no refresh token.
  pub reuse-revokes :
      (refresh_token token_id : String) (t : RefreshToken) (f : Family) (db : Db D)
      (current : Option String) (renewal : Renewal)
      → Presents refresh_token token_id t f db
      → (is_set t.used_at || is_set t.revoked_at) ≡ true
      → let (db', result) =
          rotate_backend_refresh_token D sha256 refresh_token current renewal db in
        (result ≡ err reused_refresh_token)
        × (D.get t.family_id db'.families
            ≡ some (record f { revoked_at = some renewal.now; last_used_at = renewal.now }))
        × (db'.tokens ≡ db.tokens)
  unfolding rotate_checked finish_rotation
  reuse-revokes refresh_token token_id t f db current renewal h used =
      rw (rotate_presented refresh_token token_id t f db current renewal h) (
        rw used (
          refl,
          D.get-put t.family_id t.family_id _ db.families
              ∙ rw ((same_text_iff t.family_id t.family_id).1 refl),
          refl,
        ))

  -- What holds of a rotation that succeeds.
  pub record Rotates (t : RefreshToken) (f : Family) (active : Option Session) (now : ℕ)
      : Type 0 where
    pub unused : t.used_at ≡ none
    pub not_revoked : t.revoked_at ≡ none
    pub family_not_revoked : f.revoked_at ≡ none
    pub token_lives : now ≤ t.expires_at
    pub family_lives : now ≤ f.expires_at
    pub mfa : requires_mfa_for_refresh f active now ≡ false

  pub rotate_checked-Rotates :
      (token_id : String) (t : RefreshToken) (f : Family) (g : Generated) (now : ℕ)
      (active : Option Session) (db db' : Db D) {f' : Family}
      → (rotate_checked D sha256 token_id t f g now active db db').1 ≡ ok f'
      → Rotates t f active now
        × (rotate_checked D sha256 token_id t f g now active db db' ≡ (
          (write_rotation D sha256 token_id t f g now db').0,
          ok (write_rotation D sha256 token_id t f g now db').1,
        ))
  unfolding rotate_checked
  rotate_checked-Rotates token_id t f g now active db db' h = ground arith
