-- ===== src/Session/Create.antt =====
-- A new backend session (apps/server/src/features/session/application/createSession.ts). The sweep
-- of stale families cannot fail in the model; in the source its failure is logged and ignored.
use purrivacy_app.Prelude.{ℕ, ◌+◌, String, Bool, ◌&&◌, Option, none, some, if◌then◌else◌}
use purrivacy_app.Server.Documents.{DocumentStore}
use purrivacy_app.Server.Errors.{Result, ok, err}
use purrivacy_app.Session.Types.{Family, SessionResponse, Db, refresh_token_lifetime_ms}
use purrivacy_app.Session.Tokens.{Generated, generate_refresh_token, normalize_device_id}
use purrivacy_app.Session.Records.{
  build_session_response, create_access_token_for_family, delete_stale_device_families,
}

-- `CreateSessionOptions`; an option that is not given is `false`, but `sweepStaleFamilies` is `true`
pub record CreateOptions : Type 0 where
  pub user_has_mfa : Bool
  pub mfa_trusted : Bool
  pub label : Option String
  pub platform : Option String
  pub device_id : Option String
  pub sweep_stale_families : Bool

-- The random texts and the clock of one call: `later` is the time of the access token.
pub record Fresh : Type 0 where
  pub family_id : String
  pub token_id : String
  pub token_secret : String
  pub access_token : String
  pub now : ℕ
  pub later : ℕ

-- The family document of a new session.
unfoldable pub new_family : String → CreateOptions → Option String → Fresh → Family
new_family user_id options device_id fresh = record {
  family_id = fresh.family_id;
  user_id = user_id;
  device_id = device_id;
  created_at = fresh.now;
  last_used_at = fresh.now;
  expires_at = fresh.now + refresh_token_lifetime_ms;
  revoked_at = none;
  user_has_mfa = options.user_has_mfa;
  mfa_trusted = options.user_has_mfa && options.mfa_trusted;
  mfa_verified_at = if options.user_has_mfa then some fresh.now else none;
  label = options.label;
  platform = options.platform;
}

module _ (D : DocumentStore) (sha256 : String → String) where
  -- The batch that writes the family and its first refresh token.
  unfoldable pub commit_family : Family → Generated → Fresh → Db D → Db D
  commit_family family token fresh db = record db {
    families = D.put fresh.family_id family db.families;
    tokens =
        D.put token.token_id
          (record {
            token_id = token.token_id;
            family_id = fresh.family_id;
            user_id = family.user_id;
            token_hash = token.token_hash;
            created_at = fresh.now;
            expires_at = fresh.now + refresh_token_lifetime_ms;
            used_at = none;
            revoked_at = none;
            replaced_by_token_id = none;
          })
          db.tokens;
  }

  -- The sweep, where a device is given and the option allows it.
  unfoldable pub sweep_devices : Option String → Bool → String → String → Db D → Db D
  sweep_devices none sweep user_id family_id db = db
  sweep_devices (some device_id) sweep user_id family_id db =
      if sweep then (delete_stale_device_families D user_id device_id family_id db).0 else db

  unfoldable pub create_for_device :
      String → CreateOptions → Fresh → Db D → Option String → Db D × Result SessionResponse
  unfolding new_family commit_family sweep_devices
  create_for_device user_id options fresh db device_id =
      let token = generate_refresh_token sha256 fresh.token_id fresh.token_secret in
      let family = new_family user_id options device_id fresh in
      let committed = commit_family family token fresh db in
      let swept =
        sweep_devices device_id options.sweep_stale_families user_id fresh.family_id committed in
      let (stored, access_expires) =
        create_access_token_for_family D sha256 fresh.access_token fresh.later family swept in
      (
        stored,
        ok (
            build_session_response fresh.access_token access_expires token.raw_token
              (fresh.now + refresh_token_lifetime_ms) family),
      )

  on_device :
      Result (Option String) → String → CreateOptions → Fresh → Db D → Db D × Result SessionResponse
  on_device (err e) user_id options fresh db = (db, err e)
  on_device (ok device_id) user_id options fresh db =
      create_for_device user_id options fresh db device_id

  -- `createBackendSession`
  unfoldable pub create_backend_session :
      String → CreateOptions → Fresh → Db D → Db D × Result SessionResponse
  unfolding on_device create_for_device
  create_backend_session user_id options fresh db =
      on_device (normalize_device_id options.device_id) user_id options fresh db
