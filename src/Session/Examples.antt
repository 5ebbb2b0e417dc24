-- ===== src/Session/Examples.antt =====
-- The session properties at a concrete user (apps/server/src/features/session/application).
use purrivacy_app.Session.Tokens.{
  generate_refresh_token, parse_refresh_token_id, normalize_device_id,
}
use purrivacy_app.Session.Create.{
  CreateOptions, Fresh, create_backend_session, create_for_device, commit_family, new_family,
  sweep_devices,
}
use purrivacy_app.Session.Records.{delete_stale_device_families}
use purrivacy_app.Session.Created.{created_session_is_valid}
use Prim.Native.String.{◌++◌}
use purrivacy_app.Prelude.{
  arith, ◌≤◌, ◌≡◌, ◌≢◌, ◌↔◌, ◌⊎◌, refl, true, false, none, some, same_text, texts_differ,
}
use purrivacy_app.Prelude.Dict.{lookup, insert}
use purrivacy_app.Server.DictStore.{dict_store}
use purrivacy_app.Server.Text.{is_empty}
use purrivacy_app.Server.Errors.{ok, err}
use purrivacy_app.Session.Types.{Session, SessionResponse, Db}
use purrivacy_app.Session.MfaPolicy.{requires_mfa_for_refresh}
use purrivacy_app.Session.Records.{
  get_valid_active_access_session, create_access_token_for_family, build_session_response,
}
use purrivacy_app.Session.Rotate.{
  rotate_backend_refresh_token, reused_refresh_token, rotate_transaction, rotate_checked,
  write_rotation, finish_rotation, timing_safe_equal,
}
use purrivacy_app.Session.Validate.{
  validate_backend_session, is_revoked, invalid_access_token, expired_access_token,
}
use purrivacy_app.Session.Revoked.{here, next, validated, Reach}
use purrivacy_app.Session.Rotation.{rotation_is_single_use}
use purrivacy_app.Session.Access.{
  validate_backend_session_iff, revoked-access_refused, revoked-refresh_refused, reuse_locks_family,
}
use purrivacy_app.Session.Samples.{
  toy_hash, id_1, id_2, raw_1, family_1, token_1, session_1, db, used_db, dead_db, renewal,
  db-Presents, used_db-Presents, dead_db-IsDead,
}

validate_backend_session_iff_example :
    ((validate_backend_session dict_store toy_hash "access" 100 db).1 ≡ ok session_1) ↔ (
      (dict_store.get (toy_hash "access") db.sessions ≡ some session_1)
      × (100 ≤ 500)
      × (is_revoked (dict_store.get "fam" db.families) ≡ false))
validate_backend_session_iff_example =
    validate_backend_session_iff dict_store toy_hash "access" 100 db session_1

abbrev looked : Db dict_store
looked = (validate_backend_session dict_store toy_hash "other" 100 dead_db).0

looked-Reach : Reach dict_store "fam" toy_hash dead_db looked
looked-Reach = next here (validated "other" 100 dead_db)

revoked-access_refused_example :
    let (after, result) = validate_backend_session dict_store toy_hash "access" 200 looked in
    (dict_store.get (toy_hash "access") after.sessions ≡ none)
    × ((result ≡ err expired_access_token) ⊎ (result ≡ err invalid_access_token))
unfolding validate_backend_session insert lookup same_text
revoked-access_refused_example =
    revoked-access_refused dict_store toy_hash "fam" "access" 200 dead_db looked session_1
      dead_db-IsDead looked-Reach refl refl

-- What a rotation could answer.
abbrev answer : SessionResponse
answer = record {
  access_token = "access2";
  refresh_token = id_2 ++ ".s2";
  access_token_expires_at = 900_011;
  refresh_token_expires_at = 7_776_000_010;
  mfa_trusted = false;
  mfa_enabled = false;
  session_family_id = "fam";
}

revoked-refresh_refused_example :
    (rotate_backend_refresh_token dict_store toy_hash raw_1 none renewal looked).1 ≢ ok answer
unfolding validate_backend_session insert lookup same_text parse_refresh_token_id
revoked-refresh_refused_example =
    revoked-refresh_refused dict_store toy_hash "fam" raw_1 id_1 none renewal dead_db looked token_1
      answer dead_db-IsDead looked-Reach refl refl refl

rotation_succeeds :
    (rotate_backend_refresh_token dict_store toy_hash raw_1 none renewal db).1 ≡ ok answer
unfolding rotate_backend_refresh_token rotate_transaction rotate_checked write_rotation
    finish_rotation timing_safe_equal get_valid_active_access_session requires_mfa_for_refresh
    generate_refresh_token create_access_token_for_family build_session_response insert lookup
    same_text parse_refresh_token_id is_empty
rotation_succeeds = refl

rotation_is_single_use_example :
    let db' = (rotate_backend_refresh_token dict_store toy_hash raw_1 none renewal db).0 in
    let (db'', result) = rotate_backend_refresh_token dict_store toy_hash raw_1 none renewal db' in
    (result ≡ err reused_refresh_token) × (is_revoked (dict_store.get "fam" db''.families) ≡ true)
unfolding same_text
rotation_is_single_use_example =
    rotation_is_single_use dict_store toy_hash raw_1 id_1 token_1 family_1 db none none renewal
      renewal db-Presents rotation_succeeds (texts_differ id_2 id_1 refl)

abbrev locked_db : Db dict_store
locked_db = (rotate_backend_refresh_token dict_store toy_hash raw_1 none renewal used_db).0

reuse_locks_family_example :
    (rotate_backend_refresh_token dict_store toy_hash raw_1 none renewal locked_db).1 ≢ ok answer
unfolding rotate_backend_refresh_token rotate_transaction rotate_checked write_rotation
    finish_rotation timing_safe_equal get_valid_active_access_session requires_mfa_for_refresh
    generate_refresh_token create_access_token_for_family build_session_response insert lookup
    same_text parse_refresh_token_id is_empty
reuse_locks_family_example =
    reuse_locks_family dict_store toy_hash raw_1 id_1 (record token_1 { used_at = some 5 }) family_1
      used_db locked_db none renewal raw_1 id_1 none renewal (record token_1 { used_at = some 5 })
      answer used_db-Presents refl here refl refl refl

abbrev options : CreateOptions
options = record {
  user_has_mfa = false;
  mfa_trusted = false;
  label = none;
  platform = none;
  device_id = some "phone";
  sweep_stale_families = true;
}

abbrev fresh : Fresh
fresh = record {
  family_id = "new";
  token_id = id_2;
  token_secret = "s2";
  access_token = "access2";
  now = 10;
  later = 11;
}

created_session_is_valid_example :
    (s : Session) × ((validate_backend_session dict_store toy_hash "access2" 100
        (create_backend_session dict_store toy_hash "user" options fresh db).0).1
      ≡ ok s)
    × (s.user_id ≡ "user")
    × (s.refresh_token_family_id ≡ "new")
    × (fresh.family_id ≡ "new")
unfolding create_backend_session create_for_device commit_family new_family build_session_response
    generate_refresh_token create_access_token_for_family normalize_device_id sweep_devices
    delete_stale_device_families
created_session_is_valid_example =
    created_session_is_valid dict_store toy_hash "user" options fresh db 100
      {r = record {
        access_token = "access2";
        refresh_token = id_2 ++ ".s2";
        access_token_expires_at = 900_011;
        refresh_token_expires_at = 7_776_000_010;
        mfa_trusted = false;
        mfa_enabled = false;
        session_family_id = "new";
      }}
      refl (omega arith)
