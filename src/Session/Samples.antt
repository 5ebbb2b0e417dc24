-- ===== src/Session/Samples.antt =====
-- A user, a device and the documents of one session, with an association list for the database and a
-- concrete function for the hash (apps/server/src/features/session/application).
use Prim.Native.String.{◌++◌}
use purrivacy_app.Prelude.{refl, String, false, none, some, same_text}
use purrivacy_app.Prelude.Dict.{lookup, insert}
use purrivacy_app.Server.DictStore.{empty, dict_store}
use purrivacy_app.Server.Text.{is_empty}
use purrivacy_app.Session.Types.{Session, Family, RefreshToken, Db}
use purrivacy_app.Session.Tokens.{parse_refresh_token_id}
use purrivacy_app.Session.Rotate.{Renewal}
use purrivacy_app.Session.Validate.{is_revoked}
use purrivacy_app.Session.Dead.{IsDead}
use purrivacy_app.Session.Reuse.{Presents}

abbrev pub toy_hash : String → String
toy_hash s = "#" ++ s

abbrev pub id_1 : String
id_1 = "0123456789abcdef0123456789abcdef0123456789abcdef0123456789abcdef"

abbrev pub id_2 : String
id_2 = "1123456789abcdef0123456789abcdef0123456789abcdef0123456789abcdef"

abbrev pub raw_1 : String
raw_1 = id_1 ++ ".s1"

abbrev pub family_1 : Family
family_1 = record {
  family_id = "fam";
  user_id = "user";
  device_id = none;
  created_at = 0;
  last_used_at = 0;
  expires_at = 1_000;
  revoked_at = none;
  user_has_mfa = false;
  mfa_trusted = false;
  mfa_verified_at = none;
  label = none;
  platform = none;
}

abbrev pub token_1 : RefreshToken
token_1 = record {
  token_id = id_1;
  family_id = "fam";
  user_id = "user";
  token_hash = toy_hash raw_1;
  created_at = 0;
  expires_at = 1_000;
  used_at = none;
  revoked_at = none;
  replaced_by_token_id = none;
}

abbrev pub session_1 : Session
session_1 = record {
  access_token_hash = toy_hash "access";
  user_id = "user";
  refresh_token_family_id = "fam";
  created_at = 0;
  expires_at = 500;
  user_has_mfa = false;
}

abbrev pub with_family : Family → RefreshToken → Db dict_store
with_family f t = record {
  sessions = dict_store.put (toy_hash "access") session_1 empty;
  families = dict_store.put "fam" f empty;
  tokens = dict_store.put id_1 t empty;
}

abbrev pub db : Db dict_store
db = with_family family_1 token_1

abbrev pub used_db : Db dict_store
used_db = with_family family_1 (record token_1 { used_at = some 5 })

abbrev pub dead_db : Db dict_store
dead_db = with_family (record family_1 { revoked_at = some 7 }) token_1

abbrev pub renewal : Renewal
renewal = record {
  token_id = id_2;
  token_secret = "s2";
  access_token = "access2";
  now = 10;
  later = 11;
}

pub db-Presents : Presents dict_store toy_hash raw_1 id_1 token_1 family_1 db
unfolding insert lookup same_text parse_refresh_token_id is_empty
db-Presents = record {
  parsed = refl;
  nonempty = refl;
  stored = refl;
  hashed = refl;
  hash_nonempty = refl;
  family = refl;
}

pub used_db-Presents :
    Presents dict_store toy_hash raw_1 id_1 (record token_1 { used_at = some 5 }) family_1 used_db
unfolding insert lookup same_text parse_refresh_token_id is_empty
used_db-Presents = record {
  parsed = refl;
  nonempty = refl;
  stored = refl;
  hashed = refl;
  hash_nonempty = refl;
  family = refl;
}

pub dead_db-IsDead : IsDead dict_store "fam" dead_db
unfolding insert lookup same_text is_revoked
dead_db-IsDead = record { revoked = refl }
