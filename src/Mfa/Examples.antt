-- ===== src/Mfa/Examples.antt =====
-- The MFA properties at a concrete user (apps/server/src/features/mfa/application).
use Prim.Native.String.{◌++◌}
use purrivacy_app.Prelude.{
  ◌≡◌, refl, String, Bool, true, false, none, some, List, [], ◌∷◌, same_text,
}
use purrivacy_app.Prelude.Dict.{lookup, insert}
use purrivacy_app.Server.DictStore.{Keyed, empty, dict_store}
use purrivacy_app.Server.Errors.{Result, ok, err, mfa_setup_nonce}
use purrivacy_app.Session.Types.{Family}
use purrivacy_app.Mfa.Types.{MfaSecurity, MfaDb}
use purrivacy_app.Mfa.RecoveryCodes.{
  codes_of, index_of, splice, put_codes, consume_at, verify_and_consume_recovery_code,
}
use purrivacy_app.Mfa.SetupNonce.{consume_mfa_setup_nonce}
use purrivacy_app.Mfa.SingleUse.{recovery_code_is_single_use}
use purrivacy_app.Mfa.NonceCalls.{
  NonceCall, mint, consume, verify, regenerate, clean_up, serve_calls,
}
use purrivacy_app.Mfa.Nonces.{nonce_is_single_use}

abbrev toy_hash : String → String
toy_hash s = "#" ++ s

abbrev security : MfaSecurity
security = record {
  mfa_secret = "secret";
  mfa_secret_iv = "iv";
  mfa_secret_tag = "tag";
  mfa_recovery_codes = some ("#A" ∷ "#B" ∷ "#C" ∷ "#D" ∷ []);
}

abbrev ten_codes : List String
ten_codes = "0" ∷ "1" ∷ "2" ∷ "3" ∷ "4" ∷ "5" ∷ "6" ∷ "7" ∷ "8" ∷ "9" ∷ []

abbrev raw_nonce : String
raw_nonce = "0123456789abcdef0123456789abcdef"

abbrev db : MfaDb dict_store
db = record {
  users = dict_store.put "user" true empty;
  security = dict_store.put "user" security empty;
  nonces = empty;
}

abbrev nonce_db : MfaDb dict_store
nonce_db = record db {
  nonces =
      dict_store.put (toy_hash raw_nonce)
        (record {
          user_id = "user";
          session_family_id = "fam";
          created_at = 0;
          expires_at = 300_000;
          consumed_at = none;
        })
        empty;
}

abbrev families : Keyed Family
families =
    dict_store.put "fam"
      (record {
        family_id = "fam";
        user_id = "user";
        device_id = none;
        created_at = 0;
        last_used_at = 0;
        expires_at = 1_000_000;
        revoked_at = none;
        user_has_mfa = true;
        mfa_trusted = false;
        mfa_verified_at = none;
        label = none;
        platform = none;
      })
      empty

recovery_code_is_single_use_example :
    (verify_and_consume_recovery_code dict_store toy_hash "user" "B" ten_codes
      (verify_and_consume_recovery_code dict_store toy_hash "user" "B" ten_codes db).0).1
    ≡ ok (false, none)
unfolding verify_and_consume_recovery_code consume_at put_codes splice codes_of index_of insert
    lookup same_text
recovery_code_is_single_use_example =
    recovery_code_is_single_use dict_store toy_hash "user" "B" ten_codes ten_codes db security refl
      refl (refl, (refl, (refl, (refl, tt)))) refl

abbrev no_secret : String → String → String → Result String
no_secret a b c = ok a

abbrev no_totp : String → String → Bool
no_totp secret code = false

abbrev one_code : String → String → Bool
one_code secret code = same_text code "123456"

abbrev later_calls : List (NonceCall dict_store)
later_calls =
    consume "user" "fam" raw_nonce 12 13
    ∷ clean_up (toy_hash "other")
    ∷ mint families "user" "fam" none [] "another" 14 15
    ∷ verify "user" true (some "B") ten_codes
    ∷ regenerate "user" ten_codes
    ∷ []

nonce_is_single_use_example :
    let db' =
      serve_calls dict_store toy_hash no_secret no_totp later_calls
        (consume_mfa_setup_nonce dict_store toy_hash "user" "fam" raw_nonce 10 11 nonce_db).0 in
    consume_mfa_setup_nonce dict_store toy_hash "user" "fam" raw_nonce 20 21 db'
    ≡ (db', err mfa_setup_nonce)
unfolding consume_mfa_setup_nonce insert lookup same_text
nonce_is_single_use_example =
    nonce_is_single_use dict_store toy_hash no_secret no_totp "user" "fam" raw_nonce "user" "fam" 10
      11 20 21 later_calls nonce_db refl (λ e. cc e, tt)
