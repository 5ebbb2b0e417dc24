-- ===== src/Mfa/SetupNonce.antt =====
-- The single-use proof of fresh authentication
-- (apps/server/src/features/mfa/application/mfaSetupNonce.ts). The random nonce and the clock are
-- arguments; the notification is left out.
use purrivacy_app.Prelude.{
  ℕ, ◌+◌, String, Bool, true, not, ◌||◌, Option, none, some, ltb, leb, ◌-◌, same_text,
  if◌then◌else◌, List,
}
use purrivacy_app.Server.Documents.{DocumentStore}
use purrivacy_app.Server.Errors.{Result, ok, err, mfa_setup_nonce, fresh_auth_required}
use purrivacy_app.Server.Text.{text_length}
use purrivacy_app.Session.Types.{Family, is_set}
use purrivacy_app.Session.Families.{invalid_session}
use purrivacy_app.Mfa.Types.{
  NonceRecord, MfaDb, mfa_setup_nonce_ttl_ms, fresh_session_window_ms, mfa_setup_nonce_min_length,
  mfa_setup_nonce_max_length, get_user_mfa_state,
}
use purrivacy_app.Mfa.Verify.{verify_mfa_code}

-- The nonce document that `mintMfaSetupNonce` writes.
unfoldable pub new_nonce : String → String → ℕ → NonceRecord
new_nonce user_id family_id now = record {
  user_id = user_id;
  session_family_id = family_id;
  created_at = now;
  expires_at = now + mfa_setup_nonce_ttl_ms;
  consumed_at = none;
}

module _ (D : DocumentStore) where
  prove_enabled :
      Result Bool → (MfaDb D → MfaDb D × Result (Unit {0})) → MfaDb D → MfaDb D × Result (Unit {0})
  prove_enabled (err e) verify db = (db, err e)
  prove_enabled (ok enabled) verify db =
      if enabled then verify db else (db, err fresh_auth_required)

  prove_found :
      Option Family
      → String
      → (MfaDb D → MfaDb D × Result (Unit {0}))
      → ℕ
      → MfaDb D
      → MfaDb D × Result (Unit {0})
  unfolding prove_enabled get_user_mfa_state
  prove_found none user_id verify now db = (db, err invalid_session)
  prove_found (some family) user_id verify now db =
      if not (same_text family.user_id user_id)
      then (db, err invalid_session)
      else if leb (now - family.created_at) fresh_session_window_ms
      then (db, ok tt)
      else prove_enabled (get_user_mfa_state D user_id db) verify db

  -- `assertFamilyFreshOrMfaProved`: `verify` is `verifyMfaCode` for the user and the given code. A
  -- family from the future has a negative age there and 0 here: both are fresh.
  unfoldable pub assert_family_fresh_or_mfa_proved :
      D.Collection Family
      → String
      → String
      → (MfaDb D → MfaDb D × Result (Unit {0}))
      → ℕ
      → MfaDb D
      → MfaDb D × Result (Unit {0})
  unfolding prove_found
  assert_family_fresh_or_mfa_proved families user_id family_id verify now db =
      prove_found (D.get family_id families) user_id verify now db

  unfoldable pub drop_codes : MfaDb D × Result (Option (List String)) → MfaDb D × Result (Unit {0})
  drop_codes (db, err e) = (db, err e)
  drop_codes (db, ok codes) = (db, ok tt)

module _ (D : DocumentStore) (sha256 : String → String) where
  unfoldable pub mint_proved :
      String → String → String → ℕ → MfaDb D × Result (Unit {0}) → MfaDb D × Result (String × ℕ)
  unfolding new_nonce
  mint_proved user_id family_id nonce now (db, err e) = (db, err e)
  mint_proved user_id family_id nonce now (db, ok u) = (
    record db { nonces = D.put (sha256 nonce) (new_nonce user_id family_id now) db.nonces },
    ok (nonce, now + mfa_setup_nonce_ttl_ms),
  )

  -- `mintMfaSetupNonce`: `proved` is the time of the proof, `now` the time of the nonce. New recovery
  -- codes that the check of the code gives are dropped.
  unfoldable pub mint_mfa_setup_nonce :
      (String → String → String → Result String)
      → (String → String → Bool)
      → D.Collection Family
      → String
      → String
      → Option String
      → List String
      → String
      → ℕ
      → ℕ
      → MfaDb D
      → MfaDb D × Result (String × ℕ)
  unfolding mint_proved assert_family_fresh_or_mfa_proved drop_codes
  mint_mfa_setup_nonce decrypt verify_totp families user_id family_id mfa_code fresh nonce proved
        now db =
      mint_proved user_id family_id nonce now (
        assert_family_fresh_or_mfa_proved D families user_id family_id
          (λ d.
            drop_codes D
              (verify_mfa_code D sha256 decrypt verify_totp user_id true mfa_code fresh d))
          proved db)

  consume_nonce :
      Option NonceRecord → String → String → String → ℕ → ℕ → MfaDb D → MfaDb D × Result (Unit {0})
  consume_nonce none user_id family_id hash now later db = (db, err mfa_setup_nonce)
  consume_nonce (some data') user_id family_id hash now later db =
      if not (same_text data'.user_id user_id) || not (same_text data'.session_family_id family_id)
      then (db, err mfa_setup_nonce)
      else if is_set data'.consumed_at
      then (db, err mfa_setup_nonce)
      else if leb data'.expires_at now
      then (db, err mfa_setup_nonce)
      else (
        record db { nonces = D.put hash (record data' { consumed_at = some later }) db.nonces },
        ok tt,
      )

  -- `consumeMfaSetupNonce` with a nonce that is a text: `now` and `later` are the times of the test and
  -- of the write
  unfoldable pub consume_mfa_setup_nonce :
      String → String → String → ℕ → ℕ → MfaDb D → MfaDb D × Result (Unit {0})
  unfolding consume_nonce text_length
  consume_mfa_setup_nonce user_id family_id nonce now later db =
      if ltb (text_length nonce) mfa_setup_nonce_min_length
        || ltb mfa_setup_nonce_max_length (text_length nonce)
      then (db, err mfa_setup_nonce)
      else consume_nonce (D.get (sha256 nonce) db.nonces) user_id family_id (sha256 nonce) now later
          db
