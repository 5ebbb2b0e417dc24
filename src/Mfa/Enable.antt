-- ===== src/Mfa/Enable.antt =====
-- Enabling and disabling (apps/server/src/features/mfa/application/enableMfa.ts, disableMfa.ts,
-- setupMfa.ts and MfaSessionService.ts). The notifications, which never fail and change none of these
-- documents, are left out. The write to a user's document is the one of `queueMfaEnabledUpdate`, which
-- fails for a user without a document. The secret and the codes that set-up generates are arguments.
use Prim.Native.String.{String}
use purrivacy_app.Prelude.{
  ℕ, ◌+◌, ◌*◌, Bool, true, false, not, ◌&&◌, Option, none, some, List, [], ◌∷◌, ltb, ◌==◌,
  if◌then◌else◌,
}
use purrivacy_app.Server.Documents.{DocumentStore}
use purrivacy_app.Server.Errors.{
  AppError, auth_error, wrong_mfa_code, mfa_required, bad_request, not_found, other_error,
  mfa_setup_expired, mfa_already_enabled, Result, ok, err,
}
use purrivacy_app.Server.Text.{text_length, all_chars}
use purrivacy_app.Mfa.Types.{MfaSecurity, MfaDb, get_user_mfa_state}
use purrivacy_app.Mfa.SetupNonce.{consume_mfa_setup_nonce}
use purrivacy_app.Mfa.Verify.{is_digit, verify_mfa_code}

abbrev pub mfa_setup_expiry_minutes : ℕ
mfa_setup_expiry_minutes = 10

-- The document of a set-up
pub record SetupDoc : Type 0 where
  pub encrypted_secret : String
  pub iv : String
  pub tag : String
  pub hashed_recovery_codes : List String
  pub expires_at : ℕ

-- The set-up documents, by user id, and the other ones
pub record SetupDb (D : DocumentStore) : Type 0 where
  pub setups : D.Collection SetupDoc
  pub mfa : MfaDb D

-- `/^\d{6}$/`
unfoldable pub is_totp_code : String → Bool
unfolding is_digit text_length all_chars
is_totp_code code = text_length code == 6 && all_chars is_digit code

unfoldable pub invalid_mfa_code : AppError
invalid_mfa_code = auth_error (wrong_mfa_code ∷ mfa_required ∷ []) 403

unfoldable pub security_of : SetupDoc → MfaSecurity
security_of setup = record {
  mfa_secret = setup.encrypted_secret;
  mfa_secret_iv = setup.iv;
  mfa_secret_tag = setup.tag;
  mfa_recovery_codes = some setup.hashed_recovery_codes;
}

module _ (D : DocumentStore) where
  -- The batch of `disableMfa`
  unfoldable pub disable_batch : String → Option Bool → SetupDb D → SetupDb D × Result (Unit {0})
  disable_batch user_id none db = (db, err other_error)
  disable_batch user_id (some enabled) db = (
    record db {
      mfa = record db.mfa {
        users = D.put user_id false db.mfa.users;
        security = D.delete user_id db.mfa.security;
      };
    },
    ok tt,
  )

  -- `disableMfa`
  unfoldable pub disable_mfa : String → SetupDb D → SetupDb D × Result (Unit {0})
  unfolding disable_batch
  disable_mfa user_id db = disable_batch user_id (D.get user_id db.mfa.users) db

  -- The batch of `verifyAndEnableMfa`, and the deletion of the set-up's document
  unfoldable pub enable_batch :
      String → SetupDoc → Option Bool → SetupDb D → SetupDb D × Result (Unit {0})
  unfolding security_of
  enable_batch user_id setup none db = (db, err other_error)
  enable_batch user_id setup (some before) db = (
    record db {
      setups = D.delete user_id db.setups;
      mfa = record db.mfa {
        users = D.put user_id true db.mfa.users;
        security = D.put user_id (security_of setup) db.mfa.security;
      };
    },
    ok tt,
  )

  unfoldable pub enable_checked :
      String → SetupDoc → (valid : Result Bool) → SetupDb D → SetupDb D × Result (Unit {0})
  unfolding enable_batch invalid_mfa_code
  enable_checked user_id setup (err e) db = (db, err e)
  enable_checked user_id setup (ok false) db = (db, err invalid_mfa_code)
  enable_checked user_id setup (ok true) db =
      enable_batch user_id setup (D.get user_id db.mfa.users) db

module _ (D : DocumentStore) (sha256 : String → String)
    (decrypt : String → String → String → Result String)
    (verify_totp : String → String → Bool) where
  -- `verifyMfaTotp` of the decrypted secret
  unfoldable pub check_totp : Result String → String → Result Bool
  check_totp (err e) code = err e
  check_totp (ok secret) code = ok (verify_totp secret code)

  unfoldable pub enable_found :
      String → String → ℕ → Option SetupDoc → SetupDb D → SetupDb D × Result (Unit {0})
  unfolding enable_checked check_totp is_totp_code
  enable_found user_id code now none db = (db, err not_found)
  enable_found user_id code now (some setup) db =
      if ltb setup.expires_at now
      then (record db { setups = D.delete user_id db.setups }, err mfa_setup_expired)
      else if not (is_totp_code code)
      then (db, err bad_request)
      else enable_checked D user_id setup
          (check_totp (decrypt setup.encrypted_secret setup.iv setup.tag) code) db

  -- `verifyAndEnableMfa`
  unfoldable pub verify_and_enable_mfa :
      String → String → ℕ → SetupDb D → SetupDb D × Result (Unit {0})
  unfolding enable_found
  verify_and_enable_mfa user_id code now db =
      enable_found user_id code now (D.get user_id db.setups) db

  unfoldable pub with_mfa :
      SetupDb D → MfaDb D × Result (Option (List String)) → SetupDb D × Result (Unit {0})
  with_mfa db (mfa', err e) = (record db { mfa = mfa' }, err e)
  with_mfa db (mfa', ok codes) = (record db { mfa = mfa' }, ok tt)

  unfoldable pub apply_enable_from :
      Result Bool
      → String
      → String
      → Bool
      → List String
      → ℕ
      → SetupDb D
      → SetupDb D × Result (Unit {0})
  unfolding verify_and_enable_mfa with_mfa verify_mfa_code
  apply_enable_from (err e) user_id code is_resume fresh now db = (db, err e)
  apply_enable_from (ok mfa_enabled) user_id code is_resume fresh now db =
      if is_resume && mfa_enabled
      then with_mfa db
          (verify_mfa_code D sha256 decrypt verify_totp user_id true (some code) fresh db.mfa)
      else verify_and_enable_mfa user_id code now db

  -- `applyMfaState` of `enableMfaAndCreateSession`; `fresh` are the recovery codes that a regeneration
  -- would generate
  unfoldable pub apply_enable :
      String → String → Bool → List String → ℕ → SetupDb D → SetupDb D × Result (Unit {0})
  unfolding apply_enable_from get_user_mfa_state
  apply_enable user_id code is_resume fresh now db =
      apply_enable_from (get_user_mfa_state D user_id db.mfa) user_id code is_resume fresh now db

-- The set-up of `setupMfa` from a generated secret, encrypted, and the hashes of the recovery codes
unfoldable pub new_setup : (secret iv tag : String) → List String → ℕ → SetupDoc
new_setup secret nonce mac hashes now = record {
  encrypted_secret = secret;
  iv = nonce;
  tag = mac;
  hashed_recovery_codes = hashes;
  expires_at = now + mfa_setup_expiry_minutes * 60 * 1000;
}

module _ (D : DocumentStore) (sha256 : String → String) where
  -- What follows the nonce; `account` is the answer of the user's account
  unfoldable pub setup_proved :
      String
      → Result (Unit {0})
      → SetupDoc
      → SetupDb D
      → MfaDb D × Result (Unit {0})
      → SetupDb D × Result (Unit {0})
  setup_proved user_id account setup db (mfa', err e) = (record db { mfa = mfa' }, err e)
  setup_proved user_id (err e) setup db (mfa', ok u) = (record db { mfa = mfa' }, err e)
  setup_proved user_id (ok v) setup db (mfa', ok u) =
      (record db { mfa = mfa'; setups = D.put user_id setup db.setups }, ok tt)

  unfoldable pub setup_from :
      Result Bool
      → String
      → String
      → String
      → Result (Unit {0})
      → SetupDoc
      → (now later : ℕ) → SetupDb D
      → SetupDb D × Result (Unit {0})
  unfolding setup_proved consume_mfa_setup_nonce
  setup_from (err e) user_id family_id nonce account setup now later db = (db, err e)
  setup_from (ok true) user_id family_id nonce account setup now later db =
      (db, err mfa_already_enabled)
  setup_from (ok false) user_id family_id nonce account setup now later db =
      setup_proved user_id account setup db
        (consume_mfa_setup_nonce D sha256 user_id family_id nonce now later db.mfa)

  -- `setupMfa`, with a nonce that is a text
  unfoldable pub setup_mfa :
      String
      → String
      → String
      → Result (Unit {0})
      → SetupDoc
      → (now later : ℕ) → SetupDb D
      → SetupDb D × Result (Unit {0})
  unfolding setup_from get_user_mfa_state
  setup_mfa user_id family_id nonce account setup now later db =
      setup_from (get_user_mfa_state D user_id db.mfa) user_id family_id nonce account setup now
        later db
