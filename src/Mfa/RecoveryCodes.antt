-- ===== src/Mfa/RecoveryCodes.antt =====
-- The recovery codes (apps/server/src/features/mfa/application/mfaRecoveryCodes.ts). The codes that a
-- call would generate are an argument.
use purrivacy_app.Prelude.{
  ℕ, zero, suc, String, Bool, true, false, Option, none, some, List, [], ◌∷◌, map, length, leb,
  same_text, if◌then◌else◌, ◌==◌,
}
use purrivacy_app.Server.Documents.{DocumentStore}
use purrivacy_app.Server.Errors.{Result, ok, err, mfa_not_enabled}
use purrivacy_app.Mfa.Types.{MfaSecurity, MfaDb, auto_regenerate_threshold, get_user_mfa_state}

-- `Array.isArray(codes) ? codes : []`
unfoldable pub codes_of : MfaSecurity → List String
codes_of security = elim security.mfa_recovery_codes [ none ↦ [] | some codes ↦ codes ]

shift : Option ℕ → Option ℕ
shift none = none
shift (some i) = some (suc i)

-- `indexOf`, with `none` for -1
unfoldable pub index_of : String → List String → Option ℕ
unfolding shift
index_of code [] = none
index_of code (c ∷ cs) = if same_text c code then some 0 else shift (index_of code cs)

-- `splice(index, 1)`
unfoldable pub splice {ℓ} : {A : Type ℓ} → ℕ → List A → List A
splice i [] = []
splice zero (x ∷ xs) = xs
splice (suc i) (x ∷ xs) = x ∷ splice i xs

module _ (D : DocumentStore) (sha256 : String → String) where
  -- `transaction.update` of the codes
  unfoldable pub put_codes : String → MfaSecurity → List String → MfaDb D → MfaDb D
  put_codes user_id security codes db = record db {
    security = D.put user_id (record security { mfa_recovery_codes = some codes }) db.security;
  }

  -- The transaction from the code's index on.
  unfoldable pub consume_at :
      Option ℕ
      → String
      → MfaSecurity
      → List String
      → MfaDb D
      → MfaDb D × Bool × Option (List String)
  unfolding put_codes splice codes_of
  consume_at none user_id security fresh db = (db, false, none)
  consume_at (some i) user_id security fresh db =
      let updated = splice i (codes_of security) in
      if leb (length updated) auto_regenerate_threshold
      then (put_codes user_id security (map sha256 fresh) db, true, some fresh)
      else (put_codes user_id security updated db, true, none)

  consume_found :
      Option MfaSecurity
      → String
      → String
      → List String
      → MfaDb D
      → MfaDb D × Bool × Option (List String)
  unfolding consume_at index_of codes_of
  consume_found none user_id hash fresh db = (db, false, none)
  consume_found (some security) user_id hash fresh db =
      if length (codes_of security) == 0
      then (db, false, none)
      else consume_at (index_of hash (codes_of security)) user_id security fresh db

  consume_enabled :
      Result Bool
      → String
      → String
      → List String
      → MfaDb D
      → MfaDb D × Result (Bool × Option (List String))
  unfolding consume_found
  consume_enabled (err e) user_id code fresh db = (db, err e)
  consume_enabled (ok enabled) user_id code fresh db =
      if enabled
      then (let (db', valid, codes) =
            consume_found (D.get user_id db.security) user_id (sha256 code) fresh db in
          (db', ok (valid, codes)))
      else (db, ok (false, none))

  -- `verifyAndConsumeRecoveryCode`
  unfoldable pub verify_and_consume_recovery_code :
      String → String → List String → MfaDb D → MfaDb D × Result (Bool × Option (List String))
  unfolding consume_enabled get_user_mfa_state
  verify_and_consume_recovery_code user_id code fresh db =
      consume_enabled (get_user_mfa_state D user_id db) user_id code fresh db

  regenerate_found :
      Option MfaSecurity → String → List String → MfaDb D → MfaDb D × Result (List String)
  unfolding put_codes
  regenerate_found none user_id fresh db = (db, err mfa_not_enabled)
  regenerate_found (some security) user_id fresh db =
      (put_codes user_id security (map sha256 fresh) db, ok fresh)

  regenerate_enabled : Result Bool → String → List String → MfaDb D → MfaDb D × Result (List String)
  unfolding regenerate_found
  regenerate_enabled (err e) user_id fresh db = (db, err e)
  regenerate_enabled (ok enabled) user_id fresh db =
      if enabled
      then regenerate_found (D.get user_id db.security) user_id fresh db
      else (db, err mfa_not_enabled)

  -- `regenerateMfaRecoveryCodes`
  unfoldable pub regenerate_mfa_recovery_codes :
      String → List String → MfaDb D → MfaDb D × Result (List String)
  unfolding regenerate_enabled get_user_mfa_state
  regenerate_mfa_recovery_codes user_id fresh db =
      regenerate_enabled (get_user_mfa_state D user_id db) user_id fresh db

module _ (D : DocumentStore) where
  remaining : Option MfaSecurity → ℕ
  unfolding codes_of
  remaining none = 0
  remaining (some security) = length (codes_of security)

  remaining_enabled : Result Bool → String → MfaDb D → Result ℕ
  unfolding remaining
  remaining_enabled (err e) user_id db = err e
  remaining_enabled (ok enabled) user_id db =
      if enabled then ok (remaining (D.get user_id db.security)) else ok 0

  -- `getRemainingMfaRecoveryCodes`
  unfoldable pub get_remaining_mfa_recovery_codes : String → MfaDb D → Result ℕ
  unfolding remaining_enabled get_user_mfa_state
  get_remaining_mfa_recovery_codes user_id db =
      remaining_enabled (get_user_mfa_state D user_id db) user_id db
