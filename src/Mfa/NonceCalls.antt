-- ===== src/Mfa/NonceCalls.antt =====
-- What later requests do to a nonce that was consumed
-- (apps/server/src/features/mfa/application/mfaSetupNonce.ts, mfaRecoveryCodes.ts, verifyMfaCode.ts and
-- expiredMfaSetupCleanup.ts).
use mathlib.Core.Path.{subst}
use purrivacy_app.Prelude.{
  ℕ, String, ◌≡◌, ◌≢◌, refl, sym, Bool, true, Option, none, some, List, [], ◌∷◌, same_text_iff,
  arith, Option-cases, inl, inr,
}
use purrivacy_app.Server.Documents.{DocumentStore}
use purrivacy_app.Server.Errors.{Result, ok, err, mfa_setup_nonce}
use purrivacy_app.Server.Text.{trim}
use purrivacy_app.Session.Types.{Family, is_set}
use purrivacy_app.Mfa.Types.{NonceRecord, MfaDb}
use purrivacy_app.Mfa.RecoveryCodes.{
  put_codes, consume_at, verify_and_consume_recovery_code, regenerate_mfa_recovery_codes,
}
use purrivacy_app.Mfa.Verify.{verify_mfa_code}
use purrivacy_app.Mfa.SetupNonce.{
  drop_codes, new_nonce, mint_proved, assert_family_fresh_or_mfa_proved, mint_mfa_setup_nonce,
  consume_mfa_setup_nonce,
}

-- A request, with its arguments and times, or the deletion of a nonce's document by the clean-up.
pub data NonceCall (D : DocumentStore) : Type 0 where
  mint :
      D.Collection Family
      → String
      → String
      → Option String
      → List String
      → String
      → ℕ
      → ℕ
      → NonceCall D
  consume : String → String → String → ℕ → ℕ → NonceCall D
  verify : String → Bool → Option String → List String → NonceCall D
  regenerate : String → List String → NonceCall D
  clean_up : String → NonceCall D

module _ (D : DocumentStore) (sha256 : String → String)
    (decrypt : String → String → String → Result String)
    (verify_totp : String → String → Bool) where
  unfoldable pub serve_call : NonceCall D → MfaDb D → MfaDb D
  serve_call (mint families user_id family_id code fresh nonce proved now) db =
      (mint_mfa_setup_nonce D sha256 decrypt verify_totp families user_id family_id code fresh nonce
        proved now db).0
  serve_call (consume user_id family_id nonce now later) db =
      (consume_mfa_setup_nonce D sha256 user_id family_id nonce now later db).0
  serve_call (verify user_id is_sensitive code fresh) db =
      (verify_mfa_code D sha256 decrypt verify_totp user_id is_sensitive code fresh db).0
  serve_call (regenerate user_id fresh) db =
      (regenerate_mfa_recovery_codes D sha256 user_id fresh db).0
  serve_call (clean_up hash) db = record db { nonces = D.delete hash db.nonces }

  unfoldable pub serve_calls : List (NonceCall D) → MfaDb D → MfaDb D
  unfolding serve_call
  serve_calls [] db = db
  serve_calls (call ∷ calls) db = serve_calls calls (serve_call call db)

  -- No request mints a nonce with this hash.
  abbrev pub NeverMints : String → List (NonceCall D) → Type 0
  NeverMints hash [] = Unit {0}
  NeverMints hash (mint families user_id family_id code fresh nonce proved now ∷ calls) =
      (sha256 nonce ≢ hash) × NeverMints hash calls
  NeverMints hash (consume user_id family_id nonce now later ∷ calls) = NeverMints hash calls
  NeverMints hash (verify user_id is_sensitive code fresh ∷ calls) = NeverMints hash calls
  NeverMints hash (regenerate user_id fresh ∷ calls) = NeverMints hash calls
  NeverMints hash (clean_up other ∷ calls) = NeverMints hash calls

  -- A code that is verified, and codes that are generated again, leave the nonces alone.
  recovery-nonces :
      (user_id code : String) (fresh : List String) (db : MfaDb D)
      → (verify_and_consume_recovery_code D sha256 user_id code fresh db).0.nonces ≡ db.nonces
  unfolding verify_and_consume_recovery_code consume_at put_codes
  recovery-nonces user_id code fresh db = ground arith

  verify-nonces :
      (user_id : String) (is_sensitive : Bool) (code : Option String) (fresh : List String)
      (db : MfaDb D)
      → (verify_mfa_code D sha256 decrypt verify_totp user_id is_sensitive code fresh db).0.nonces
        ≡ db.nonces
  unfolding verify_mfa_code
  verify-nonces user_id is_sensitive none fresh db = refl
  verify-nonces user_id is_sensitive (some code) fresh db =
      ground (arith, recovery-nonces user_id (trim code) fresh db)

  regenerate-nonces :
      (user_id : String) (fresh : List String) (db : MfaDb D)
      → (regenerate_mfa_recovery_codes D sha256 user_id fresh db).0.nonces ≡ db.nonces
  unfolding regenerate_mfa_recovery_codes put_codes
  regenerate-nonces user_id fresh db = ground arith

  drop_codes-nonces :
      (n : D.Collection NonceRecord) (x : MfaDb D × Result (Option (List String)))
      → x.0.nonces ≡ n
      → (drop_codes D x).0.nonces ≡ n
  unfolding drop_codes
  drop_codes-nonces n (db, err e) h = h
  drop_codes-nonces n (db, ok codes) h = h

  proof-nonces :
      (families : D.Collection Family) (user_id family_id : String) (code : Option String)
      (fresh : List String) (proved : ℕ) (db : MfaDb D)
      → (assert_family_fresh_or_mfa_proved D families user_id family_id
          (λ d.
            drop_codes D (verify_mfa_code D sha256 decrypt verify_totp user_id true code fresh d))
          proved
          db).0.nonces
        ≡ db.nonces
  unfolding assert_family_fresh_or_mfa_proved
  proof-nonces families user_id family_id code fresh proved db =
      let kept =
        drop_codes-nonces db.nonces
          (verify_mfa_code D sha256 decrypt verify_totp user_id true code fresh db)
          (verify-nonces user_id true code fresh db) in
      ground (arith, kept)

  -- The nonce with this hash was consumed, or its document is gone.
  abbrev pub IsSpent : String → D.Collection NonceRecord → Type 0
  IsSpent hash nonces = (n : NonceRecord) → D.get hash nonces ≡ some n → is_set n.consumed_at ≡ true

  mint_proved-IsSpent :
      (hash user_id family_id nonce : String) (now : ℕ) (x : MfaDb D × Result (Unit {0}))
      → sha256 nonce ≢ hash
      → IsSpent hash x.0.nonces
      → IsSpent hash (mint_proved D sha256 user_id family_id nonce now x).0.nonces
  unfolding mint_proved
  mint_proved-IsSpent hash user_id family_id nonce now (db, err e) differs spent = spent
  mint_proved-IsSpent hash user_id family_id nonce now (db, ok u) differs spent = λ n found.
      spent n (
        ground (
          arith,
          found,
          differs,
          D.get-put (sha256 nonce) hash (new_nonce user_id family_id now) db.nonces,
          same_text_iff (sha256 nonce) hash,
        ))

  consume-IsSpent :
      (hash user_id family_id nonce : String) (now later : ℕ) (db : MfaDb D)
      → IsSpent hash db.nonces
      → IsSpent hash
          (consume_mfa_setup_nonce D sha256 user_id family_id nonce now later db).0.nonces
  unfolding consume_mfa_setup_nonce
  consume-IsSpent hash user_id family_id nonce now later db spent n found =
      elim (Option-cases (D.get (sha256 nonce) db.nonces)) [
        | inl absent ↦ spent n (ground (arith, found, absent))
        | inr (r, at) ↦ ground (
          arith,
          found,
          at,
          spent n,
          spent r,
          D.get-put (sha256 nonce) hash (record r { consumed_at = some later }) db.nonces,
          same_text_iff (sha256 nonce) hash,
        )
      ]

  clean_up-IsSpent :
      (hash other : String) (nonces : D.Collection NonceRecord)
      → IsSpent hash nonces
      → IsSpent hash (D.delete other nonces)
  clean_up-IsSpent hash other nonces spent n found =
      ground (arith, found, spent n, D.get-delete other hash nonces)

  pub serve_calls-IsSpent :
      (hash : String) (calls : List (NonceCall D)) (db : MfaDb D)
      → NeverMints hash calls
      → IsSpent hash db.nonces
      → IsSpent hash (serve_calls calls db).nonces
  unfolding serve_calls mint_mfa_setup_nonce
  serve_calls-IsSpent hash [] db never spent = spent
  serve_calls-IsSpent hash (mint families user_id family_id code fresh nonce proved now ∷ calls) db
        (differs, never) spent =
      serve_calls-IsSpent hash calls _ never (
        mint_proved-IsSpent hash user_id family_id nonce now _ differs (
          subst (IsSpent hash) (sym (proof-nonces families user_id family_id code fresh proved db))
            spent))
  serve_calls-IsSpent hash (consume user_id family_id nonce now later ∷ calls) db never spent =
      serve_calls-IsSpent hash calls _ never
        (consume-IsSpent hash user_id family_id nonce now later db spent)
  serve_calls-IsSpent hash (verify user_id is_sensitive code fresh ∷ calls) db never spent =
      serve_calls-IsSpent hash calls _ never
        (subst (IsSpent hash) (sym (verify-nonces user_id is_sensitive code fresh db)) spent)
  serve_calls-IsSpent hash (regenerate user_id fresh ∷ calls) db never spent =
      serve_calls-IsSpent hash calls _ never
        (subst (IsSpent hash) (sym (regenerate-nonces user_id fresh db)) spent)
  serve_calls-IsSpent hash (clean_up other ∷ calls) db never spent =
      serve_calls-IsSpent hash calls _ never (clean_up-IsSpent hash other db.nonces spent)

  -- A spent nonce is refused, and nothing changes.
  pub spent_nonce_refused :
      (user_id family_id nonce : String) (now later : ℕ) (db : MfaDb D)
      → IsSpent (sha256 nonce) db.nonces
      → consume_mfa_setup_nonce D sha256 user_id family_id nonce now later db
        ≡ (db, err mfa_setup_nonce)
  unfolding consume_mfa_setup_nonce
  spent_nonce_refused user_id family_id nonce now later db spent =
      elim (Option-cases (D.get (sha256 nonce) db.nonces)) [
        | inl absent ↦ ground (arith, absent)
        | inr (n, found) ↦ ground (arith, found, spent n found)
      ]
