-- ===== src/Mfa/Enabling.antt =====
-- What enabling needs and leaves (apps/server/src/features/mfa/application/enableMfa.ts).
use mathlib.Core.Path.{subst}
use Prim.Native.String.{String}
use purrivacy_app.Prelude.{
  ℕ, ◌≡◌, refl, sym, ap, ◌∙◌, inl, inr, Bool, true, false, none, some, arith, ltb, same_text_iff,
  Bool-cases, Option-cases,
}
use purrivacy_app.Server.Documents.{DocumentStore}
use purrivacy_app.Server.Errors.{Result, ok, err, ok_injective}
use purrivacy_app.Mfa.Enable.{
  SetupDoc, SetupDb, is_totp_code, security_of, enable_batch, enable_checked, check_totp,
  enable_found, verify_and_enable_mfa,
}

module _ (D : DocumentStore) where
  -- The user's state after enabling
  abbrev pub IsEnabled : String → SetupDoc → SetupDb D → Type 0
  IsEnabled user_id setup db =
      (D.get user_id db.mfa.users ≡ some true)
      × (D.get user_id db.mfa.security ≡ some (security_of setup))
      × (D.get user_id db.setups ≡ none)

  batch-IsEnabled :
      (user_id : String) (setup : SetupDoc) (b : Bool) (db : SetupDb D)
      → IsEnabled user_id setup (enable_batch D user_id setup (some b) db).0
  unfolding enable_batch
  batch-IsEnabled user_id setup b db =
      let same = (same_text_iff user_id user_id).1 refl in
      (
        D.get-put user_id user_id true db.mfa.users ∙ rw same refl,
        D.get-put user_id user_id (security_of setup) db.mfa.security ∙ rw same refl,
        D.get-delete user_id user_id db.setups ∙ rw same refl,
      )

  checked_proof :
      (user_id code : String) (setup : SetupDoc) (valid : Result Bool) (db : SetupDb D)
      → (enable_checked D user_id setup valid db).1 ≡ ok tt
      → (valid ≡ ok true) × IsEnabled user_id setup (enable_checked D user_id setup valid db).0
  unfolding enable_checked enable_batch
  checked_proof user_id code setup (err e) db h = absurd (cc h)
  checked_proof user_id code setup (ok false) db h = absurd (cc h)
  checked_proof user_id code setup (ok true) db h =
      elim (Option-cases (D.get user_id db.mfa.users)) [
        | inl missing ↦ absurd (cc (h, missing))
        | inr (b, there) ↦ (refl, rw there (batch-IsEnabled user_id setup b db))
      ]

module _ (D : DocumentStore) (sha256 : String → String)
    (decrypt : String → String → String → Result String)
    (verify_totp : String → String → Bool) where
  -- The set-up is there and not expired, and the code is the one-time password of its secret.
  abbrev pub IsProved : String → String → ℕ → SetupDb D → SetupDoc → Type 0
  IsProved user_id code now db setup =
      (D.get user_id db.setups ≡ some setup)
      × (ltb setup.expires_at now ≡ false)
      × (is_totp_code code ≡ true)
      × ((secret : String) × (decrypt setup.encrypted_secret setup.iv setup.tag ≡ ok secret)
          × (verify_totp secret code ≡ true))

  totp_proof :
      (r : Result String) (code : String)
      → check_totp D sha256 decrypt verify_totp r code ≡ ok true
      → (secret : String) × (r ≡ ok secret) × (verify_totp secret code ≡ true)
  unfolding check_totp
  totp_proof (err e) code h = absurd (cc h)
  totp_proof (ok secret) code h = (secret, refl, ok_injective h)

  -- Enabling succeeds only for a set-up that is there and not expired and a code that is the one-time
  -- password of its secret, and then leaves the user enabled with that secret and those recovery codes and
  -- the set-up deleted.
  pub enabling_needs_proof :
      (user_id code : String) (now : ℕ) (db : SetupDb D)
      → (verify_and_enable_mfa D sha256 decrypt verify_totp user_id code now db).1 ≡ ok tt
      → (setup : SetupDoc) × IsProved user_id code now db setup
        × IsEnabled D user_id setup
            (verify_and_enable_mfa D sha256 decrypt verify_totp user_id code now db).0
  unfolding verify_and_enable_mfa enable_found check_totp
  enabling_needs_proof user_id code now db h = elim (Option-cases (D.get user_id db.setups)) [
    | inl missing ↦ absurd (ground (arith, h, missing))
    | inr (setup, there) ↦ elim (Bool-cases (ltb setup.expires_at now)) [
      | inl expired ↦ absurd (ground (arith, h, there, expired))
      | inr fresh ↦ elim (Bool-cases (is_totp_code code)) [
        | inr no_code ↦ absurd (ground (arith, h, there, fresh, no_code))
        | inl is_code ↦
            let totp =
              check_totp D sha256 decrypt verify_totp
                (decrypt setup.encrypted_secret setup.iv setup.tag) code in
            let step : verify_and_enable_mfa D sha256 decrypt verify_totp user_id code now db
                ≡ enable_checked D user_id setup totp db =
              rw (there, fresh, is_code) refl in
            let (good, state) =
              checked_proof D user_id code setup totp db (ap (λ o. o.1) (sym step) ∙ h) in
            (
              setup,
              (
                there,
                fresh,
                is_code,
                totp_proof (decrypt setup.encrypted_secret setup.iv setup.tag) code good,
              ),
              subst (λ (o : SetupDb D × Result (Unit {0})). IsEnabled D user_id setup o.0)
                  (sym step) state,
            )
      ]
    ]
  ]
