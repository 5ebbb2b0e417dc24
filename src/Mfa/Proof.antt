-- ===== src/Mfa/Proof.antt =====
-- What an MFA code that passes proves
-- (apps/server/src/features/mfa/application/verifyMfaCode.ts and verifyMfaTotpCode.ts).
use purrivacy_app.Prelude.{
  String, ◌≡◌, ◌⊎◌, inl, inr, refl, Bool, true, false, Option, none, some, List, arith, Bool-cases,
  Option-cases,
}
use purrivacy_app.Server.Documents.{DocumentStore}
use purrivacy_app.Server.Errors.{Result, ok, Result-cases}
use purrivacy_app.Server.Text.{trim, is_empty}
use purrivacy_app.Mfa.Types.{MfaSecurity, MfaDb}
use purrivacy_app.Mfa.RecoveryCodes.{verify_and_consume_recovery_code}
use purrivacy_app.Mfa.SingleUse.{Accepts, accepted}
use purrivacy_app.Mfa.Verify.{
  CodeKind, recovery, totp, invalid, get_mfa_code_kind, verify_mfa_totp_code, verify_mfa_code,
}

kind-cases : (k : CodeKind) → (k ≡ recovery) ⊎ ((k ≡ totp) ⊎ (k ≡ invalid))
kind-cases recovery = inl refl
kind-cases totp = inr (inl refl)
kind-cases invalid = inr (inr refl)

module _ (D : DocumentStore) (sha256 : String → String)
    (decrypt : String → String → String → Result String)
    (verify_totp : String → String → Bool) where
  -- The one-time password is right for the secret that is stored for the user.
  pub record Matches (user_id code : String) (db : MfaDb D) (s : MfaSecurity) : Type 0 where
    pub enabled : D.get user_id db.users ≡ some true
    pub stored : D.get user_id db.security ≡ some s
    pub secret : String
    pub decrypted : decrypt s.mfa_secret s.mfa_secret_iv s.mfa_secret_tag ≡ ok secret
    pub right : verify_totp secret code ≡ true

  totp-Matches :
      (user_id code : String) (db : MfaDb D)
      → verify_mfa_totp_code D sha256 decrypt verify_totp user_id code db ≡ ok true
      → (s : MfaSecurity) × Matches user_id code db s
  unfolding verify_mfa_totp_code
  totp-Matches user_id code db h = elim (Option-cases (D.get user_id db.users)) [
    | inl absent ↦ ground (arith, absent)
    | inr (enabled, user) ↦ elim (Option-cases (D.get user_id db.security)) [
      | inl absent ↦ ground (arith, user, absent)
      | inr (s, stored) ↦
          elim (Result-cases (decrypt s.mfa_secret s.mfa_secret_iv s.mfa_secret_tag)) [
            | inr (e, bad) ↦ ground (arith, user, stored, bad)
            | inl (secret, good) ↦ (
              s,
              record {
                enabled = ground (arith, user);
                stored = stored;
                secret = secret;
                decrypted = good;
                right = ground (arith, user, stored, good);
              },
            )
          ]
    ]
  ]

  -- A code passes only for a user whose MFA is enabled, either as a recovery code that is stored for the
  -- user and is taken away by this call, or as a one-time password that is right for the user's stored
  -- secret, and then the call changes nothing.
  pub verify_mfa_code_needs :
      (user_id : String) (is_sensitive : Bool) (mfa_code : Option String) (fresh : List String)
      (db : MfaDb D) {codes : Option (List String)}
      → (verify_mfa_code D sha256 decrypt verify_totp user_id is_sensitive mfa_code fresh db).1
        ≡ ok codes
      → let db' =
          (verify_mfa_code D sha256 decrypt verify_totp user_id is_sensitive mfa_code fresh db).0 in
        (code : String) × (s : MfaSecurity) × (mfa_code ≡ some code)
        × (Accepts D sha256 user_id (trim code) fresh db db' s
            ⊎ (Matches user_id (trim code) db s × (db' ≡ db)))
  unfolding verify_mfa_code
  verify_mfa_code_needs user_id is_sensitive none fresh db h = cc
  verify_mfa_code_needs user_id is_sensitive (some code) fresh db {codes} h =
      elim (Bool-cases (is_empty (trim code))) [
        | inl gap ↦ ground (arith, gap)
        | inr full ↦ elim (kind-cases (get_mfa_code_kind (trim code))) [
          | inl kind ↦
              elim (Result-cases
                (verify_and_consume_recovery_code D sha256 user_id (trim code) fresh db).1) [
                  | inr (e, bad) ↦ ground (arith, full, kind, bad)
                  | inl ((true, given), good) ↦
                      let (s, a) = accepted D sha256 user_id (trim code) fresh db good in
                      rw (full, kind, good) (code, s, refl, inl a)
                  | inl ((false, given), good) ↦ ground (arith, full, kind, good)
                ]
          | inr (inr kind) ↦ ground (arith, full, kind)
          | inr (inl kind) ↦
              elim (Result-cases
                (verify_mfa_totp_code D sha256 decrypt verify_totp user_id (trim code) db)) [
                  | inr (e, bad) ↦ ground (arith, full, kind, bad)
                  | inl (false, good) ↦ ground (arith, full, kind, good)
                  | inl (true, good) ↦
                      let (s, m) = totp-Matches user_id (trim code) db good in
                      rw (full, kind, good) (code, s, refl, inr (m, refl))
                ]
        ]
      ]
