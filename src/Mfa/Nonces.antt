-- ===== src/Mfa/Nonces.antt =====
-- When a nonce is accepted
-- (apps/server/src/features/mfa/application/mfaSetupNonce.ts).
use purrivacy_app.Prelude.{
  ℕ, ◌+◌, ◌≤◌, ◌<◌, String, ◌≡◌, ◌↔◌, refl, Bool, Option, none, some, List, same_text_iff, arith,
  Option-cases, inl, inr,
}
use purrivacy_app.Server.Documents.{DocumentStore}
use purrivacy_app.Server.Errors.{Result, ok, err, mfa_setup_nonce}
use purrivacy_app.Server.Text.{text_length}
use purrivacy_app.Session.Types.{Family}
use purrivacy_app.Mfa.Types.{NonceRecord, MfaDb, mfa_setup_nonce_ttl_ms}
use purrivacy_app.Mfa.SetupNonce.{
  new_nonce, mint_proved, mint_mfa_setup_nonce, consume_mfa_setup_nonce,
}
use purrivacy_app.Mfa.NonceCalls.{
  NonceCall, NeverMints, IsSpent, serve_calls, serve_calls-IsSpent, spent_nonce_refused,
}

module _ (D : DocumentStore) (sha256 : String → String) where
  -- A nonce is accepted exactly when it has between 32 and 128 characters and its document is stored
  -- for the same user and session family, was not consumed and has not expired.
  pub consume_mfa_setup_nonce_iff :
      (user_id family_id nonce : String) (now later : ℕ) (db : MfaDb D)
      → ((consume_mfa_setup_nonce D sha256 user_id family_id nonce now later db).1 ≡ ok tt) ↔ (
          (32 ≤ text_length nonce)
          × (text_length nonce ≤ 128)
          × ((n : NonceRecord) × (D.get (sha256 nonce) db.nonces ≡ some n)
              × (n.user_id ≡ user_id)
              × (n.session_family_id ≡ family_id)
              × (n.consumed_at ≡ none)
              × (now < n.expires_at)))
  unfolding consume_mfa_setup_nonce
  consume_mfa_setup_nonce_iff user_id family_id nonce now later db = (
    λ h. elim (Option-cases (D.get (sha256 nonce) db.nonces)) [
      | inl absent ↦ ground (arith, absent)
      | inr (n, found) ↦ (
        ground (arith, found),
        ground (arith, found),
        (
          n,
          found,
          ground (arith, found, same_text_iff n.user_id user_id),
          ground (arith, found, same_text_iff n.session_family_id family_id),
          ground (arith, found),
          ground (arith, found),
        ),
      )
    ],
    λ h. ground (
      arith,
      same_text_iff h.2.0.user_id user_id,
      same_text_iff h.2.0.session_family_id family_id,
    ),
  )

  consumed-IsSpent :
      (decrypt : String → String → String → Result String) (verify_totp : String → String → Bool)
      (user_id family_id nonce : String) (now later : ℕ) (db : MfaDb D)
      → (consume_mfa_setup_nonce D sha256 user_id family_id nonce now later db).1 ≡ ok tt
      → IsSpent D sha256 decrypt verify_totp
          (sha256 nonce)
          (consume_mfa_setup_nonce D sha256 user_id family_id nonce now later db).0.nonces
  unfolding consume_mfa_setup_nonce
  consumed-IsSpent decrypt verify_totp user_id family_id nonce now later db h n found =
      elim (Option-cases (D.get (sha256 nonce) db.nonces)) [
        | inl absent ↦ ground (arith, h, absent)
        | inr (r, at) ↦ ground (
          arith,
          h,
          found,
          at,
          D.get-put (sha256 nonce) (sha256 nonce) (record r { consumed_at = some later }) db.nonces,
          same_text_iff (sha256 nonce) (sha256 nonce),
        )
      ]

  -- After a nonce was accepted, and whatever requests follow that mint and consume nonces, verify codes
  -- and generate recovery codes, for any users and in any order, with the clean-up deleting documents in
  -- between, an attempt by any user and session family to use the nonce again fails with the nonce error
  -- and changes nothing. The nonces that are minted in the meantime have other hashes.
  pub nonce_is_single_use :
      (decrypt : String → String → String → Result String) (verify_totp : String → String → Bool)
      (user_id family_id nonce user_id' family_id' : String) (now later now' later' : ℕ)
      (calls : List (NonceCall D)) (db : MfaDb D)
      → (consume_mfa_setup_nonce D sha256 user_id family_id nonce now later db).1 ≡ ok tt
      → NeverMints D sha256 decrypt verify_totp (sha256 nonce) calls
      → let db' =
          serve_calls D sha256 decrypt verify_totp calls
            (consume_mfa_setup_nonce D sha256 user_id family_id nonce now later db).0 in
        consume_mfa_setup_nonce D sha256 user_id' family_id' nonce now' later' db'
        ≡ (db', err mfa_setup_nonce)
  nonce_is_single_use decrypt verify_totp user_id family_id nonce user_id' family_id' now later now'
        later' calls db h never =
      spent_nonce_refused D sha256 decrypt verify_totp user_id' family_id' nonce now' later' _ (
        serve_calls-IsSpent D sha256 decrypt verify_totp (sha256 nonce) calls _ never
          (consumed-IsSpent decrypt verify_totp user_id family_id nonce now later db h))

  minted :
      (user_id family_id nonce : String) (now : ℕ) (x : MfaDb D × Result (Unit {0}))
      {r : String × ℕ}
      → (mint_proved D sha256 user_id family_id nonce now x).1 ≡ ok r
      → D.get (sha256 nonce) (mint_proved D sha256 user_id family_id nonce now x).0.nonces
        ≡ some (new_nonce user_id family_id now)
  unfolding mint_proved
  minted user_id family_id nonce now (db, err e) h = cc
  minted user_id family_id nonce now (db, ok u) h = ground (
    arith,
    D.get-put (sha256 nonce) (sha256 nonce) (new_nonce user_id family_id now) db.nonces,
    same_text_iff (sha256 nonce) (sha256 nonce),
  )

  -- A nonce that was minted for a user and a session family is accepted for them until its lifetime is
  -- over, where its text has an admissible length.
  pub mint_consume_round_trip :
      (decrypt : String → String → String → Result String) (verify_totp : String → String → Bool)
      (families : D.Collection Family) (user_id family_id : String) (mfa_code : Option String)
      (fresh : List String) (nonce : String) (proved now now' later : ℕ) (db : MfaDb D)
      → (mint_mfa_setup_nonce D sha256 decrypt verify_totp families user_id family_id mfa_code fresh
          nonce proved now db).1
        ≡ ok (nonce, now + mfa_setup_nonce_ttl_ms)
      → 32 ≤ text_length nonce
      → text_length nonce ≤ 128
      → now' < now + mfa_setup_nonce_ttl_ms
      → (consume_mfa_setup_nonce D sha256 user_id family_id nonce now' later
          (mint_mfa_setup_nonce D sha256 decrypt verify_totp families user_id family_id mfa_code
            fresh nonce proved now db).0).1
        ≡ ok tt
  unfolding mint_mfa_setup_nonce new_nonce
  mint_consume_round_trip decrypt verify_totp families user_id family_id mfa_code fresh nonce proved
        now now' later db h lo hi early =
      (consume_mfa_setup_nonce_iff user_id family_id nonce now' later _).1 (
        lo,
        hi,
        (
          new_nonce user_id family_id now,
          minted user_id family_id nonce now _ h,
          refl,
          refl,
          refl,
          early,
        ),
      )
