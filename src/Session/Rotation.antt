-- ===== src/Session/Rotation.antt =====
-- What a rotation that succeeds needs and writes, and what a second one with its token does
-- (apps/server/src/features/session/application/rotateRefreshToken.ts).
use purrivacy_app.Prelude.{
  ℕ, ◌+◌, String, ◌≡◌, ◌≢◌, refl, true, false, Bool-cases, Option-cases, inl, inr, Option, some,
  same_text, same_text_iff, arith,
}
use purrivacy_app.Server.Documents.{DocumentStore}
use purrivacy_app.Server.Errors.{ok, err, Result-cases}
use purrivacy_app.Server.Text.{is_empty}
use purrivacy_app.Session.Types.{
  Session, Family, RefreshToken, SessionResponse, Db, refresh_token_lifetime_ms,
}
use purrivacy_app.Session.Tokens.{generate_refresh_token, parse_refresh_token_id}
use purrivacy_app.Session.Records.{get_valid_active_access_session, create_access_token_for_family}
use purrivacy_app.Session.Rotate.{
  Renewal, reused_refresh_token, rotate_transaction, write_rotation, rotate_backend_refresh_token,
  timing_safe_equal, finish_rotation,
}
use purrivacy_app.Session.Validate.{is_revoked}
use purrivacy_app.Session.Reuse.{
  Presents, Rotates, checked, rotate_presented, reuse-revokes, rotate_checked-Rotates,
}

module _ (D : DocumentStore) (sha256 : String → String) where
  presented :
      (refresh_token : String) (current : Option String) (renewal : Renewal) (db : Db D)
      {r : SessionResponse}
      → (rotate_backend_refresh_token D sha256 refresh_token current renewal db).1 ≡ ok r
      → (token_id : String) × (t : RefreshToken) × (f : Family) × Presents D sha256 refresh_token
          token_id t f db
  unfolding rotate_backend_refresh_token rotate_transaction timing_safe_equal finish_rotation
  presented refresh_token current renewal db h = elim (Bool-cases (is_empty refresh_token)) [
    | inl gap ↦ ground arith
    | inr full ↦ elim (Result-cases (parse_refresh_token_id refresh_token)) [
      | inr (e, bad) ↦ ground (arith, bad)
      | inl (token_id, parsed) ↦ elim (Option-cases (D.get token_id db.tokens)) [
        | inl absent ↦ ground (arith, parsed, absent)
        | inr (t, stored) ↦ elim (Option-cases (D.get t.family_id db.families)) [
          | inl absent ↦ ground (arith, parsed, stored, absent)
          | inr (f, family) ↦ (
            token_id,
            t,
            f,
            record {
              parsed = parsed;
              nonempty = full;
              stored = stored;
              hashed =
                  (same_text_iff t.token_hash (sha256 refresh_token)).0
                    (ground (arith, parsed, stored));
              hash_nonempty = ground (arith, parsed, stored);
              family = family;
            },
          )
        ]
      ]
    ]
  ]

  -- The access session that the call finds for the token it was given.
  abbrev pub active_session : Option String → Family → ℕ → Db D → Option Session
  active_session current f now db =
      (get_valid_active_access_session D sha256 current f now db.sessions).1

  rotates :
      (refresh_token token_id : String) (t : RefreshToken) (f : Family) (db : Db D)
      (current : Option String) (renewal : Renewal) {r : SessionResponse}
      → Presents D sha256 refresh_token token_id t f db
      → (rotate_backend_refresh_token D sha256 refresh_token current renewal db).1 ≡ ok r
      → (f' : Family) × ((checked D sha256 token_id t f db current renewal).1 ≡ ok f')
  unfolding finish_rotation
  rotates refresh_token token_id t f db current renewal p h =
      elim (Result-cases (checked D sha256 token_id t f db current renewal).1) [
        | inl found ↦ found
        | inr (e, bad) ↦
            ground (
              arith,
              rotate_presented D sha256 refresh_token token_id t f db current renewal p,
              bad,
            )
      ]

  -- A rotation succeeds only for a refresh token that is stored with its hash, was neither used nor
  -- revoked, has not expired, belongs to a stored family that is not revoked and has not expired, and
  -- needs no new MFA proof.
  pub rotation_needs :
      (refresh_token : String) (current : Option String) (renewal : Renewal) (db : Db D)
      {r : SessionResponse}
      → (rotate_backend_refresh_token D sha256 refresh_token current renewal db).1 ≡ ok r
      → (token_id : String) × (t : RefreshToken) × (f : Family) × Presents D sha256 refresh_token
          token_id t f db
        × Rotates D sha256 t f (active_session current f renewal.now db) renewal.now
  rotation_needs refresh_token current renewal db h =
      let (token_id, t, f, p) = presented refresh_token current renewal db h in
      let (f', found) = rotates refresh_token token_id t f db current renewal p h in
      (
        token_id,
        t,
        f,
        p,
        (rotate_checked-Rotates D sha256 token_id t f _ renewal.now _ db _ found).0,
      )

  -- The family document, and the old token's document, that a successful rotation writes.
  abbrev pub renewed : Family → ℕ → Family
  renewed f now = record f { last_used_at = now; expires_at = now + refresh_token_lifetime_ms }

  abbrev pub spent : RefreshToken → String → ℕ → RefreshToken
  spent t new_id now = record t { used_at = some now; replaced_by_token_id = some new_id }

  rotation_writes :
      (refresh_token token_id : String) (t : RefreshToken) (f : Family) (db : Db D)
      (current : Option String) (renewal : Renewal) {r : SessionResponse}
      → Presents D sha256 refresh_token token_id t f db
      → (rotate_backend_refresh_token D sha256 refresh_token current renewal db).1 ≡ ok r
      → renewal.token_id ≢ token_id
      → let db' = (rotate_backend_refresh_token D sha256 refresh_token current renewal db).0 in
        (D.get token_id db'.tokens ≡ some (spent t renewal.token_id renewal.now))
        × (D.get t.family_id db'.families ≡ some (renewed f renewal.now))
  unfolding finish_rotation create_access_token_for_family write_rotation generate_refresh_token
  rotation_writes refresh_token token_id t f db current renewal p h fresh =
      let (f', found) = rotates refresh_token token_id t f db current renewal p h in
      let (ready, eq) = rotate_checked-Rotates D sha256 token_id t f _ renewal.now _ db _ found in
      let other : same_text renewal.token_id token_id ≡ false =
        ground (arith, same_text_iff renewal.token_id token_id) in
      let self : same_text token_id token_id ≡ true = (same_text_iff token_id token_id).1 refl in
      let self' : same_text t.family_id t.family_id ≡ true =
        (same_text_iff t.family_id t.family_id).1 refl in
      rw (rotate_presented D sha256 refresh_token token_id t f db current renewal p) (
        rw eq (
          rw (D.get-put renewal.token_id token_id _ _, other)
              (rw (D.get-put token_id token_id _ _, self)),
          rw (D.get-put t.family_id t.family_id _ _, self'),
        ))

  -- A refresh token rotates once: where a rotation succeeds and issues another token id, presenting the
  -- same token again in the state that it leaves, at any time, is refused as a reuse and leaves the
  -- family revoked.
  pub rotation_is_single_use :
      (refresh_token token_id : String) (t : RefreshToken) (f : Family) (db : Db D)
      (current current' : Option String) (renewal renewal' : Renewal) {r : SessionResponse}
      → Presents D sha256 refresh_token token_id t f db
      → (rotate_backend_refresh_token D sha256 refresh_token current renewal db).1 ≡ ok r
      → renewal.token_id ≢ token_id
      → let db' = (rotate_backend_refresh_token D sha256 refresh_token current renewal db).0 in
        let (db'', result) =
          rotate_backend_refresh_token D sha256 refresh_token current' renewal' db' in
        (result ≡ err reused_refresh_token) × (is_revoked (D.get t.family_id db''.families) ≡ true)
  unfolding is_revoked
  rotation_is_single_use refresh_token token_id t f db current current' renewal renewal' p h fresh =
      let db' = (rotate_backend_refresh_token D sha256 refresh_token current renewal db).0 in
      let (stored, family) =
        rotation_writes refresh_token token_id t f db current renewal p h fresh in
      let again : Presents D sha256 refresh_token token_id (spent t renewal.token_id renewal.now)
          (renewed f renewal.now) db' =
        record {
          parsed = p.parsed;
          nonempty = p.nonempty;
          stored = stored;
          hashed = p.hashed;
          hash_nonempty = p.hash_nonempty;
          family = family;
        } in
      let (refused, revoked, same) =
        reuse-revokes D sha256 refresh_token token_id _ _ db' current' renewal' again refl in
      (refused, rw revoked)
