-- ===== src/Session/Dead.antt =====
-- What creation, rotation and validation do to a family that is revoked or deleted
-- (apps/server/src/features/session/application).
use purrivacy_app.Prelude.{
  ℕ, ◌+◌, String, ◌≡◌, ◌≢◌, Bool, true, not, Bool-cases, Option-cases, if_elim, inl, inr, ◌||◌,
  ◌&&◌, Option, none, some, [], ◌∷◌, same_text, same_text_iff, same_nullable, arith,
}
use purrivacy_app.Prelude.Dict.{Dict}
use purrivacy_app.Server.Documents.{DocumentStore}
use purrivacy_app.Server.ChunkedWrites.{delete_paged_query_results}
use purrivacy_app.Server.PagedDelete.{delete_paged_query_results-Spares}
use purrivacy_app.Server.Errors.{Result, ok, err, Result-cases}
use purrivacy_app.Session.Types.{Session, Family, RefreshToken, Db}
use purrivacy_app.Session.Tokens.{
  Generated, generate_refresh_token, normalize_device_id, parse_refresh_token_id,
}
use purrivacy_app.Session.Records.{
  create_access_token_for_family, delete_family_records, delete_stale, delete_stale_device_families,
}
use purrivacy_app.Session.Create.{
  CreateOptions, Fresh, new_family, commit_family, create_backend_session,
}
use purrivacy_app.Session.Rotate.{
  Renewal, rotate_checked, rotate_transaction, write_rotation, finish_rotation,
  rotate_backend_refresh_token, timing_safe_equal,
}
use purrivacy_app.Server.Text.{is_empty}
use purrivacy_app.Session.Validate.{is_revoked, validate_backend_session}

module _ (D : DocumentStore) (fam : String) where
  -- The family is deleted or revoked.
  pub record IsDead (db : Db D) : Type 0 where
    pub revoked : is_revoked (D.get fam db.families) ≡ true

  pub delete-IsDead :
      (id : String) (families : D.Collection Family)
      → is_revoked (D.get fam families) ≡ true
      → is_revoked (D.get fam (D.delete id families)) ≡ true
  unfolding is_revoked
  delete-IsDead id families h = ground (arith, D.get-delete id fam families)

  pub delete_family_records-IsDead :
      (family_id family_ref : String) (db : Db D)
      → IsDead db
      → IsDead (delete_family_records D family_id family_ref db).0
  unfolding delete_family_records
  delete_family_records-IsDead family_id family_ref db h = record {
    revoked = delete-IsDead family_ref db.families h.revoked;
  }

  delete_stale-IsDead :
      (user_id new_id : String) (docs : Dict Family) (count : ℕ) (db : Db D)
      → IsDead db
      → IsDead (delete_stale D user_id new_id docs count db).0
  unfolding delete_stale
  delete_stale-IsDead user_id new_id [] count db h = h
  delete_stale-IsDead user_id new_id ((doc_id, f) ∷ docs) count db h =
      if_elim (λ (x : Db D × ℕ). IsDead (delete_stale D user_id new_id docs (count + x.1) x.0).0)
        (same_text f.user_id user_id && not (same_text f.family_id new_id)) _ _
        (λ e.
          delete_stale-IsDead user_id new_id docs _ _ (delete_family_records-IsDead _ doc_id db h))
        (λ e. delete_stale-IsDead user_id new_id docs _ db h)

  pub sweep-IsDead :
      (p filter : Family → Bool) (families : D.Collection Family)
      → is_revoked (D.get fam families) ≡ true
      → is_revoked (D.get fam (delete_paged_query_results D p filter families).collection) ≡ true
  unfolding is_revoked
  sweep-IsDead p filter families h =
      elim (delete_paged_query_results-Spares D p filter families fam) [
        | inl same ↦ rw same h
        | inr (gone, found) ↦ rw gone
      ]

  stale-IsDead :
      (user_id device_id new_id : String) (db : Db D)
      → IsDead db
      → IsDead (delete_stale_device_families D user_id device_id new_id db).0
  unfolding delete_stale_device_families
  stale-IsDead user_id device_id new_id db h =
      delete_stale-IsDead user_id new_id
        (D.query_all (λ family. same_nullable family.device_id (some device_id)) db.families) 0 db h

  pub created-IsDead :
      (sha256 : String → String) (user_id : String) (options : CreateOptions) (fresh : Fresh)
      (db : Db D)
      → fresh.family_id ≢ fam
      → IsDead db
      → IsDead (create_backend_session D sha256 user_id options fresh db).0
  unfolding create_backend_session create_access_token_for_family
  created-IsDead sha256 user_id options fresh db ne h =
      let token = generate_refresh_token sha256 fresh.token_id fresh.token_secret in
      let committed : (device : Option String)
          → IsDead
              (commit_family D sha256 (new_family user_id options device fresh) token fresh db) =
        λ device. record {
          revoked =
              unfold commit_family in
              ground (
                arith,
                h.revoked,
                same_text_iff fresh.family_id fam,
                D.get-put fresh.family_id fam (new_family user_id options device fresh) db.families,
              );
        } in
      elim (Result-cases (normalize_device_id options.device_id)) [
        | inr (e, bad) ↦ rw bad h
        | inl (none, eq) ↦ rw eq (record { revoked = (committed none).revoked })
        | inl (some device, eq) ↦ rw eq (elim (Bool-cases options.sweep_stale_families) [
          | inl yes' ↦ rw yes' (record {
            revoked =
                (stale-IsDead user_id device fresh.family_id _ (committed (some device))).revoked;
          })
          | inr no' ↦ rw no' (record { revoked = (committed (some device)).revoked })
        ])
      ]

  rotate_checked-IsDead :
      (sha256 : String → String) (token_id : String) (t : RefreshToken) (f : Family) (g : Generated)
      (now : ℕ) (active : Option Session) (db : Db D) (sessions' : D.Collection Session)
      → D.get t.family_id db.families ≡ some f
      → IsDead db
      → IsDead
          (rotate_checked D sha256 token_id t f g now active db
            (record db { sessions = sessions' })).0
  unfolding rotate_checked write_rotation is_revoked
  rotate_checked-IsDead sha256 token_id t f g now active db sessions' at h = record {
    revoked = ground (
      arith,
      at,
      h.revoked,
      same_text_iff t.family_id fam,
      D.get-put t.family_id fam (record f { revoked_at = some now; last_used_at = now })
          db.families,
      D.get-put t.family_id fam (write_rotation D sha256 token_id t f g now db).1 db.families,
      D.get-delete t.family_id fam db.families,
    );
  }

  rotate_transaction-IsDead :
      (sha256 : String → String) (token_id hash : String) (g : Generated) (now : ℕ)
      (current : Option String) (db : Db D)
      → IsDead db
      → IsDead (rotate_transaction D sha256 token_id hash g now current db).0
  unfolding rotate_transaction
  rotate_transaction-IsDead sha256 token_id hash g now current db h =
      elim (Option-cases (D.get token_id db.tokens)) [
        | inl absent ↦ rw absent h
        | inr (t, stored) ↦
            elim (Bool-cases (is_empty t.token_hash || not (timing_safe_equal t.token_hash hash))) [
              | inl bad ↦ rw (stored, bad) h
              | inr good ↦ elim (Option-cases (D.get t.family_id db.families)) [
                | inl absent ↦ rw (stored, good, absent) h
                | inr (f, found) ↦
                    rw (stored, good, found)
                      (rotate_checked-IsDead sha256 token_id t f g now _ db _ found h)
              ]
            ]
      ]

  finish_rotation-IsDead :
      (sha256 : String → String) (g : Generated) (renewal : Renewal) (x : Db D × Result Family)
      → IsDead x.0
      → IsDead (finish_rotation D sha256 g renewal x).0
  unfolding finish_rotation create_access_token_for_family
  finish_rotation-IsDead sha256 g renewal (db, err e) h = h
  finish_rotation-IsDead sha256 g renewal (db, ok f) h = record { revoked = h.revoked }

  pub rotated-IsDead :
      (sha256 : String → String) (refresh_token : String) (current : Option String)
      (renewal : Renewal) (db : Db D)
      → IsDead db
      → IsDead (rotate_backend_refresh_token D sha256 refresh_token current renewal db).0
  unfolding rotate_backend_refresh_token
  rotated-IsDead sha256 refresh_token current renewal db h =
      elim (Bool-cases (is_empty refresh_token)) [
        | inl gap ↦ rw gap h
        | inr full ↦ elim (Result-cases (parse_refresh_token_id refresh_token)) [
          | inr (x, bad) ↦ rw (full, bad) h
          | inl (token_id, parsed) ↦
              rw (full, parsed)
                (let g = generate_refresh_token sha256 renewal.token_id renewal.token_secret in
                  finish_rotation-IsDead sha256 g renewal _
                    (rotate_transaction-IsDead sha256 token_id _ g renewal.now current db h))
        ]
      ]

  pub validated-IsDead :
      (sha256 : String → String) (access_token : String) (now : ℕ) (db : Db D)
      → IsDead db
      → IsDead (validate_backend_session D sha256 access_token now db).0
  unfolding validate_backend_session
  validated-IsDead sha256 access_token now db h = record { revoked = ground (arith, h.revoked) }
