-- ===== src/Session/Revoked.antt =====
-- The operations as steps, and what they do to a family that is revoked or deleted
-- (apps/server/src/features/session/application).
use purrivacy_app.Prelude.{
  ℕ, String, ◌≡◌, ◌≢◌, Bool, true, Bool-cases, Option-cases, inl, inr, Option, none, some,
  same_text, same_text_iff, arith,
}
use purrivacy_app.Server.Documents.{DocumentStore}
use purrivacy_app.Server.Errors.{ok, Result-cases}
use purrivacy_app.Session.Types.{Family, Db}
use purrivacy_app.Session.Create.{CreateOptions, Fresh, create_backend_session}
use purrivacy_app.Session.Rotate.{Renewal, rotate_backend_refresh_token}
use purrivacy_app.Session.Validate.{is_revoked, validate_backend_session}
use purrivacy_app.Session.Families.{
  get_owned_family, set_session_family_mfa_trust, mark_session_family_mfa_verified,
  revoke_session_family,
}
use purrivacy_app.Session.Deletion.{
  delete_access_session, delete_all_user_sessions, cleanup_expired_session_records,
}
use purrivacy_app.Session.Dead.{
  IsDead, created-IsDead, rotated-IsDead, validated-IsDead, sweep-IsDead,
  delete_family_records-IsDead,
}

owned_family :
    (D : DocumentStore) (family_id user_id : String) (db : Db D) {f : Family}
    → get_owned_family D family_id user_id db ≡ ok f
    → (D.get family_id db.families ≡ some f) × (f.user_id ≡ user_id) × (f.revoked_at ≡ none)
unfolding get_owned_family
owned_family D family_id user_id db {f} h = ground (arith, same_text_iff f.user_id user_id)

module _ (D : DocumentStore) (fam : String) where
  put_live-IsDead :
      (family_id : String) (f v : Family) (families : D.Collection Family)
      → D.get family_id families ≡ some f
      → f.revoked_at ≡ none
      → is_revoked (D.get fam families) ≡ true
      → is_revoked (D.get fam (D.put family_id v families)) ≡ true
  unfolding is_revoked
  put_live-IsDead family_id f v families at live h =
      ground (arith, D.get-put family_id fam v families, same_text_iff family_id fam)

  trusted-IsDead :
      (family_id user_id : String) (mfa_trusted : Bool) (now : ℕ) (db : Db D)
      → IsDead D fam db
      → IsDead D fam (set_session_family_mfa_trust D family_id user_id mfa_trusted now db).0
  unfolding set_session_family_mfa_trust
  trusted-IsDead family_id user_id mfa_trusted now db h =
      elim (Result-cases (get_owned_family D family_id user_id db)) [
        | inr (e, bad) ↦ rw bad h
        | inl (f, good) ↦
            let (at, owner, live) = owned_family D family_id user_id db good in
            rw good
              (record { revoked = put_live-IsDead family_id f _ db.families at live h.revoked })
      ]

  verified-IsDead :
      (family_id user_id : String) (now : ℕ) (db : Db D)
      → IsDead D fam db
      → IsDead D fam (mark_session_family_mfa_verified D family_id user_id now db).0
  unfolding mark_session_family_mfa_verified
  verified-IsDead family_id user_id now db h =
      elim (Result-cases (get_owned_family D family_id user_id db)) [
        | inr (e, bad) ↦ rw bad h
        | inl (f, good) ↦
            let (at, owner, live) = owned_family D family_id user_id db good in
            rw good
              (record { revoked = put_live-IsDead family_id f _ db.families at live h.revoked })
      ]

  revoked-IsDead :
      (family_id user_id : String) (db : Db D)
      → IsDead D fam db
      → IsDead D fam (revoke_session_family D family_id user_id db).0
  unfolding revoke_session_family
  revoked-IsDead family_id user_id db h = elim (Option-cases (D.get family_id db.families)) [
    | inl absent ↦ rw absent h
    | inr (f, found) ↦ elim (Bool-cases (same_text f.user_id user_id)) [
      | inl mine ↦ rw (found, mine) (delete_family_records-IsDead D fam family_id family_id db h)
      | inr other ↦ rw (found, other) h
    ]
  ]

  -- The operations on the session collections. A new session draws another family id.
  pub data Step (sha256 : String → String) : Db D → Db D → Type 0 where
    created :
        (user_id : String) (options : CreateOptions) (fresh : Fresh) (db : Db D)
        → fresh.family_id ≢ fam
        → Step sha256 db (create_backend_session D sha256 user_id options fresh db).0
    rotated :
        (refresh_token : String) (current : Option String) (renewal : Renewal) (db : Db D)
        → Step sha256 db (rotate_backend_refresh_token D sha256 refresh_token current renewal db).0
    validated :
        (access_token : String) (now : ℕ) (db : Db D)
        → Step sha256 db (validate_backend_session D sha256 access_token now db).0
    trusted :
        (family_id user_id : String) (mfa_trusted : Bool) (now : ℕ) (db : Db D)
        → Step sha256 db (set_session_family_mfa_trust D family_id user_id mfa_trusted now db).0
    verified :
        (family_id user_id : String) (now : ℕ) (db : Db D)
        → Step sha256 db (mark_session_family_mfa_verified D family_id user_id now db).0
    revoked :
        (family_id user_id : String) (db : Db D)
        → Step sha256 db (revoke_session_family D family_id user_id db).0
    signed_out :
        (access_token : String) (db : Db D)
        → Step sha256 db (delete_access_session D sha256 access_token db)
    all_deleted :
        (user_id : String) (excluded : Option String) (db : Db D)
        → Step sha256 db (delete_all_user_sessions D user_id excluded db).0
    cleaned : (now : ℕ) (db : Db D) → Step sha256 db (cleanup_expired_session_records D now db).0

  pub data Reach (sha256 : String → String) (db : Db D) : Db D → Type 0 where
    here : Reach sha256 db db
    next : {db' db'' : Db D} → Reach sha256 db db' → Step sha256 db' db'' → Reach sha256 db db''

  Step-IsDead :
      {sha256 : String → String} {db db' : Db D}
      → Step sha256 db db'
      → IsDead D fam db
      → IsDead D fam db'
  unfolding delete_access_session delete_all_user_sessions cleanup_expired_session_records
  Step-IsDead {sha256} (created user_id options fresh db ne) h =
      created-IsDead D fam sha256 user_id options fresh db ne h
  Step-IsDead {sha256} (rotated refresh_token current renewal db) h =
      rotated-IsDead D fam sha256 refresh_token current renewal db h
  Step-IsDead {sha256} (validated access_token now db) h =
      validated-IsDead D fam sha256 access_token now db h
  Step-IsDead (trusted family_id user_id mfa_trusted now db) h =
      trusted-IsDead family_id user_id mfa_trusted now db h
  Step-IsDead (verified family_id user_id now db) h = verified-IsDead family_id user_id now db h
  Step-IsDead (revoked family_id user_id db) h = revoked-IsDead family_id user_id db h
  Step-IsDead (signed_out access_token db) h = record { revoked = h.revoked }
  Step-IsDead (all_deleted user_id excluded db) h = record {
    revoked = sweep-IsDead D fam _ _ db.families h.revoked;
  }
  Step-IsDead (cleaned now db) h = record { revoked = sweep-IsDead D fam _ _ db.families h.revoked }

  pub Reach-IsDead :
      {sha256 : String → String} {db db' : Db D}
      → IsDead D fam db
      → Reach sha256 db db'
      → IsDead D fam db'
  Reach-IsDead h here = h
  Reach-IsDead h (next r s) = Step-IsDead s (Reach-IsDead h r)
