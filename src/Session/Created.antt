-- ===== src/Session/Created.antt =====
-- What a new session gives its user
-- (apps/server/src/features/session/application/createSession.ts).
use purrivacy_app.Prelude.{
  ℕ, ◌+◌, ◌≤◌, String, ◌≡◌, refl, Bool, true, false, not, ◌&&◌, Option, none, some, [], ◌∷◌,
  same_text, same_text_iff, same_nullable, if_elim, arith, inl, inr,
}
use purrivacy_app.Prelude.Dict.{Dict}
use purrivacy_app.Server.Documents.{DocumentStore, AllStored}
use purrivacy_app.Server.Errors.{ok, Result-cases}
use purrivacy_app.Session.Types.{Session, Family, SessionResponse, Db, access_token_lifetime_ms}
use purrivacy_app.Session.Tokens.{generate_refresh_token, normalize_device_id}
use purrivacy_app.Session.Records.{
  build_session_response, create_access_token_for_family, delete_family_records, delete_stale,
  delete_stale_device_families,
}
use purrivacy_app.Session.Create.{
  CreateOptions, Fresh, new_family, commit_family, sweep_devices, create_for_device,
  create_backend_session,
}
use purrivacy_app.Session.Validate.{is_revoked, validate_backend_session}

module _ (D : DocumentStore) where
  -- The sweep deletes no family under its own id whose document names the new family.
  delete_stale_keeps :
      (user_id new_id : String) (family : Family) (before : D.Collection Family) (p : Family → Bool)
      (docs : Dict Family) (count : ℕ) (db : Db D)
      → AllStored (λ k. D.get k before) p docs
      → D.get new_id before ≡ some family
      → family.family_id ≡ new_id
      → D.get new_id db.families ≡ some family
      → D.get new_id (delete_stale D user_id new_id docs count db).0.families ≡ some family
  unfolding delete_stale
  delete_stale_keeps user_id new_id family before p [] count db all at named kept = kept
  delete_stale_keeps user_id new_id family before p ((doc_id, f) ∷ docs) count db
        (stored, match, all) at named kept =
      if_elim
        (λ (x : Db D × ℕ).
          D.get new_id (delete_stale D user_id new_id docs (count + x.1) x.0).0.families
          ≡ some family)
        (same_text f.user_id user_id && not (same_text f.family_id new_id)) _ _
        (λ e. delete_stale_keeps user_id new_id family before p docs _ _ all at named (
          unfold delete_family_records in
          ground (
            arith,
            D.get-delete doc_id new_id db.families,
            same_text_iff doc_id new_id,
            same_text_iff f.family_id new_id,
            e,
            stored,
            at,
            named,
            kept,
          )))
        (λ e. delete_stale_keeps user_id new_id family before p docs _ db all at named kept)

  sweep_keeps :
      (sha256 : String → String) (device_id : Option String) (sweep : Bool)
      (user_id new_id : String) (family : Family) (db : Db D)
      → D.get new_id db.families ≡ some family
      → family.family_id ≡ new_id
      → D.get new_id (sweep_devices D sha256 device_id sweep user_id new_id db).families
        ≡ some family
  unfolding sweep_devices delete_stale_device_families
  sweep_keeps sha256 none sweep user_id new_id family db at named = at
  sweep_keeps sha256 (some device_id) false user_id new_id family db at named = at
  sweep_keeps sha256 (some device_id) true user_id new_id family db at named =
      delete_stale_keeps user_id new_id family db.families
        (λ (f : Family). same_nullable f.device_id (some device_id))
        (D.query_all (λ (f : Family). same_nullable f.device_id (some device_id)) db.families) 0 db
        (D.query_all-stored (λ (f : Family). same_nullable f.device_id (some device_id))
          db.families)
        at named at

module _ (D : DocumentStore) (sha256 : String → String) where
  created_for_device :
      (user_id : String) (options : CreateOptions) (fresh : Fresh) (db : Db D)
      (device : Option String) (now : ℕ)
      → now ≤ fresh.later + access_token_lifetime_ms
      → (s : Session) × ((validate_backend_session D sha256 fresh.access_token now
            (create_for_device D sha256 user_id options fresh db device).0).1
          ≡ ok s)
        × (s.user_id ≡ user_id)
        × (s.refresh_token_family_id ≡ fresh.family_id)
  unfolding create_for_device create_access_token_for_family validate_backend_session is_revoked
      new_family
  created_for_device user_id options fresh db device now early =
      let token = generate_refresh_token sha256 fresh.token_id fresh.token_secret in
      let family : Family = new_family user_id options device fresh in
      let committed : Db D = commit_family D sha256 family token fresh db in
      let swept : Db D =
        sweep_devices D sha256 device options.sweep_stale_families user_id fresh.family_id
          committed in
      let hash = sha256 fresh.access_token in
      let session : Session = record {
        access_token_hash = hash;
        user_id = user_id;
        refresh_token_family_id = fresh.family_id;
        created_at = fresh.later;
        expires_at = fresh.later + access_token_lifetime_ms;
        user_has_mfa = options.user_has_mfa;
      } in
      let stored : D.get fresh.family_id committed.families ≡ some family =
        unfold commit_family in
        ground (
          arith,
          D.get-put fresh.family_id fresh.family_id family db.families,
          same_text_iff fresh.family_id fresh.family_id,
        ) in
      let kept : D.get fresh.family_id swept.families ≡ some family =
        sweep_keeps D sha256 device options.sweep_stale_families user_id fresh.family_id family
          committed stored refl in
      (
        session,
        ground (
          arith,
          kept,
          D.get-put hash hash session swept.sessions,
          same_text_iff hash hash,
          early,
        ),
        refl,
        refl,
      )

  -- The access token of a new session is accepted until its lifetime is over: the sweep of stale
  -- families spares the new family. The session is the user's, and belongs to the new family.
  pub created_session_is_valid :
      (user_id : String) (options : CreateOptions) (fresh : Fresh) (db : Db D) (now : ℕ)
      {r : SessionResponse}
      → (create_backend_session D sha256 user_id options fresh db).1 ≡ ok r
      → now ≤ fresh.later + access_token_lifetime_ms
      → (s : Session) × ((validate_backend_session D sha256 fresh.access_token now
            (create_backend_session D sha256 user_id options fresh db).0).1
          ≡ ok s)
        × (s.user_id ≡ user_id)
        × (s.refresh_token_family_id ≡ fresh.family_id)
        × (r.session_family_id ≡ fresh.family_id)
  unfolding create_backend_session
  created_session_is_valid user_id options fresh db now {r} h early =
      elim (Result-cases (normalize_device_id options.device_id)) [
        | inr (e, bad) ↦ ground (arith, bad)
        | inl (device, good) ↦
            let ready = created_for_device user_id options fresh db device now early in
            rw good (
              ready.0,
              ready.1,
              ready.2,
              ready.3,
              unfold create_for_device build_session_response new_family in ground (arith, good),
            )
      ]
