-- ===== src/Mfa/StoredProgress.antt =====
-- What a transition's store gives back
-- (apps/server/src/features/mfa/application/mfaTransitionStore.ts).
use Prim.Native.String.{String}
use purrivacy_app.Prelude.{
  ℕ, ◌+◌, ◌≤◌, ◌<◌, ◌≡◌, refl, ◌∙◌, true, false, Option, none, some, [], ◌∷◌, arith, leb,
  same_text_iff,
}
use purrivacy_app.Server.Documents.{DocumentStore}
use purrivacy_app.Mfa.TransitionStore.{
  mfa_transition_ttl_ms, EncryptedResult, TransitionDoc, TransitionDb, decrypt_steps, progress_of,
  read_doc, read_transition, completed_doc, complete_step,
}

module _ (D : DocumentStore) {R : Type 0} (encrypt : R → EncryptedResult)
    (decrypt : EncryptedResult → Option R) (hash key user : String) where
  get-complete_step :
      (name : String) (r : Option R) (db : TransitionDb D)
      → D.get hash (complete_step D encrypt decrypt hash key user name r db).docs
        ≡ some (completed_doc D encrypt decrypt hash key user name r db.clock (D.get hash db.docs))
  unfolding complete_step
  get-complete_step name r db =
      D.get-put hash hash
        (completed_doc D encrypt decrypt hash key user name r db.clock (D.get hash db.docs)) db.docs
      ∙ rw ((same_text_iff hash hash).1 refl) refl

  -- The first step of a transition that is recorded is read back with its result during the next fifteen
  -- minutes, if its result can be decrypted.
  pub first_step_is_read_back :
      (name : String) (r : R) (db : TransitionDb D) (later : ℕ)
      → D.get hash db.docs ≡ none
      → decrypt (encrypt r) ≡ some r
      → later < db.clock + mfa_transition_ttl_ms
      → read_transition D encrypt decrypt hash key user
          (record (complete_step D encrypt decrypt hash key user name (some r) db) {
            clock = later;
          })
        ≡ some (record { steps = (name, some r) ∷ [] })
  unfolding read_transition read_doc decrypt_steps progress_of completed_doc
  first_step_is_read_back name r db later fresh decrypted soon =
      let valid : leb (db.clock + mfa_transition_ttl_ms) later ≡ false = ground (arith, soon) in
      rw
        (
          get-complete_step name (some r) db,
          fresh,
          (same_text_iff user user).1 refl,
          valid,
          decrypted,
        )
        refl

  -- A step that is recorded over an expired document is never read back: the document keeps its expiry.
  pub step_over_expired_is_lost :
      (name : String) (r : Option R) (db : TransitionDb D) (doc : TransitionDoc) (later : ℕ)
      → D.get hash db.docs ≡ some doc
      → doc.expires_at ≤ db.clock
      → db.clock ≤ later
      → read_transition D encrypt decrypt hash key user
          (record (complete_step D encrypt decrypt hash key user name r db) { clock = later })
        ≡ none
  unfolding read_transition read_doc completed_doc
  step_over_expired_is_lost name r db doc later there expired after =
      let gone : leb doc.expires_at later ≡ true = ground (arith, expired, after) in
      rw (get-complete_step name r db, there, (same_text_iff user user).1 refl, gone) refl
