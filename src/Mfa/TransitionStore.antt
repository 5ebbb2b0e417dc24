-- ===== src/Mfa/TransitionStore.antt =====
-- `MfaTransitionStore` (apps/server/src/features/mfa/application/mfaTransitionStore.ts). The encryption
-- of a step's result and its decryption, `none` where it throws, are arguments, as are the document's
-- key, the hash of the transition's, and the key itself. The state has the clock.
use Prim.Native.String.{String}
use purrivacy_app.Prelude.{
  ℕ, ◌+◌, ◌*◌, not, Option, none, some, [], ◌∷◌, leb, if◌then◌else◌, same_text,
}
use purrivacy_app.Prelude.Dict.{Dict, insert}
use purrivacy_app.Server.Documents.{DocumentStore}
use purrivacy_app.Server.Errors.{ok}
use purrivacy_app.Transition.Runner.{Progress, TransitionStore}

abbrev pub mfa_transition_ttl_ms : ℕ
mfa_transition_ttl_ms = 15 * 60 * 1000

-- `EncryptedTransitionResult`
pub record EncryptedResult : Type 0 where
  pub encrypted_data : String
  pub iv : String
  pub tag : String

pub record StoredStep : Type 0 where
  pub completed_at : ℕ
  pub result : Option EncryptedResult

-- `StoredTransitionDoc`
pub record TransitionDoc : Type 0 where
  pub transition_key : String
  pub user_id : String
  pub created_at : ℕ
  pub expires_at : ℕ
  pub steps : Dict StoredStep

pub record TransitionDb (D : DocumentStore) : Type 0 where
  pub docs : D.Collection TransitionDoc
  pub clock : ℕ

module _ (D : DocumentStore) {R : Type 0} (encrypt : R → EncryptedResult)
    (decrypt : EncryptedResult → Option R) (hash key user : String) where
  unfoldable pub add_decrypted :
      String → Option R → Option (Dict (Option R)) → Option (Dict (Option R))
  add_decrypted name none rest = none
  add_decrypted name (some r) none = none
  add_decrypted name (some r) (some steps) = some ((name, some r) ∷ steps)

  unfoldable pub add_plain : String → Option (Dict (Option R)) → Option (Dict (Option R))
  add_plain name none = none
  add_plain name (some steps) = some ((name, none) ∷ steps)

  unfoldable pub add_step_of :
      String → Option EncryptedResult → Option (Dict (Option R)) → Option (Dict (Option R))
  unfolding add_decrypted add_plain
  add_step_of name none rest = add_plain name rest
  add_step_of name (some encrypted) rest = add_decrypted name (decrypt encrypted) rest

  -- The loop of `read`; `none` when a result cannot be decrypted
  unfoldable pub decrypt_steps : Dict StoredStep → Option (Dict (Option R))
  unfolding add_step_of
  decrypt_steps [] = some []
  decrypt_steps ((name, step) ∷ steps) = add_step_of name step.result (decrypt_steps steps)

  unfoldable pub progress_of : Option (Dict (Option R)) → Option (Progress R)
  progress_of none = none
  progress_of (some steps) = some (record { steps = steps })

  unfoldable pub read_doc : ℕ → Option TransitionDoc → Option (Progress R)
  unfolding decrypt_steps progress_of
  read_doc now none = none
  read_doc now (some doc) =
      if not (same_text doc.user_id user)
      then none
      else if leb doc.expires_at now
      then none
      else progress_of (decrypt_steps doc.steps)

  -- `read`
  unfoldable pub read_transition : TransitionDb D → Option (Progress R)
  unfolding read_doc
  read_transition db = read_doc db.clock (D.get hash db.docs)

  unfoldable pub encrypted_result : Option R → Option EncryptedResult
  encrypted_result none = none
  encrypted_result (some r) = some (encrypt r)

  unfoldable pub completed_doc : String → Option R → ℕ → Option TransitionDoc → TransitionDoc
  unfolding encrypted_result
  completed_doc name r now none = record {
    transition_key = key;
    user_id = user;
    created_at = now;
    expires_at = now + mfa_transition_ttl_ms;
    steps = (name, record { completed_at = now; result = encrypted_result r }) ∷ [];
  }
  completed_doc name r now (some existing) = record {
    transition_key = key;
    user_id = user;
    created_at = existing.created_at;
    expires_at = existing.expires_at;
    steps = insert name (record { completed_at = now; result = encrypted_result r }) existing.steps;
  }

  -- `complete`
  unfoldable pub complete_step : String → Option R → TransitionDb D → TransitionDb D
  unfolding completed_doc
  complete_step name r db = record db {
    docs = D.put hash (completed_doc name r db.clock (D.get hash db.docs)) db.docs;
  }

  -- `clear`
  unfoldable pub clear_transition : TransitionDb D → TransitionDb D
  clear_transition db = record db { docs = D.delete hash db.docs }

  -- The class as the store of a transition, while the database answers
  abbrev pub mfa_transition_store : TransitionStore (TransitionDb D) R
  mfa_transition_store = record {
    read = λ db. ok (read_transition db);
    complete = λ name r db. (complete_step name r db, ok tt);
    clear = λ db. (clear_transition db, ok tt);
  }
