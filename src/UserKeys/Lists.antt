-- ===== src/UserKeys/Lists.antt =====
-- Creating, reading and deleting all keys of a user
-- (apps/server/src/features/user/infrastructure/UserKeyRepository.ts).
use purrivacy_app.Prelude.{ℕ, String, Option, none, some, List, [], ◌∷◌, length, map}
use purrivacy_app.Prelude.Dict.{Dict}
use purrivacy_app.Server.Errors.{other_error, Result, ok, err, ◌>>=◌}
use purrivacy_app.Server.Json.{Json}
use purrivacy_app.UserKeys.Payload.{EncryptedPayload, sanitize_encrypted_keys}
use purrivacy_app.UserKeys.RecordSet.{
  Item, RecordSet, assert_user_key_record_id, assign, create_empty, sanitize_record_set,
  encode_record_set,
}
use purrivacy_app.UserKeys.Repository.{Stored, Outcome, KeyRecord, attempt, generated_id, new_item}

-- `toEncryptedKeyRecords`
unfoldable pub to_encrypted_key_records : Dict Item → List KeyRecord
to_encrypted_key_records [] = []
to_encrypted_key_records ((id, item) ∷ items) = (id, item.payload) ∷ to_encrypted_key_records items

-- The loop of `initializeUserEncryptedKeyRecords`, with the ids that are generated in its rounds
unfoldable pub initial_items :
    List (Option String) → List EncryptedPayload → ℕ → Dict Item → Result (Dict Item)
unfolding generated_id assert_user_key_record_id new_item
initial_items pushed [] now items = ok items
initial_items [] (key ∷ keys) now items = err other_error
initial_items (pushed ∷ later) (key ∷ keys) now items = generated_id pushed >>= λ id.
    assert_user_key_record_id id >>= λ valid.
    initial_items later keys now (assign id (new_item key now) items)

-- `initializeUserEncryptedKeyRecords`
unfoldable pub initialize_key_records :
    ℕ → List (Option String) → Option Json → ℕ → Stored → Outcome (List KeyRecord)
unfolding sanitize_encrypted_keys initial_items encode_record_set to_encrypted_key_records
initialize_key_records max_keys pushed keys now current =
    attempt (sanitize_encrypted_keys max_keys keys) current λ sanitized.
      attempt (initial_items pushed sanitized now []) current λ created. (
        ok (to_encrypted_key_records created),
        some (
            encode_record_set
              (record { count = length sanitized; items = created; updated_at = now })),
      )

-- `readUserEncryptedKeyRecordSetFromDb`
unfoldable pub read_from_db : ℕ → Stored → Outcome RecordSet
unfolding create_empty encode_record_set sanitize_record_set
read_from_db now none = (ok (create_empty now), some (encode_record_set (create_empty now)))
read_from_db now (some value) = (sanitize_record_set (some value), some value)

-- `readUserEncryptedKeyRecords`
unfoldable pub read_key_records : ℕ → Stored → Outcome (List KeyRecord)
unfolding read_from_db to_encrypted_key_records
read_key_records now current =
    let (value, after) = read_from_db now current in
    (value >>= λ set. ok (to_encrypted_key_records set.items), after)

-- `readUserEncryptedKeys`
unfoldable pub read_keys : ℕ → Stored → Outcome (List EncryptedPayload)
unfolding read_key_records
read_keys now current =
    let (records, after) = read_key_records now current in
    (records >>= λ found. ok (map (λ (r : KeyRecord). r.1) found), after)

-- `deleteUserEncryptedKeys`
unfoldable pub delete_keys : Stored → Stored
delete_keys current = none
