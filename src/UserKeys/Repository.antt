-- ===== src/UserKeys/Repository.antt =====
-- The operations on a user's encrypted keys
-- (apps/server/src/features/user/infrastructure/UserKeyRepository.ts). The state is the value that the
-- Realtime Database holds for the user, `none` where it holds none. A transaction is one step on that
-- value; the placeholder that the database's client passes to a transaction before it has read the
-- value is not modelled. Generated ids, `none` where none is generated, and the time are arguments.
use purrivacy_app.Prelude.{
  ℕ, ◌+◌, String, Bool, true, false, ◌&&◌, ◌||◌, Option, none, some, [], ◌∷◌, length, leb,
  if◌then◌else◌, same_text,
}
use purrivacy_app.Prelude.Dict.{Dict, lookup, insert, remove, has_key}
use purrivacy_app.Server.Errors.{not_found, key_quota_exceeded, other_error, Result, ok, err, ◌>>=◌}
use purrivacy_app.Server.Json.{Json, obj, entries}
use purrivacy_app.UserKeys.Payload.{EncryptedPayload, sanitize_encrypted_key_record}
use purrivacy_app.UserKeys.RecordSet.{
  Item, RecordSet, assert_user_key_record_id, create_empty, sanitize_record_set, encode_record_set,
}

-- The names that every object inherits
unfoldable pub is_object_member : String → Bool
is_object_member name =
    same_text name "constructor"
    || same_text name "toString"
    || same_text name "toLocaleString"
    || same_text name "valueOf"
    || same_text name "hasOwnProperty"
    || same_text name "isPrototypeOf"
    || same_text name "propertyIsEnumerable"
    || same_text name "__proto__"
    || same_text name "__defineGetter__"
    || same_text name "__defineSetter__"
    || same_text name "__lookupGetter__"
    || same_text name "__lookupSetter__"

-- `recordSet.items[recordId]` is truthy
unfoldable pub has_item : String → Dict Item → Bool
unfolding is_object_member
has_item id items = has_key id items || is_object_member id

-- The value that a user's keys have in the database
abbrev pub Stored : Type 0
Stored = Option Json

abbrev pub Outcome : Type 0 → Type 0
Outcome A = Result A × Stored

-- What follows a call that may throw before anything is written
abbrev pub attempt {ℓ κ} :
    {A : Type ℓ} {B : Type κ} → Result A → Stored → (A → Result B × Stored) → Result B × Stored
attempt (err e) current rest = (err e, current)
attempt (ok a) current rest = rest a

-- The end of a transaction whose function threw, aborted with `none`, or returned a set. The result
-- says whether it committed.
unfoldable pub settle : Result (Option RecordSet) → Stored → Outcome Bool
settle (err e) current = (err e, current)
settle (ok none) current = (ok false, current)
settle (ok (some s)) current = (ok true, some (encode_record_set s))

-- `ref.transaction(step)`
unfoldable pub transaction : (Stored → Result (Option RecordSet)) → Stored → Outcome Bool
unfolding settle
transaction step current = settle (step current) current

-- The `EncryptedKeyRecordWithId` that add and update return
abbrev pub KeyRecord : Type 0
KeyRecord = String × EncryptedPayload

-- `{ ...sanitized, updatedAt }`
unfoldable pub new_item : EncryptedPayload → ℕ → Item
new_item key now = record { payload = key; updated_at = some now }

-- The function of the transaction in `addUserEncryptedKeyRecord`
unfoldable pub add_step : ℕ → String → EncryptedPayload → ℕ → Stored → Result (Option RecordSet)
unfolding new_item
add_step max_keys id key now none =
    ok (some record { count = 1; items = (id, new_item key now) ∷ []; updated_at = now })
add_step max_keys id key now (some value) = sanitize_record_set (some value) >>= λ set.
    if leb max_keys (length set.items)
    then ok none
    else ok (
        some record {
          count = length set.items + 1;
          items = insert id (new_item key now) set.items;
          updated_at = now;
        })

-- `recordRef.key`
unfoldable pub generated_id : Option String → Result String
generated_id none = err other_error
generated_id (some id) = ok id

-- `addUserEncryptedKeyRecord`
unfoldable pub add_key_record : ℕ → Option String → Option Json → ℕ → Stored → Outcome KeyRecord
unfolding sanitize_encrypted_key_record generated_id assert_user_key_record_id transaction add_step
add_key_record max_keys pushed key now current =
    attempt (sanitize_encrypted_key_record key) current λ sanitized.
      attempt (generated_id pushed) current λ id.
        attempt (assert_user_key_record_id id) current λ valid.
          let outcome = transaction (add_step max_keys id sanitized now) current in
          (
            outcome.0 >>= λ committed.
                if committed then ok (id, sanitized) else err key_quota_exceeded,
            outcome.1,
          )

-- The function of the transaction in `updateUserEncryptedKeyRecord`
unfoldable pub update_step : String → EncryptedPayload → ℕ → Stored → Result (Option RecordSet)
unfolding has_item new_item
update_step id key now none = ok (some (create_empty now))
update_step id key now (some value) = sanitize_record_set (some value) >>= λ set.
    if has_item id set.items
    then ok (
        some record {
          count = length set.items;
          items = insert id (new_item key now) set.items;
          updated_at = now;
        })
    else ok none

-- `snapshot.exists()` of the child of the items
unfoldable pub item_exists : String → Stored → Bool
item_exists id (some (obj ps)) = elim (lookup "items" (entries ps)) [
  | some (obj items) ↦ has_key id (entries items)
  | _ ↦ false
]
item_exists id _ = false

unfoldable pub exists : Stored → Bool
exists none = false
exists (some value) = true

-- The last read of `updateUserEncryptedKeyRecord`
unfoldable pub confirm_update : String → EncryptedPayload → Bool → Stored → Result KeyRecord
unfolding item_exists
confirm_update id key committed final =
    if committed && item_exists id final then ok (id, key) else err not_found

-- `updateUserEncryptedKeyRecord`, where other requests change the value by `before` between the first
-- read and the transaction and by `later` between the transaction and the last read
unfoldable pub update_key_record :
    (before later : Stored → Stored) → String → Option Json → ℕ → Stored → Outcome KeyRecord
unfolding assert_user_key_record_id sanitize_encrypted_key_record exists transaction update_step
    confirm_update
update_key_record before later id key now current =
    attempt (assert_user_key_record_id id) current λ valid.
      attempt (sanitize_encrypted_key_record key) current λ sanitized.
        let outcome = transaction (update_step id sanitized now) (before current) in
        let final = later outcome.1 in
        if exists current
        then (outcome.0 >>= λ committed. confirm_update id sanitized committed final, final)
        else (err not_found, current)

-- The function of the transaction in `deleteUserEncryptedKeyRecord`
unfoldable pub delete_step : String → ℕ → Stored → Result (Option RecordSet)
unfolding has_item
delete_step id now none = ok (some (create_empty now))
delete_step id now (some value) = sanitize_record_set (some value) >>= λ set.
    if has_item id set.items
    then ok (
        some record {
          count = length (remove id set.items);
          items = remove id set.items;
          updated_at = now;
        })
    else ok none

-- `deleteUserEncryptedKeyRecord`, where other requests change the value by `before` between the read
-- and the transaction
unfoldable pub delete_key_record : (Stored → Stored) → String → ℕ → Stored → Outcome Bool
unfolding assert_user_key_record_id exists transaction delete_step
delete_key_record before id now current = attempt (assert_user_key_record_id id) current λ valid.
    let outcome = transaction (delete_step id now) (before current) in
    if exists current
    then (outcome.0 >>= λ committed. if committed then ok true else err not_found, outcome.1)
    else (err not_found, current)
