-- ===== src/UserKeys/Effects.antt =====
-- What single requests about a user's keys do
-- (apps/server/src/features/user/infrastructure/UserKeyRepository.ts).
use purrivacy_app.Prelude.{
  ℕ, ◌≤◌, ◌<◌, String, ◌≡◌, refl, ap, ◌∙◌, true, false, Option, none, some, [], ◌∷◌, arith, length,
  leb, if◌then◌else◌, same_text, same_text_iff,
}
use purrivacy_app.Prelude.Dict.{
  Dict, lookup, insert, has_key, IsKeyed, has_key-insert, lookup-insert, lookup-remove,
  insert-IsKeyed, remove-IsKeyed,
}
use purrivacy_app.Server.Errors.{not_found, key_quota_exceeded, Result, ok, err}
use purrivacy_app.Server.Json.{Json, num, obj, property, end, entries}
use purrivacy_app.UserKeys.Payload.{EncryptedPayload, sanitize_encrypted_key_record}
use purrivacy_app.UserKeys.RecordSet.{
  Item, RecordSet, create_empty, sanitize_record_set, encode_record_set, encode_items,
  encode_children,
}
use purrivacy_app.UserKeys.Stored.{IsRecordId, AllValid, reread}
use purrivacy_app.UserKeys.Read.{
  sanitize_encrypted_key_record-IsKey, insert-AllValid, sanitize_record_set_sound,
}
use purrivacy_app.UserKeys.Repository.{
  Stored, transaction, settle, new_item, has_item, generated_id, add_step, add_key_record,
  update_step, update_key_record, delete_step, delete_key_record, confirm_update, item_exists,
  exists,
}
use purrivacy_app.UserKeys.Quota.{remove-AllValid}

abbrev pub items_or_none : Result RecordSet → Dict Item
items_or_none (ok s) = s.items
items_or_none (err e) = []

-- The records that are read from what is stored
abbrev pub items_of : Stored → Dict Item
items_of none = []
items_of (some value) = items_or_none (sanitize_record_set (some value))

items_of-reread :
    (s : RecordSet)
    → AllValid s.items
    → IsKeyed s.items
    → items_of (some (encode_record_set s)) ≡ s.items
items_of-reread s valid keyed = ap items_or_none (reread s valid keyed)

-- Adding a record with a valid id and payload to a readable set that is full is refused, and the
-- set stays as it is.
pub add_when_full :
    (max : ℕ) (id : String) (key : Option Json) (p : EncryptedPayload) (now : ℕ) (value : Json)
    (s : RecordSet)
    → sanitize_encrypted_key_record key ≡ ok p
    → IsRecordId id
    → sanitize_record_set (some value) ≡ ok s
    → max ≤ length s.items
    → add_key_record max (some id) key now (some value) ≡ (err key_quota_exceeded, some value)
unfolding add_key_record generated_id transaction settle add_step
add_when_full max id key p now value s good valid read full =
    let is_full : leb max (length s.items) ≡ true = ground arith in
    rw (good, valid.0, read, is_full) refl

-- A record that is added can be read, and the other records are as they were.
pub add_stores :
    (max : ℕ) (id : String) (key : Option Json) (p : EncryptedPayload) (now : ℕ) (value : Json)
    (s : RecordSet)
    → sanitize_encrypted_key_record key ≡ ok p
    → IsRecordId id
    → sanitize_record_set (some value) ≡ ok s
    → length s.items < max
    → (j : String)
    → ((add_key_record max (some id) key now (some value)).0 ≡ ok (id, p))
      × (lookup j (items_of (add_key_record max (some id) key now (some value)).1)
          ≡ (if same_text id j then some (new_item p now) else lookup j s.items))
unfolding add_key_record generated_id transaction settle add_step
add_stores max id key p now value s good valid read room j =
    let not_full : leb max (length s.items) ≡ false = ground arith in
    let (sound, stable) = sanitize_record_set_sound (some value) s read in
    let next = insert id (new_item p now) s.items in
    let all_valid =
      insert-AllValid id (new_item p now) s.items valid
        (sanitize_encrypted_key_record-IsKey key good) sound.0 in
    rw (good, valid.0, read, not_full)
      (
        refl,
        ap (lookup j)
              (items_of-reread _ all_valid (insert-IsKeyed id (new_item p now) s.items sound.1))
            ∙ lookup-insert id j (new_item p now) s.items,
      )

has_key-encode_items :
    (id : String) (d : Dict Item) → has_key id (entries (encode_items d)) ≡ has_key id d
unfolding encode_items
has_key-encode_items id [] = refl
has_key-encode_items id ((j, item) ∷ d) = rw (has_key-encode_items id d) refl

children_exist :
    (id : String) (n m : ℕ) (d : Dict Item)
    → item_exists id (
        some (
          obj (
            property "count"
              (num n)
              (encode_children (encode_items d) (property "updatedAt" (num m) end)))))
      ≡ has_key id d
unfolding item_exists encode_children encode_items lookup same_text
children_exist id n m [] = refl
children_exist id n m ((j, item) ∷ d) = has_key-encode_items id ((j, item) ∷ d)

-- The children of a stored set are its items.
item_exists-encode :
    (id : String) (s : RecordSet) → item_exists id (some (encode_record_set s)) ≡ has_key id s.items
unfolding encode_record_set
item_exists-encode id s = children_exist id s.count s.updated_at s.items

-- An update with a valid id and payload is stored, and the other records are as they were, however
-- other requests change the value that is read first, if they leave a readable set with the record
-- to the transaction and change nothing after it.
pub update_stores :
    (before : Stored → Stored) (id : String) (key : Option Json) (p : EncryptedPayload) (now : ℕ)
    (first value : Json) (s : RecordSet)
    → sanitize_encrypted_key_record key ≡ ok p
    → IsRecordId id
    → before (some first) ≡ some value
    → sanitize_record_set (some value) ≡ ok s
    → has_key id s.items ≡ true
    → (j : String)
    → ((update_key_record before (λ w. w) id key now (some first)).0 ≡ ok (id, p))
      × (lookup j (items_of (update_key_record before (λ w. w) id key now (some first)).1)
          ≡ (if same_text id j then some (new_item p now) else lookup j s.items))
unfolding update_key_record exists transaction settle update_step has_item confirm_update
update_stores before id key p now first value s good valid meanwhile read there j =
    let (sound, stable) = sanitize_record_set_sound (some value) s read in
    let all_valid =
      insert-AllValid id (new_item p now) s.items valid
        (sanitize_encrypted_key_record-IsKey key good) sound.0 in
    let found : has_key id (insert id (new_item p now) s.items) ≡ true =
      ground (arith, has_key-insert id id (new_item p now) s.items, same_text_iff id id) in
    rw (good, valid.0, meanwhile, read, there, item_exists-encode id _, found)
      (
        refl,
        ap (lookup j)
              (items_of-reread _ all_valid (insert-IsKeyed id (new_item p now) s.items sound.1))
            ∙ lookup-insert id j (new_item p now) s.items,
      )

-- When the whole set is deleted between the first read and the transaction, an update with a valid
-- id and payload fails, and an empty set is left behind.
pub update_of_deleted_set :
    (before : Stored → Stored) (id : String) (key : Option Json) (p : EncryptedPayload) (now : ℕ)
    (first : Json)
    → sanitize_encrypted_key_record key ≡ ok p
    → IsRecordId id
    → before (some first) ≡ none
    → update_key_record before (λ w. w) id key now (some first)
      ≡ (err not_found, some (encode_record_set (create_empty now)))
unfolding update_key_record exists transaction settle update_step confirm_update item_exists
    encode_record_set create_empty encode_items encode_children lookup same_text
update_of_deleted_set before id key p now first good valid deleted =
    rw (good, valid.0, deleted) refl

-- A deleted record is no longer read, and the other records are as they were.
pub delete_removes :
    (before : Stored → Stored) (id : String) (now : ℕ) (first value : Json) (s : RecordSet)
    → IsRecordId id
    → before (some first) ≡ some value
    → sanitize_record_set (some value) ≡ ok s
    → has_key id s.items ≡ true
    → (j : String)
    → ((delete_key_record before id now (some first)).0 ≡ ok true)
      × (lookup j (items_of (delete_key_record before id now (some first)).1)
          ≡ (if same_text id j then none else lookup j s.items))
unfolding delete_key_record exists transaction settle delete_step has_item
delete_removes before id now first value s valid meanwhile read there j =
    let (sound, stable) = sanitize_record_set_sound (some value) s read in
    rw (valid.0, meanwhile, read, there)
      (
        refl,
        ap (lookup j) (
              items_of-reread _ (remove-AllValid id s.items sound.0)
                (remove-IsKeyed id s.items sound.1))
            ∙ lookup-remove id j s.items,
      )
