-- ===== src/UserKeys/RecordSet.antt =====
-- The stored set of a user's encrypted keys
-- (apps/server/src/features/user/infrastructure/userKeys/userKeyRecordSet.ts and userKeyRefs.ts) and
-- its value in the Realtime Database, which keeps no empty object. The id `__proto__` names no
-- property of an object under construction: such an entry is left out of the items.
use purrivacy_app.Prelude.{
  ℕ, String, Bool, true, not, ◌||◌, Option, none, some, [], ◌∷◌, length, ◌==◌, if◌then◌else◌,
  same_text,
}
use purrivacy_app.Prelude.Dict.{Dict, lookup, insert}
use purrivacy_app.Server.Errors.{bad_request, Result, ok, err, ◌>>=◌}
use purrivacy_app.Server.Json.{Json, null, num, str, obj, entries, Properties, property, end}
use purrivacy_app.Server.Text.{text_length, trim, all_chars}
use purrivacy_app.UserKeys.Payload.{EncryptedPayload, assert_record, sanitize_encrypted_key_record}

-- No character is in `INVALID_RTDB_KEY_CHARS`.
unfoldable pub is_key_char : ℕ → Bool
is_key_char n = not (n == b'.' || n == b'$' || n == b'#' || n == b'[' || n == b']' || n == b'/')

-- `assertRtdbKey` and `assertUserKeyRecordId`
unfoldable pub assert_user_key_record_id : String → Result Bool
unfolding is_key_char
assert_user_key_record_id id =
    if text_length (trim id) == 0 || not (all_chars is_key_char id)
    then err bad_request
    else ok true

-- `UserEncryptedKeyItem`
pub record Item : Type 0 where
  pub payload : EncryptedPayload
  pub updated_at : Option ℕ

-- `UserEncryptedKeysRecordSet`
pub record RecordSet : Type 0 where
  pub count : ℕ
  pub items : Dict Item
  pub updated_at : ℕ

-- `createEmptyUserEncryptedKeyRecordSet`
unfoldable pub create_empty : ℕ → RecordSet
create_empty now = record { count = 0; items = []; updated_at = now }

-- `typeof value === 'number'`
unfoldable pub as_number : Option Json → Option ℕ
as_number (some (num n)) = some n
as_number _ = none

-- `sanitizeUserEncryptedKeyItem`
unfoldable pub sanitize_item : Json → Result Item
unfolding as_number assert_record
sanitize_item value = sanitize_encrypted_key_record (some value) >>= λ key.
    assert_record (some value) >>= λ fields.
    ok record { payload = key; updated_at = as_number (lookup "updatedAt" fields) }

-- `items[recordId] = item`
abbrev pub assign : String → Item → Dict Item → Dict Item
assign id item items = if same_text id "__proto__" then items else insert id item items

-- The loop of `sanitizeUserEncryptedKeyItems`
unfoldable pub sanitize_entries : Dict Json → Dict Item → Result (Dict Item)
unfolding assert_user_key_record_id sanitize_item
sanitize_entries [] items = ok items
sanitize_entries ((id, key) ∷ rest) items = assert_user_key_record_id id >>= λ valid.
    sanitize_item key >>= λ item. sanitize_entries rest (assign id item items)

-- `sanitizeUserEncryptedKeyItems`
unfoldable pub sanitize_items : Option Json → Result (Dict Item)
unfolding sanitize_entries
sanitize_items none = ok []
sanitize_items (some null) = ok []
sanitize_items (some (obj ps)) = sanitize_entries (entries ps) []
sanitize_items (some _) = err bad_request

-- `typeof value.updatedAt === 'number' ? value.updatedAt : 0`
unfoldable pub number_or_zero : Option ℕ → ℕ
number_or_zero none = 0
number_or_zero (some n) = n

-- `sanitizeUserEncryptedKeyRecordSet`
unfoldable pub sanitize_record_set : Option Json → Result RecordSet
unfolding assert_record sanitize_items as_number number_or_zero
sanitize_record_set value = assert_record value >>= λ fields.
    sanitize_items (lookup "items" fields) >>= λ sanitized. ok record {
      count = length sanitized;
      items = sanitized;
      updated_at = number_or_zero (as_number (lookup "updatedAt" fields));
    }

-- The property is left out when it is `undefined`.
unfoldable pub encode_updated_at : Option ℕ → Properties
encode_updated_at none = end
encode_updated_at (some n) = property "updatedAt" (num n) end

-- The stored value of an item
unfoldable pub encode_item : Item → Json
unfolding encode_updated_at
encode_item item = obj (
    property "encryptedData" (str item.payload.encrypted_data) (
      property "iv" (str item.payload.iv)
        (property "tag" (str item.payload.tag) (encode_updated_at item.updated_at))))

unfoldable pub encode_items : Dict Item → Properties
unfolding encode_item
encode_items [] = end
encode_items ((id, item) ∷ items) = property id (encode_item item) (encode_items items)

-- An empty object is not stored.
unfoldable pub encode_children : Properties → Properties → Properties
encode_children end rest = rest
encode_children (property k v ps) rest = property "items" (obj (property k v ps)) rest

-- The stored value of a set
unfoldable pub encode_record_set : RecordSet → Json
unfolding encode_items encode_children
encode_record_set s =
    let rest = property "updatedAt" (num s.updated_at) end in
    obj (property "count" (num s.count) (encode_children (encode_items s.items) rest))
