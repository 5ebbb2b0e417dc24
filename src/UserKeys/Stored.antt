-- ===== src/UserKeys/Stored.antt =====
-- What is read back from a stored set of encrypted keys
-- (apps/server/src/features/user/infrastructure/userKeys/userKeyRecordSet.ts).
use purrivacy_app.Prelude.{
  ℕ, String, ◌≡◌, refl, sym, ap, ◌∙◌, true, false, Option, none, some, [], ◌∷◌, ◌++◌, arith, length,
  same_text, same_text_iff,
}
use purrivacy_app.Prelude.Dict.{Dict, lookup, insert, has_key, IsKeyed, has_key-insert}
use purrivacy_app.Server.Errors.{ok}
use purrivacy_app.Server.Json.{num, obj, entries, Properties, property, end}
use purrivacy_app.UserKeys.Payload.{
  EncryptedPayload, max_encrypted_key_data_length, sanitize_encrypted_key_record, assert_record,
}
use purrivacy_app.UserKeys.Accepted.{IsPayload, sanitize_encrypted_payload_complete}
use purrivacy_app.UserKeys.RecordSet.{
  Item, RecordSet, assert_user_key_record_id, as_number, sanitize_item, sanitize_entries,
  sanitize_items, number_or_zero, sanitize_record_set, encode_updated_at, encode_children,
  encode_item, encode_items, encode_record_set,
}

abbrev pub IsKey : EncryptedPayload → Type 0
IsKey = IsPayload max_encrypted_key_data_length

abbrev pub IsRecordId : String → Type 0
IsRecordId id = (assert_user_key_record_id id ≡ ok true) × (same_text id "__proto__" ≡ false)

-- Every entry has a valid id and a valid payload.
abbrev pub AllValid : Dict Item → Type 0
AllValid [] = Unit
AllValid ((id, item) ∷ items) = IsRecordId id × IsKey item.payload × AllValid items

-- A set as the code stores it.
abbrev pub IsRecordSet : RecordSet → Type 0
IsRecordSet s = AllValid s.items × IsKeyed s.items × (s.count ≡ length s.items)

updated_at_read :
    (o : Option ℕ) → as_number (lookup "updatedAt" (entries (encode_updated_at o))) ≡ o
unfolding encode_updated_at lookup same_text as_number
updated_at_read none = refl
updated_at_read (some n) = refl

sanitize-encode_item :
    (item : Item) → IsKey item.payload → sanitize_item (encode_item item) ≡ ok item
unfolding sanitize_item encode_item sanitize_encrypted_key_record assert_record lookup same_text
sanitize-encode_item item h =
    rw
      (
        sanitize_encrypted_payload_complete max_encrypted_key_data_length _ item.payload refl refl
            refl h,
        updated_at_read item.updated_at,
      )
      refl

-- No entry's id is a key of the items.
abbrev AllNew : Dict Item → Dict Item → Type 0
AllNew items [] = Unit {0}
AllNew items ((id, item) ∷ rest) = (has_key id items ≡ false) × AllNew items rest

AllNew-insert :
    (id : String) (item : Item) (items rest : Dict Item)
    → AllNew items rest
    → has_key id rest ≡ false
    → AllNew (insert id item items) rest
AllNew-insert id item items [] new h = tt
AllNew-insert id item items ((j, other) ∷ rest) new h = ground (
  arith,
  has_key-insert id j item items,
  same_text_iff id j,
  same_text_iff j id,
  AllNew-insert id item items rest,
)

AllNew-nil : (rest : Dict Item) → AllNew [] rest
AllNew-nil [] = tt
AllNew-nil ((j, item) ∷ rest) = (refl, AllNew-nil rest)

insert_new :
    (id : String) (item : Item) (items : Dict Item)
    → has_key id items ≡ false
    → insert id item items ≡ items ++ (id, item) ∷ []
unfolding insert
insert_new id item [] h = refl
insert_new id item ((j, other) ∷ items) h = ground (arith, insert_new id item items)

append_assoc : (a b c : Dict Item) → (a ++ b) ++ c ≡ a ++ (b ++ c)
append_assoc [] b c = refl
append_assoc (x ∷ a) b c = rw (append_assoc a b c)

append_nil : (a : Dict Item) → a ++ [] ≡ a
append_nil [] = refl
append_nil (x ∷ a) = rw (append_nil a)

sanitize-encode_entries :
    (rest items : Dict Item)
    → AllValid rest
    → IsKeyed rest
    → AllNew items rest
    → sanitize_entries (entries (encode_items rest)) items ≡ ok (items ++ rest)
unfolding sanitize_entries encode_items
sanitize-encode_entries [] items valid keyed new = rw (append_nil items) refl
sanitize-encode_entries ((id, item) ∷ rest) items valid keyed new =
    let later =
      sanitize-encode_entries rest (insert id item items) valid.2 keyed.1
        (AllNew-insert id item items rest new.1 keyed.0) in
    rw (valid.0.0, valid.0.1, sanitize-encode_item item valid.1)
      (later
        ∙ rw (insert_new id item items new.0) (ap ok (append_assoc items ((id, item) ∷ []) rest)))

items_read :
    (items : Dict Item) (n : ℕ)
    → AllValid items
    → IsKeyed items
    → sanitize_items (
        lookup "items"
          (entries (encode_children (encode_items items) (property "updatedAt" (num n) end))))
      ≡ ok items
unfolding sanitize_items encode_children encode_items lookup same_text
items_read [] n valid keyed = refl
items_read ((id, item) ∷ items) n valid keyed =
    sanitize-encode_entries ((id, item) ∷ items) [] valid keyed (AllNew-nil ((id, item) ∷ items))

time_read :
    (ps : Properties) (n : ℕ)
    → lookup "updatedAt" (entries (encode_children ps (property "updatedAt" (num n) end)))
      ≡ some (num n)
unfolding encode_children lookup same_text
time_read end n = refl
time_read (property k v ps) n = refl

fields_read :
    (ps : Properties) (d : Dict Item) (n : ℕ)
    → sanitize_items (lookup "items" (entries ps)) ≡ ok d
    → lookup "updatedAt" (entries ps) ≡ some (num n)
    → sanitize_record_set (some (obj ps))
      ≡ ok (record { count = length d; items = d; updated_at = n })
unfolding sanitize_record_set assert_record as_number number_or_zero
fields_read ps d n h t = rw (h, t) refl

-- A stored set is read back with its count recomputed.
pub reread :
    (s : RecordSet)
    → AllValid s.items
    → IsKeyed s.items
    → sanitize_record_set (some (encode_record_set s))
      ≡ ok (record { count = length s.items; items = s.items; updated_at = s.updated_at })
unfolding encode_record_set lookup same_text
reread s valid keyed =
    fields_read _ s.items s.updated_at (items_read s.items s.updated_at valid keyed)
      (time_read (encode_items s.items) s.updated_at)

-- A set with valid entries under distinct ids and a true count is read back as it was stored.
pub sanitize-encode :
    (s : RecordSet) → IsRecordSet s → sanitize_record_set (some (encode_record_set s)) ≡ ok s
sanitize-encode s (valid, keyed, exact) = reread s valid keyed ∙ rw (sym exact) refl
