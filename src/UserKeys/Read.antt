-- ===== src/UserKeys/Read.antt =====
-- What the values in the database are read as
-- (apps/server/src/features/user/infrastructure/userKeys/userKeyRecordSet.ts).
use purrivacy_app.Prelude.{
  String, ◌≡◌, refl, Bool, true, Option, none, some, [], ◌∷◌, arith, if◌then◌else◌, same_text,
  if_elim,
}
use mathlib.Core.Path.{subst}
use purrivacy_app.Prelude.Dict.{Dict, lookup, insert, IsKeyed, insert-IsKeyed}
use purrivacy_app.Server.Errors.{ok, bind_ok, ok_injective}
use purrivacy_app.Server.Json.{Json, null, bool, num, str, arr, obj, entries}
use purrivacy_app.UserKeys.Payload.{
  max_encrypted_key_data_length, sanitize_encrypted_key_record, assert_record,
}
use purrivacy_app.UserKeys.Accepted.{sanitize_encrypted_payload_sound}
use purrivacy_app.UserKeys.RecordSet.{
  Item, RecordSet, assert_user_key_record_id, sanitize_item, sanitize_entries, sanitize_items,
  sanitize_record_set, encode_record_set,
}
use purrivacy_app.UserKeys.Stored.{IsKey, IsRecordId, AllValid, IsRecordSet, sanitize-encode}

pub sanitize_encrypted_key_record-IsKey :
    (v : Option Json) {p : _} → sanitize_encrypted_key_record v ≡ ok p → IsKey p
unfolding sanitize_encrypted_key_record
sanitize_encrypted_key_record-IsKey v {p} h =
    (sanitize_encrypted_payload_sound max_encrypted_key_data_length v p h).1

pub insert-AllValid :
    (id : String) (item : Item) (items : Dict Item)
    → IsRecordId id
    → IsKey item.payload
    → AllValid items
    → AllValid (insert id item items)
unfolding insert
insert-AllValid id item [] good key h = (good, key, tt)
insert-AllValid id item ((j, other) ∷ items) good key h =
    if_elim AllValid (same_text j id) _ _ (λ same. (h.0, key, h.2))
      (λ differs. (h.0, h.1, insert-AllValid id item items good key h.2))

sanitize_item_sound : (v : Json) (item : Item) → sanitize_item v ≡ ok item → IsKey item.payload
unfolding sanitize_item
sanitize_item_sound v item h =
    let (p, p_ok, after_p) = bind_ok (sanitize_encrypted_key_record (some v)) _ item h in
    let (fields, fields_ok, done) = bind_ok (assert_record (some v)) _ item after_p in
    subst (λ (i : Item). IsKey i.payload) (ok_injective done)
      (sanitize_encrypted_key_record-IsKey (some v) p_ok)

pub id_sound :
    (id : String) (valid : Bool)
    → assert_user_key_record_id id ≡ ok valid
    → assert_user_key_record_id id ≡ ok true
unfolding assert_user_key_record_id
id_sound id valid h = ground arith

sanitize_entries_sound :
    (rest : Dict Json) (items result : Dict Item)
    → AllValid items
    → IsKeyed items
    → sanitize_entries rest items ≡ ok result
    → AllValid result × IsKeyed result
unfolding sanitize_entries
sanitize_entries_sound [] items result valid keyed h =
    subst (λ d. AllValid d × IsKeyed d) (ok_injective h) (valid, keyed)
sanitize_entries_sound ((id, key) ∷ rest) items result valid keyed h =
    let (b, id_ok, after_id) = bind_ok (assert_user_key_record_id id) _ result h in
    let (item, item_ok, after_item) = bind_ok (sanitize_item key) _ result after_id in
    let next = if same_text id "__proto__" then items else insert id item items in
    let good : AllValid next × IsKeyed next =
      if_elim (λ d. AllValid d × IsKeyed d) (same_text id "__proto__") items (insert id item items)
        (λ proto. (valid, keyed))
        (λ other. (
          insert-AllValid id item items (id_sound id b id_ok, other)
              (sanitize_item_sound key item item_ok) valid,
          insert-IsKeyed id item items keyed,
        )) in
    sanitize_entries_sound rest next result good.0 good.1 after_item

sanitize_items_sound :
    (v : Option Json) (result : Dict Item)
    → sanitize_items v ≡ ok result
    → AllValid result × IsKeyed result
unfolding sanitize_items
sanitize_items_sound none result h = subst (λ d. AllValid d × IsKeyed d) (ok_injective h) (tt, tt)
sanitize_items_sound (some null) result h =
    subst (λ d. AllValid d × IsKeyed d) (ok_injective h) (tt, tt)
sanitize_items_sound (some (bool b)) result h = cc
sanitize_items_sound (some (num m)) result h = cc
sanitize_items_sound (some (str s)) result h = cc
sanitize_items_sound (some (arr vs)) result h = cc
sanitize_items_sound (some (obj ps)) result h =
    sanitize_entries_sound (entries ps) [] result tt tt h

-- Whatever the database holds, a set that is read from it has valid payloads under distinct valid ids
-- and counts them exactly; it is read back unchanged once it is stored again.
pub sanitize_record_set_sound :
    (v : Option Json) (s : RecordSet)
    → sanitize_record_set v ≡ ok s
    → IsRecordSet s × (sanitize_record_set (some (encode_record_set s)) ≡ ok s)
unfolding sanitize_record_set
sanitize_record_set_sound v s h =
    let (fields, fields_ok, after_fields) = bind_ok (assert_record v) _ s h in
    let (d, d_ok, done) = bind_ok (sanitize_items (lookup "items" fields)) _ s after_fields in
    let (valid, keyed) = sanitize_items_sound (lookup "items" fields) d d_ok in
    let good : IsRecordSet s = subst IsRecordSet (ok_injective done) (valid, keyed, refl) in
    (good, sanitize-encode s good)
