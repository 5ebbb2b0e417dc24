-- ===== src/UserKeys/Examples.antt =====
-- Tests and examples on a user's keys.
use mathlib.Core.List.{Perm}
use purrivacy_app.Prelude.{◌≡◌, refl, none, some, arith, same_text}
use purrivacy_app.Prelude.Dict.{lookup, insert}
use purrivacy_app.Server.Errors.{not_found, ok, err}
use purrivacy_app.Server.Text.{is_empty, text_length, trim, all_chars, is_hex}
use purrivacy_app.UserKeys.RecordSet.{
  create_empty, sanitize_record_set, encode_record_set, number_or_zero,
}
use purrivacy_app.UserKeys.Stored.{IsRecordSet, sanitize-encode}
use purrivacy_app.UserKeys.Read.{sanitize_record_set_sound}
use purrivacy_app.UserKeys.Repository.{
  new_item, is_object_member, has_item, transaction, settle, exists, confirm_update, update_step,
  update_key_record,
}
use purrivacy_app.UserKeys.Quota.{IsWithinQuota}
use purrivacy_app.UserKeys.History.{
  Requests, add, update, delete, read, done, followed_by, AllOrdinary, run_all,
  run_all-IsWithinQuota,
}
use purrivacy_app.UserKeys.Effects.{items_of, update_of_deleted_set}
use purrivacy_app.UserKeys.Cursor.{encode_cursor}
use purrivacy_app.UserKeys.Pages.{paginate, to_entries, filter_since, is_since, to_key_records}
use purrivacy_app.UserKeys.Order.{Ascending}
use purrivacy_app.UserKeys.FetchAll.{fetch_all_key_records}
use purrivacy_app.UserKeys.AllRecords.{request_page, sorted_since, fetch_all_is_complete}
use purrivacy_app.UserKeys.Samples.{
  payload, payload_json, first_id, second_id, one_record, stored_record, payload_read,
  first-IsRecordId, one_record-IsRecordSet, stored_record_read,
}

sanitize-encode_example : sanitize_record_set (some (encode_record_set one_record)) ≡ ok one_record
sanitize-encode_example = sanitize-encode one_record one_record-IsRecordSet

sanitize_record_set_sound_example :
    IsRecordSet one_record
    × (sanitize_record_set (some (encode_record_set one_record)) ≡ ok one_record)
sanitize_record_set_sound_example =
    sanitize_record_set_sound (some stored_record) one_record stored_record_read

abbrev requests : Requests
requests = followed_by (add (some first_id) (some payload_json) 5) (
    followed_by
      (update first_id (some payload_json) 7 (followed_by (delete first_id 6 done) done) done)
      (followed_by (add (some second_id) (some payload_json) 8) (followed_by (read 9) done)))

requests-AllOrdinary : AllOrdinary requests
unfolding is_object_member same_text
requests-AllOrdinary = ground arith

run_all-IsWithinQuota_example : IsWithinQuota 1 (run_all 1 requests none)
run_all-IsWithinQuota_example =
    run_all-IsWithinQuota 1 requests none (omega arith) requests-AllOrdinary tt

update_of_deleted_set_example :
    update_key_record (λ w. none) (λ w. w) first_id (some payload_json) 7 (some stored_record)
    ≡ (err not_found, some (encode_record_set (create_empty 7)))
update_of_deleted_set_example =
    update_of_deleted_set (λ w. none) first_id (some payload_json) payload 7 stored_record
      payload_read first-IsRecordId refl

fetch_all_is_complete_example :
    (fetch_all_key_records (request_page 9 1 (some 2) stored_record)
      ≡ ok (to_key_records (sorted_since (some 2) one_record.items)))
    × Ascending (sorted_since (some 2) one_record.items)
    × Perm
        (sorted_since (some 2) one_record.items)
        (filter_since (number_or_zero (some 2)) (to_entries one_record.items))
unfolding filter_since to_entries number_or_zero is_since
fetch_all_is_complete_example =
    fetch_all_is_complete 9 1 (some 2) stored_record one_record stored_record_read (omega arith)
      (omega arith)

-- An id that every object inherits passes for a record of a full set, and an update inserts it.
inherited_id :
    lookup "constructor" (
      items_of
        (update_key_record
          (λ w. w)
          (λ w. w)
          "constructor"
          (some payload_json)
          7
          (some stored_record)).1)
    ≡ some (new_item payload 7)
unfolding update_key_record exists transaction settle update_step has_item confirm_update insert
    lookup same_text sanitize_record_set encode_record_set text_length trim all_chars is_hex
inherited_id = refl

-- A cursor behind the last record starts again at the first.
restart :
    paginate (to_entries one_record.items) 1 (some (encode_cursor (5, first_id))) none
    ≡ paginate (to_entries one_record.items) 1 none none
unfolding paginate to_entries encode_cursor is_empty all_chars text_length trim
restart = refl
