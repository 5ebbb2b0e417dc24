-- ===== src/UserKeys/Samples.antt =====
-- A user's keys for the examples.
use Prim.Native.String.{String}
use purrivacy_app.Prelude.{◌≡◌, refl, some, [], ◌∷◌, arith, same_text}
use purrivacy_app.Prelude.Dict.{lookup}
use purrivacy_app.Server.Errors.{ok}
use purrivacy_app.Server.Json.{Json, str, obj, property, end}
use purrivacy_app.Server.Text.{
  text_length, is_space, trim, trim_start, trim_end, all_chars, is_hex, is_empty,
}
use purrivacy_app.UserKeys.Payload.{
  EncryptedPayload, assert_record, assert_string, assert_hex, assert_base64, is_base64, is_padding,
  base64_re, sanitize_encrypted_payload, sanitize_encrypted_key_record,
}
use purrivacy_app.UserKeys.RecordSet.{
  Item, RecordSet, is_key_char, assert_user_key_record_id, encode_record_set, sanitize_record_set,
}
use purrivacy_app.UserKeys.Stored.{IsKey, IsRecordId, IsRecordSet, sanitize-encode}

abbrev pub payload : EncryptedPayload
payload = record {
  encrypted_data = "QUJD";
  iv = "00112233445566778899aabb";
  tag = "00112233445566778899aabbccddeeff";
}

-- The request's value of the payload
abbrev pub payload_json : Json
payload_json = obj (
    property "encryptedData" (str payload.encrypted_data)
      (property "iv" (str payload.iv) (property "tag" (str payload.tag) end)))

abbrev pub first_id : String
first_id = "-Na1"

abbrev pub second_id : String
second_id = "-Nb2"

abbrev pub first_item : Item
first_item = record { payload = payload; updated_at = some 5 }

abbrev pub one_record : RecordSet
one_record = record { count = 1; items = (first_id, first_item) ∷ []; updated_at = 5 }

abbrev pub stored_record : Json
stored_record = encode_record_set one_record

pub payload_read : sanitize_encrypted_key_record (some payload_json) ≡ ok payload
unfolding sanitize_encrypted_key_record sanitize_encrypted_payload assert_record assert_string
    assert_hex assert_base64 is_base64 is_padding base64_re text_length is_space trim trim_start
    trim_end all_chars is_hex is_empty lookup same_text
payload_read = refl

pub payload-IsKey : IsKey payload
unfolding base64_re is_base64 is_padding text_length is_space trim trim_start trim_end all_chars
    is_hex is_empty
payload-IsKey = ground arith

pub first-IsRecordId : IsRecordId first_id
unfolding assert_user_key_record_id is_key_char text_length is_space trim trim_start trim_end
    all_chars is_empty same_text
first-IsRecordId = (refl, refl)

pub second-IsRecordId : IsRecordId second_id
unfolding assert_user_key_record_id is_key_char text_length is_space trim trim_start trim_end
    all_chars is_empty same_text
second-IsRecordId = (refl, refl)

pub one_record-IsRecordSet : IsRecordSet one_record
one_record-IsRecordSet = ((first-IsRecordId, payload-IsKey, tt), (refl, tt), refl)

pub stored_record_read : sanitize_record_set (some stored_record) ≡ ok one_record
stored_record_read = sanitize-encode one_record one_record-IsRecordSet
