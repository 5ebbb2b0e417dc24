-- ===== src/Responses/Records.antt =====
-- Key records, from the server to the app (apps/mobile/src/api/request/responseSchema.ts,
-- apps/server/src/features/user/application/UserService.ts and
-- apps/server/src/features/user/infrastructure/UserKeyRepository.ts).
use Prim.Native.String.{String}
use purrivacy_app.Prelude.{
  ℕ, ◌≤◌, ◌<◌, ◌≡◌, refl, false, Option, some, List, [], ◌∷◌, arith, length, same_text,
}
use purrivacy_app.Prelude.Dict.{lookup}
use purrivacy_app.Server.Errors.{ok}
use purrivacy_app.Server.Json.{Json}
use purrivacy_app.Server.Text.{is_empty, text_length, trim, trim_start, trim_end}
use purrivacy_app.UserKeys.Payload.{EncryptedPayload, sanitize_encrypted_key_record}
use purrivacy_app.UserKeys.RecordSet.{RecordSet, assert_user_key_record_id, sanitize_record_set}
use purrivacy_app.UserKeys.Stored.{IsKey, IsRecordId}
use purrivacy_app.UserKeys.Read.{sanitize_encrypted_key_record-IsKey}
use purrivacy_app.UserKeys.Repository.{KeyRecord, add_key_record}
use purrivacy_app.UserKeys.Effects.{add_stores}
use purrivacy_app.Responses.Fields.{accepted, as_record, require_string, check_string}
use purrivacy_app.Responses.Types.{EncryptedKeyRecord}
use purrivacy_app.Responses.Values.{parse_encrypted_key_record_value}
use purrivacy_app.Responses.Parsers.{parse_encrypted_key_record}
use purrivacy_app.Responses.Registry.{
  a_key_record, valid, exact_contract, contract_of, first_of, run_parser, finish, validate_with,
  validate_response,
}
use purrivacy_app.Responses.Sent.{key_record_body}

-- The record as the app has it
unfoldable pub received : KeyRecord → EncryptedKeyRecord
received (id, key) = record {
  base = record { encrypted_data = key.encrypted_data; iv = key.iv; tag = key.tag };
  record_id = id;
}

unfoldable pub received_all : List KeyRecord → List EncryptedKeyRecord
unfolding received
received_all [] = []
received_all (sent ∷ records) = received sent ∷ received_all records

abbrev pub IsSendable : KeyRecord → Type 0
IsSendable (id, key) =
    (is_empty id ≡ false)
    × (is_empty key.encrypted_data ≡ false)
    × (is_empty key.iv ≡ false)
    × (is_empty key.tag ≡ false)

trimmed_filled : (s : String) → 1 ≤ text_length (trim s) → is_empty s ≡ false
unfolding is_empty trim trim_start trim_end text_length
trimmed_filled String.[] h = absurd (omega (arith, h))
trimmed_filled (String.◌∷◌ c s) h = refl

record_id_filled : (id : String) → IsRecordId id → is_empty id ≡ false
unfolding assert_user_key_record_id
record_id_filled id h = trimmed_filled id (ground (arith, h.0))

pub valid-IsSendable :
    (id : String) (key : EncryptedPayload) → IsRecordId id → IsKey key → IsSendable (id, key)
valid-IsSendable id key good fits =
    (record_id_filled id good, trimmed_filled key.encrypted_data fits.0.0, fits.1.2, fits.2.2)

pub parse-key_record_body :
    (what : String) (sent : KeyRecord)
    → IsSendable sent
    → parse_encrypted_key_record_value what (some (key_record_body sent)) ≡ accepted (received sent)
unfolding parse_encrypted_key_record_value key_record_body as_record require_string check_string
    lookup same_text received
parse-key_record_body what (id, key) (a, b, c, d) = rw (b, c, d, a) refl

-- The server's answer to a record that it adds passes the app's validation: the record has a valid
-- payload and a valid id, the stored set can be read, and there is room in it. The app gets the id and
-- the payload as they were stored.
pub added_record_arrives :
    (max : ℕ) (id : String) (key : Option Json) (p : EncryptedPayload) (now : ℕ) (value : Json)
    (s : RecordSet)
    → sanitize_encrypted_key_record key ≡ ok p
    → IsRecordId id
    → sanitize_record_set (some value) ≡ ok s
    → length s.items < max
    → ((add_key_record max (some id) key now (some value)).0 ≡ ok (id, p))
      × (validate_response "/user/key-records" "POST" (key_record_body (id, p))
          ≡ valid (a_key_record (received (id, p))))
unfolding validate_response validate_with contract_of exact_contract first_of same_text run_parser
    parse_encrypted_key_record finish
added_record_arrives max id key p now value s good named read room =
    let sendable = valid-IsSendable id p named (sanitize_encrypted_key_record-IsKey key good) in
    (
      (add_stores max id key p now value s good named read room id).0,
      rw (parse-key_record_body "key record" (id, p) sendable) refl,
    )
