-- ===== src/Responses/Values.antt =====
-- The parsers of nested values (apps/mobile/src/api/request/responseSchema.ts).
use Prim.Native.String.{◌++◌}
use purrivacy_app.Prelude.{ℕ, suc, String, Option, some, List, [], ◌∷◌}
use purrivacy_app.Server.Json.{Json}
use purrivacy_app.UserKeys.Cursor.{print_number}
use purrivacy_app.Responses.Fields.{Checked, accepted, ◌>>=◌, as_record, require_string}
use purrivacy_app.Responses.Types.{EncryptionBase, Encryption, EncryptedKeyRecord}

-- `parseEncryptionBaseValue`
unfoldable pub parse_encryption_base_value : String → Option Json → Checked EncryptionBase
unfolding as_record require_string
parse_encryption_base_value what value = as_record (some what) value >>= λ raw.
    require_string "encryptedData" raw >>= λ text. require_string "iv" raw >>= λ nonce.
    require_string "tag" raw >>= λ mac.
    accepted record { encrypted_data = text; iv = nonce; tag = mac }

-- `parseEncryptionValue`
unfoldable pub parse_encryption_value : String → Option Json → Checked Encryption
unfolding as_record require_string
parse_encryption_value what value = as_record (some what) value >>= λ raw.
    require_string "encryptedData" raw >>= λ text. require_string "iv" raw >>= λ nonce.
    require_string "tag" raw >>= λ mac. require_string "salt" raw >>= λ grain.
    accepted record { base = record { encrypted_data = text; iv = nonce; tag = mac }; salt = grain }

-- `parseEncryptedKeyRecordValue`
unfoldable pub parse_encrypted_key_record_value : String → Option Json → Checked EncryptedKeyRecord
unfolding as_record require_string
parse_encrypted_key_record_value what value = as_record (some what) value >>= λ raw.
    require_string "encryptedData" raw >>= λ text. require_string "iv" raw >>= λ nonce.
    require_string "tag" raw >>= λ mac. require_string "recordId" raw >>= λ id.
    accepted
      record { base = record { encrypted_data = text; iv = nonce; tag = mac }; record_id = id }

-- `keys[${index}]`
unfoldable pub key_at : ℕ → String
unfolding print_number
key_at index = "keys[" ++ print_number index ++ "]"

-- `keysRaw.map(...)`, from an index on
unfoldable pub parse_each {ℓ} :
    {A : Type ℓ} → (String → Option Json → Checked A) → ℕ → List Json → Checked (List A)
unfolding key_at
parse_each parse index [] = accepted []
parse_each parse index (entry ∷ entries) = parse (key_at index) (some entry) >>= λ first.
    parse_each parse (suc index) entries >>= λ rest. accepted (first ∷ rest)
