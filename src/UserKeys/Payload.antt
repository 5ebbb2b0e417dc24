-- ===== src/UserKeys/Payload.antt =====
-- The validation of encrypted data
-- (apps/server/src/features/user/domain/EncryptedUserDataValidator.ts). A value is `none` where the
-- source has `undefined`; the names in the messages are left out.
use Prim.Native.Char.{code}
use purrivacy_app.Prelude.{
  ℕ, zero, suc, ◌+◌, ◌*◌, ◌%◌, String, Bool, true, false, not, ◌||◌, ◌&&◌, Option, some, List, [],
  ◌∷◌, length, ltb, ◌==◌, if◌then◌else◌,
}
use purrivacy_app.Prelude.Dict.{Dict, lookup}
use purrivacy_app.Server.Errors.{bad_request, Result, ok, err, ◌>>=◌}
use purrivacy_app.Server.Json.{Json, str, arr, obj, entries, elements}
use purrivacy_app.Server.Text.{text_length, trim, all_chars, is_hex, is_empty, between}

abbrev pub max_encrypted_key_data_length : ℕ
max_encrypted_key_data_length = 1_000_000

abbrev pub max_encrypted_keys_transfer_length : ℕ
max_encrypted_keys_transfer_length = 8_000_000

abbrev pub max_dek_encrypted_data_length : ℕ
max_dek_encrypted_data_length = 512

abbrev pub recovery_verifier_salt_bytes : ℕ
recovery_verifier_salt_bytes = 16

abbrev pub recovery_verifier_hash_bytes : ℕ
recovery_verifier_hash_bytes = 32

-- `assertRecord`, with the object's properties
unfoldable pub assert_record : Option Json → Result (Dict Json)
assert_record (some (obj ps)) = ok (entries ps)
assert_record _ = err bad_request

-- `assertString`
unfoldable pub assert_string : ℕ → Option Json → Result String
assert_string max_length (some (str value)) =
    if text_length (trim value) == 0
    then err bad_request
    else if ltb max_length (text_length value)
    then err bad_request
    else ok value
assert_string max_length _ = err bad_request

-- `assertHex`
unfoldable pub assert_hex : ℕ → Option Json → Result String
unfolding assert_string
assert_hex expected_bytes value = assert_string (expected_bytes * 2) value >>= λ text.
    if not (text_length text == expected_bytes * 2) || is_empty text || not (all_chars is_hex text)
    then err bad_request
    else ok text

-- `[A-Za-z0-9+/]`
unfoldable pub is_base64 : ℕ → Bool
is_base64 n =
    between b'A' b'Z' n || between b'a' b'z' n || between b'0' b'9' n || n == b'+' || n == b'/'

-- `={0,n}$`
unfoldable pub is_padding : ℕ → String → Bool
is_padding n String.[] = true
is_padding zero (String.◌∷◌ c s) = false
is_padding (suc n) (String.◌∷◌ c s) = code c == b'=' && is_padding n s

-- `BASE64_RE`
unfoldable pub base64_re : String → Bool
unfolding is_base64 is_padding
base64_re String.[] = true
base64_re (String.◌∷◌ c s) =
    let rest = base64_re s in if is_base64 (code c) then rest else is_padding 2 (String.◌∷◌ c s)

-- `assertBase64`
unfoldable pub assert_base64 : ℕ → Option Json → Result String
unfolding assert_string base64_re
assert_base64 max_length value = assert_string max_length value >>= λ text.
    if not (base64_re text) || not (text_length text % 4 == 0) then err bad_request else ok text

pub record EncryptedPayload : Type 0 where
  pub encrypted_data : String
  pub iv : String
  pub tag : String

-- An `EncryptedPayload` and its salt
pub record SaltedEncryptedPayload : Type 0 where
  pub base : EncryptedPayload
  pub salt : String

unfoldable pub encrypted_base_length : EncryptedPayload → ℕ
encrypted_base_length value =
    text_length value.encrypted_data + text_length value.iv + text_length value.tag

unfoldable pub encrypted_length : SaltedEncryptedPayload → ℕ
unfolding encrypted_base_length
encrypted_length value = encrypted_base_length value.base + text_length value.salt

-- `sanitizeEncryptedPayload`
unfoldable pub sanitize_encrypted_payload : ℕ → Option Json → Result EncryptedPayload
unfolding assert_record assert_base64 assert_hex
sanitize_encrypted_payload max_length value = assert_record value >>= λ fields.
    assert_base64 max_length (lookup "encryptedData" fields) >>= λ text.
    assert_hex 12 (lookup "iv" fields) >>= λ nonce. assert_hex 16 (lookup "tag" fields) >>= λ mac.
    ok record { encrypted_data = text; iv = nonce; tag = mac }

-- `sanitizeSaltedEncryptedPayload`
unfoldable pub sanitize_salted_encrypted_payload : Option Json → Result SaltedEncryptedPayload
unfolding sanitize_encrypted_payload
sanitize_salted_encrypted_payload value = assert_record value >>= λ fields.
    sanitize_encrypted_payload max_dek_encrypted_data_length value >>= λ payload.
    assert_hex 16 (lookup "salt" fields) >>= λ text. ok record { base = payload; salt = text }

-- `sanitizeEncryptedKeyRecord`
unfoldable pub sanitize_encrypted_key_record : Option Json → Result EncryptedPayload
unfolding sanitize_encrypted_payload
sanitize_encrypted_key_record = sanitize_encrypted_payload max_encrypted_key_data_length

-- `value.map(...)` in `sanitizeEncryptedKeys`
unfoldable pub sanitize_each : List Json → Result (List EncryptedPayload)
unfolding sanitize_encrypted_payload
sanitize_each [] = ok []
sanitize_each (key ∷ keys) =
    sanitize_encrypted_payload max_encrypted_key_data_length (some key) >>= λ payload.
    sanitize_each keys >>= λ payloads. ok (payload ∷ payloads)

-- `keys.reduce((total, key) => total + encryptedBaseLength(key), 0)`
unfoldable pub total_length : List EncryptedPayload → ℕ
unfolding encrypted_base_length
total_length [] = 0
total_length (key ∷ keys) = encrypted_base_length key + total_length keys

-- `sanitizeEncryptedKeys`
unfoldable pub sanitize_encrypted_keys : ℕ → Option Json → Result (List EncryptedPayload)
unfolding sanitize_each total_length
sanitize_encrypted_keys max_keys (some (arr keys)) =
    if ltb max_keys (length (elements keys))
    then err bad_request
    else (sanitize_each (elements keys) >>= λ payloads.
        if ltb max_encrypted_keys_transfer_length (total_length payloads)
        then err bad_request
        else ok payloads)
sanitize_encrypted_keys max_keys _ = err bad_request

pub record UserEncryptedData : Type 0 where
  pub dek_password : SaltedEncryptedPayload
  pub dek_seed : SaltedEncryptedPayload
  pub keys : List EncryptedPayload

-- `sanitizeUserEncryptedData`
unfoldable pub sanitize_user_encrypted_data : ℕ → Option Json → Result UserEncryptedData
unfolding assert_record sanitize_salted_encrypted_payload sanitize_encrypted_keys encrypted_length
sanitize_user_encrypted_data max_keys value = assert_record value >>= λ fields.
    sanitize_salted_encrypted_payload (lookup "dekPassword" fields) >>= λ password.
    sanitize_salted_encrypted_payload (lookup "dekSeed" fields) >>= λ seed.
    sanitize_encrypted_keys max_keys (lookup "keys" fields) >>= λ payloads.
    if ltb (max_encrypted_keys_transfer_length + max_dek_encrypted_data_length * 2)
      (encrypted_length password + encrypted_length seed + total_length payloads)
    then err bad_request
    else ok record { dek_password = password; dek_seed = seed; keys = payloads }

-- The `User` that is created
pub record User : Type 0 where
  pub encrypted : UserEncryptedData
  pub recovery_verifier_salt : String
  pub recovery_verifier_hash : String
  pub mfa_enabled : Bool

-- `sanitizeUserForCreate`
unfoldable pub sanitize_user_for_create : ℕ → Option Json → Result User
unfolding sanitize_user_encrypted_data
sanitize_user_for_create max_keys value = assert_record value >>= λ fields.
    sanitize_user_encrypted_data max_keys value >>= λ sanitized.
    assert_hex recovery_verifier_salt_bytes (lookup "recoveryVerifierSalt" fields) >>= λ text.
    assert_hex recovery_verifier_hash_bytes (lookup "recoveryVerifierHash" fields) >>= λ hash.
    ok record {
      encrypted = sanitized;
      recovery_verifier_salt = text;
      recovery_verifier_hash = hash;
      mfa_enabled = false;
    }
