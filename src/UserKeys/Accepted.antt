-- ===== src/UserKeys/Accepted.antt =====
-- Which encrypted payloads are accepted
-- (apps/server/src/features/user/domain/EncryptedUserDataValidator.ts).
use mathlib.Core.Path.{subst}
use purrivacy_app.Prelude.{
  ℕ, ◌*◌, ◌%◌, ◌≤◌, String, ◌≡◌, refl, true, false, Option, none, some, arith,
}
use purrivacy_app.Prelude.Dict.{lookup}
use purrivacy_app.Server.Errors.{ok, bind_ok, ok_injective}
use purrivacy_app.Server.Json.{Json, null, bool, num, str, arr, obj, entries, Properties}
use purrivacy_app.Server.Text.{text_length, trim, all_chars, is_hex, is_empty}
use purrivacy_app.UserKeys.Payload.{
  EncryptedPayload, assert_record, assert_string, assert_hex, assert_base64, base64_re,
  sanitize_encrypted_payload,
}

abbrev pub IsHexOf : ℕ → String → Type 0
IsHexOf n s =
    (1 ≤ text_length (trim s))
    × (text_length s ≡ n * 2)
    × (is_empty s ≡ false)
    × (all_chars is_hex s ≡ true)

abbrev pub IsBase64 : ℕ → String → Type 0
IsBase64 max s =
    (1 ≤ text_length (trim s))
    × (text_length s ≤ max)
    × (text_length s % 4 ≡ 0)
    × (base64_re s ≡ true)

abbrev pub IsPayload : ℕ → EncryptedPayload → Type 0
IsPayload max p = IsBase64 max p.encrypted_data × IsHexOf 12 p.iv × IsHexOf 16 p.tag

pub assert_hex_sound :
    (n : ℕ) (v : Option Json) (s : String)
    → assert_hex n v ≡ ok s
    → (v ≡ some (str s)) × IsHexOf n s
unfolding assert_hex assert_string
assert_hex_sound n none s h = cc
assert_hex_sound n (some null) s h = cc
assert_hex_sound n (some (bool b)) s h = cc
assert_hex_sound n (some (num m)) s h = cc
assert_hex_sound n (some (arr vs)) s h = cc
assert_hex_sound n (some (obj ps)) s h = cc
assert_hex_sound n (some (str t)) s h = ground arith

pub assert_hex_complete : (n : ℕ) (s : String) → IsHexOf n s → assert_hex n (some (str s)) ≡ ok s
unfolding assert_hex assert_string
assert_hex_complete n s h = ground arith

pub assert_base64_sound :
    (max : ℕ) (v : Option Json) (s : String)
    → assert_base64 max v ≡ ok s
    → (v ≡ some (str s)) × IsBase64 max s
unfolding assert_base64 assert_string
assert_base64_sound max none s h = cc
assert_base64_sound max (some null) s h = cc
assert_base64_sound max (some (bool b)) s h = cc
assert_base64_sound max (some (num m)) s h = cc
assert_base64_sound max (some (arr vs)) s h = cc
assert_base64_sound max (some (obj ps)) s h = cc
assert_base64_sound max (some (str t)) s h = ground arith

pub assert_base64_complete :
    (max : ℕ) (s : String) → IsBase64 max s → assert_base64 max (some (str s)) ≡ ok s
unfolding assert_base64 assert_string
assert_base64_complete max s h = ground arith

-- The object has the fields of a payload.
abbrev pub HasFields : Option Json → EncryptedPayload → Type 0
HasFields v p =
    (ps : Properties) × (v ≡ some (obj ps))
    × (lookup "encryptedData" (entries ps) ≡ some (str p.encrypted_data))
    × (lookup "iv" (entries ps) ≡ some (str p.iv))
    × (lookup "tag" (entries ps) ≡ some (str p.tag))

object_fields_sound :
    (max : ℕ) (ps : Properties) (p : EncryptedPayload)
    → sanitize_encrypted_payload max (some (obj ps)) ≡ ok p
    → HasFields (some (obj ps)) p × IsPayload max p
unfolding sanitize_encrypted_payload assert_record
object_fields_sound max ps p h =
    let (s, s_ok, after_s) =
      bind_ok (assert_base64 max (lookup "encryptedData" (entries ps))) _ p h in
    let (u, u_ok, after_u) = bind_ok (assert_hex 12 (lookup "iv" (entries ps))) _ p after_s in
    let (w, w_ok, done) = bind_ok (assert_hex 16 (lookup "tag" (entries ps))) _ p after_u in
    let (at_s, fits_s) = assert_base64_sound max (lookup "encryptedData" (entries ps)) s s_ok in
    let (at_u, fits_u) = assert_hex_sound 12 (lookup "iv" (entries ps)) u u_ok in
    let (at_w, fits_w) = assert_hex_sound 16 (lookup "tag" (entries ps)) w w_ok in
    subst (λ q. HasFields (some (obj ps)) q × IsPayload max q) (ok_injective done)
      ((ps, refl, at_s, at_u, at_w), (fits_s, fits_u, fits_w))

-- A payload that validation returns is made of the value's fields: base64 data that is not blank, whose
-- length is a multiple of four and at most the maximum, and a nonce of 12 and a tag of 16 bytes in
-- hexadecimal digits.
pub sanitize_encrypted_payload_sound :
    (max : ℕ) (v : Option Json) (p : EncryptedPayload)
    → sanitize_encrypted_payload max v ≡ ok p
    → HasFields v p × IsPayload max p
unfolding sanitize_encrypted_payload assert_record
sanitize_encrypted_payload_sound max none p h = cc
sanitize_encrypted_payload_sound max (some null) p h = cc
sanitize_encrypted_payload_sound max (some (bool b)) p h = cc
sanitize_encrypted_payload_sound max (some (num m)) p h = cc
sanitize_encrypted_payload_sound max (some (str s)) p h = cc
sanitize_encrypted_payload_sound max (some (arr vs)) p h = cc
sanitize_encrypted_payload_sound max (some (obj ps)) p h = object_fields_sound max ps p h

pub sanitize_encrypted_payload_complete :
    (max : ℕ) (ps : Properties) (p : EncryptedPayload)
    → lookup "encryptedData" (entries ps) ≡ some (str p.encrypted_data)
    → lookup "iv" (entries ps) ≡ some (str p.iv)
    → lookup "tag" (entries ps) ≡ some (str p.tag)
    → IsPayload max p
    → sanitize_encrypted_payload max (some (obj ps)) ≡ ok p
unfolding sanitize_encrypted_payload assert_record
sanitize_encrypted_payload_complete max ps p at_data at_iv at_tag h =
    rw
      (
        at_data,
        at_iv,
        at_tag,
        assert_base64_complete max p.encrypted_data h.0,
        assert_hex_complete 12 p.iv h.1,
        assert_hex_complete 16 p.tag h.2,
      )
      refl
