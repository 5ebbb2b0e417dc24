-- ===== src/Responses/Fields.antt =====
-- The shared field checks (apps/mobile/src/api/request/responseSchema.ts). The endpoint and the method,
-- which every check passes on to the error unchanged, are left to `validate_response`, and so are the
-- debug logs of unknown fields.
use purrivacy_app.Prelude.{ℕ, String, Bool, Option, none, some, List, [], ◌∷◌, if◌then◌else◌}
use purrivacy_app.Prelude.Dict.{Dict, lookup}
use purrivacy_app.Server.Json.{Json, bool, num, str, arr, obj, entries, elements}
use purrivacy_app.Server.Text.{is_empty}

-- The details of an `ApiSchemaError`, with the field that they name
pub data Detail : Type 0 where
  expected_object : Detail
  object_field string_field boolean_field count_field strings_field array_field : String → Detail
  success_not_true : Detail

pub data Checked {ℓ} (A : Type ℓ) : Type ℓ where
  accepted : A → Checked A
  rejected : Detail → Checked A

infixl 5 ◌>>=◌
-- What follows a check that may throw.
abbrev pub ◌>>=◌ {ℓ κ} : {A : Type ℓ} {B : Type κ} → Checked A → (A → Checked B) → Checked B
checked >>= rest = elim checked [ accepted value ↦ rest value | rejected why ↦ rejected why ]

-- `asRecord`; without a name the whole answer is meant.
unfoldable pub as_record : Option String → Option Json → Checked (Dict Json)
as_record what (some (obj ps)) = accepted (entries ps)
as_record none _ = rejected expected_object
as_record (some what) _ = rejected (object_field what)

unfoldable pub check_string : String → Option Json → Checked String
check_string key (some (str s)) = if is_empty s then rejected (string_field key) else accepted s
check_string key _ = rejected (string_field key)

-- `requireString`
unfoldable pub require_string : String → Dict Json → Checked String
unfolding check_string
require_string key raw = check_string key (lookup key raw)

unfoldable pub check_boolean : String → Option Json → Checked Bool
check_boolean key (some (bool b)) = accepted b
check_boolean key _ = rejected (boolean_field key)

-- `requireBoolean`
unfoldable pub require_boolean : String → Dict Json → Checked Bool
unfolding check_boolean
require_boolean key raw = check_boolean key (lookup key raw)

unfoldable pub check_count : String → Option Json → Checked ℕ
check_count key (some (num n)) = accepted n
check_count key _ = rejected (count_field key)

-- `requireNonNegativeInteger`, at the numbers of the model, which are natural
unfoldable pub require_non_negative_integer : String → Dict Json → Checked ℕ
unfolding check_count
require_non_negative_integer key raw = check_count key (lookup key raw)

unfoldable pub add_string : String → Option (List String) → Option (List String)
add_string s none = none
add_string s (some ss) = if is_empty s then none else some (s ∷ ss)

-- `value.every(...)`, with the entries as texts
unfoldable pub strings_of : List Json → Option (List String)
unfolding add_string
strings_of [] = some []
strings_of (str s ∷ vs) = add_string s (strings_of vs)
strings_of (_ ∷ vs) = none

unfoldable pub checked_strings : String → Option (List String) → Checked (List String)
checked_strings key none = rejected (strings_field key)
checked_strings key (some ss) = accepted ss

unfoldable pub check_strings : String → Option Json → Checked (List String)
unfolding strings_of checked_strings
check_strings key (some (arr vs)) = checked_strings key (strings_of (elements vs))
check_strings key _ = rejected (strings_field key)

-- `requireStringArray`
unfoldable pub require_string_array : String → Dict Json → Checked (List String)
unfolding check_strings
require_string_array key raw = check_strings key (lookup key raw)

-- A check of a property that may be `undefined`
unfoldable pub unless_missing {ℓ} : {A : Type ℓ} → Option Json → Checked A → Checked (Option A)
unless_missing none check = accepted none
unless_missing (some v) check = check >>= λ a. accepted (some a)

-- The property `keys` is an array.
unfoldable pub require_keys : Option Json → Checked (List Json)
require_keys (some (arr vs)) = accepted (elements vs)
require_keys _ = rejected (array_field "keys")
