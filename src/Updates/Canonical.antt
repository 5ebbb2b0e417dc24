-- ===== src/Updates/Canonical.antt =====
-- The signed bytes of an update manifest
-- (apps/mobile/src/features/updates/services/updateManifest.ts): `JSON.stringify` of the payload with
-- its keys in order, without the encoding in UTF-8.
use Prim.Native.Char.{Char, code}
use Prim.Native.String.{String, ◌++◌}
use purrivacy_app.Prelude.{ℕ, ◌/◌, ◌%◌, ltb, ◌==◌, if◌then◌else◌}
use purrivacy_app.UserKeys.Cursor.{print_number}
use purrivacy_app.Updates.Text.{nth_char}

-- `UpdateManifestPayload`
pub record Payload : Type 0 where
  pub version : String
  pub tag_name : String
  pub apk_asset_name : String
  pub apk_url : String
  pub apk_size_bytes : ℕ
  pub apk_sha256 : String
  pub created_at : String

unfoldable pub hex_digit : ℕ → Char
unfolding nth_char
hex_digit n = nth_char n "0123456789abcdef"

-- A character of a text in JSON, before the rest
unfoldable pub quote_char : Char → String → String
unfolding hex_digit
quote_char c rest =
    if code c == 34
    then String.◌∷◌ "\\" (String.◌∷◌ "\"" rest)
    else if code c == 92
    then String.◌∷◌ "\\" (String.◌∷◌ "\\" rest)
    else if code c == 8
    then String.◌∷◌ "\\" (String.◌∷◌ "b" rest)
    else if code c == 9
    then String.◌∷◌ "\\" (String.◌∷◌ "t" rest)
    else if code c == 10
    then String.◌∷◌ "\\" (String.◌∷◌ "n" rest)
    else if code c == 12
    then String.◌∷◌ "\\" (String.◌∷◌ "f" rest)
    else if code c == 13
    then String.◌∷◌ "\\" (String.◌∷◌ "r" rest)
    else if ltb (code c) 32
    then String.◌∷◌ "\\" (
        String.◌∷◌ "u" (
          String.◌∷◌ "0" (
            String.◌∷◌ "0"
              (String.◌∷◌ (hex_digit (code c / 16)) (String.◌∷◌ (hex_digit (code c % 16)) rest)))))
    else String.◌∷◌ c rest

-- The characters of a text in JSON and the closing quote, before the rest
unfoldable pub quote_rest : String → String → String
unfolding quote_char
quote_rest String.[] rest = String.◌∷◌ "\"" rest
quote_rest (String.◌∷◌ c s) rest = quote_char c (quote_rest s rest)

-- A text in JSON, before the rest
unfoldable pub quote : String → String → String
unfolding quote_rest
quote s rest = String.◌∷◌ "\"" (quote_rest s rest)

-- `canonicalizeManifestPayload`
unfoldable pub canonicalize : Payload → String
unfolding quote print_number
canonicalize p =
    "{\"apkAssetName\":"
    ++ quote p.apk_asset_name (
        ",\"apkSha256\":"
        ++ quote p.apk_sha256 (
            ",\"apkSizeBytes\":"
            ++ (print_number p.apk_size_bytes
                ++ (",\"apkUrl\":"
                    ++ quote p.apk_url (
                        ",\"createdAt\":"
                        ++ quote p.created_at (
                            ",\"tagName\":"
                            ++ quote p.tag_name (",\"version\":" ++ quote p.version "}")))))))
