-- ===== src/Session/Tokens.antt =====
-- Refresh tokens and device ids as texts
-- (apps/server/src/features/session/application/sessionTokenUtils.ts). The random texts are
-- arguments, and so is the hash function.
use Prim.Native.String.{◌++◌}
use purrivacy_app.Prelude.{
  ℕ, ◌*◌, String, Bool, not, ◌||◌, Option, none, some, List, [], ◌∷◌, ltb, ◌==◌, if◌then◌else◌,
}
use purrivacy_app.Server.Errors.{
  AppError, auth_error, bad_request, refresh_token_invalid, Result, ok, err,
}
use purrivacy_app.Server.Text.{
  text_length, is_empty, trim, all_chars, is_hex, is_base64url, split_dots,
}

abbrev pub token_id_hex_length : ℕ
token_id_hex_length = 32 * 2

abbrev pub max_access_token_length : ℕ
max_access_token_length = 1024

abbrev pub max_device_id_length : ℕ
max_device_id_length = 256

-- `GeneratedRefreshToken`
pub record Generated : Type 0 where
  pub token_id : String
  pub raw_token : String
  pub token_hash : String

-- `generateRefreshToken`, from the two random texts
unfoldable pub generate_refresh_token : (String → String) → String → String → Generated
generate_refresh_token sha256 token_id secret =
    let raw_token = token_id ++ "." ++ secret in
    record { token_id = token_id; raw_token = raw_token; token_hash = sha256 raw_token }

abbrev pub invalid_refresh_token : AppError
invalid_refresh_token = auth_error (refresh_token_invalid ∷ []) 401

-- The test of `parseRefreshTokenId` on the two parts.
unfoldable pub is_malformed : String → String → Bool
unfolding is_empty text_length all_chars is_hex is_base64url
is_malformed token_id secret =
    is_empty token_id
    || is_empty secret
    || not (text_length token_id == token_id_hex_length)
    || not (all_chars is_hex token_id)
    || not (all_chars is_base64url secret)

parse_parts : List String → Result String
parse_parts (token_id ∷ secret ∷ []) =
    if is_malformed token_id secret then err invalid_refresh_token else ok token_id
parse_parts _ = err invalid_refresh_token

-- `parseRefreshTokenId`
unfoldable pub parse_refresh_token_id : String → Result String
unfolding parse_parts is_malformed split_dots
parse_refresh_token_id refresh_token = parse_parts (split_dots refresh_token)

-- `normalizeDeviceId`
unfoldable pub normalize_device_id : Option String → Result (Option String)
unfolding trim is_empty text_length
normalize_device_id none = ok none
normalize_device_id (some device_id) =
    let normalized = trim device_id in
    if is_empty normalized
    then ok none
    else if ltb max_device_id_length (text_length normalized)
    then err bad_request
    else ok (some normalized)
