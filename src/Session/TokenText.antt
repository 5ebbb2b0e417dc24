-- ===== src/Session/TokenText.antt =====
-- The round trip of a refresh token's text
-- (apps/server/src/features/session/application/sessionTokenUtils.ts).
use Prim.Native.String.{String, ◌++◌}
use purrivacy_app.Prelude.{◌≡◌, refl, true, false, [], ◌∷◌, arith}
use purrivacy_app.Server.Errors.{ok}
use purrivacy_app.Server.Append.{append_empty, append_cons, append_one}
use purrivacy_app.Server.Text.{all_chars, is_hex, is_base64url, split_dots}
use purrivacy_app.Session.Tokens.{generate_refresh_token, is_malformed, parse_refresh_token_id}

-- A text without a dot is its own first part.
split_dots_none : (s : String) → all_chars is_base64url s ≡ true → split_dots s ≡ s ∷ []
unfolding split_dots all_chars is_base64url
split_dots_none String.[] h = refl
split_dots_none (String.◌∷◌ c s) h = ground (arith, split_dots_none s)

split_dots_first :
    (id secret : String)
    → all_chars is_hex id ≡ true
    → split_dots (id ++ "." ++ secret) ≡ id ∷ split_dots secret
unfolding split_dots all_chars is_hex
split_dots_first String.[] secret h = rw (append_empty ("." ++ secret), append_one "." secret) refl
split_dots_first (String.◌∷◌ c s) secret h =
    rw (append_cons c s ("." ++ secret)) (ground (arith, split_dots_first s secret))

-- The text that is generated from an id of 64 hexadecimal digits and a secret of base64url characters
-- is parsed back to the id.
pub parse-generate :
    (sha256 : String → String) (token_id secret : String)
    → is_malformed token_id secret ≡ false
    → parse_refresh_token_id (generate_refresh_token sha256 token_id secret).raw_token ≡ ok token_id
unfolding parse_refresh_token_id generate_refresh_token
parse-generate sha256 token_id secret h =
    let hex : all_chars is_hex token_id ≡ true = unfold is_malformed in ground arith in
    let base : all_chars is_base64url secret ≡ true = unfold is_malformed in ground arith in
    ground (arith, split_dots_first token_id secret hex, split_dots_none secret base, h)
