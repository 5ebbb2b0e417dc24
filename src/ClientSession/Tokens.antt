-- ===== src/ClientSession/Tokens.antt =====
-- The access token in memory (apps/mobile/src/api/session/accessTokenStore.ts). Dates are milliseconds;
-- a text that is no date is `none`.
use purrivacy_app.Prelude.{
  ℕ, ◌+◌, ◌*◌, String, Bool, false, not, ◌&&◌, Option, none, some, ltb, if◌then◌else◌,
}
use purrivacy_app.Server.Text.{is_empty}
use purrivacy_app.Responses.Types.{SessionAnswer}

abbrev pub access_token_refresh_buffer_ms : ℕ
access_token_refresh_buffer_ms = 30 * 1000

-- The two fields of `AccessTokenStore`, once they are set
pub record AccessToken : Type 0 where
  pub token : String
  pub expires_at : Option ℕ

pub record StoredSession : Type 0 where
  pub refresh_token : String
  pub refresh_token_expires_at : ℕ
  pub mfa_trusted : Bool
  pub mfa_enabled : Bool

-- The expiry lies further ahead than the buffer.
unfoldable pub is_ahead : ℕ → Option ℕ → Bool
is_ahead now none = false
is_ahead now (some time) = ltb (now + access_token_refresh_buffer_ms) time

-- `hasUsableToken`
unfoldable pub has_usable_token : ℕ → Option AccessToken → Bool
unfolding is_ahead
has_usable_token now none = false
has_usable_token now (some t) = not (is_empty t.token) && is_ahead now t.expires_at

-- The session of a usable token, with `toISOString` as an argument
unfoldable pub session_of_token : (ℕ → String) → AccessToken → ℕ → StoredSession → SessionAnswer
session_of_token iso t expires stored = record {
  access_token = t.token;
  refresh_token = stored.refresh_token;
  access_token_expires_at = iso expires;
  refresh_token_expires_at = iso stored.refresh_token_expires_at;
  mfa_trusted = stored.mfa_trusted;
  mfa_enabled = stored.mfa_enabled;
  new_recovery_codes = none;
}

unfoldable pub session_until :
    (ℕ → String) → AccessToken → Option ℕ → StoredSession → Option SessionAnswer
unfolding session_of_token
session_until iso t none stored = none
session_until iso t (some expires) stored = some (session_of_token iso t expires stored)

-- `responseFromStoredSession`
unfoldable pub response_from_stored :
    (ℕ → String) → ℕ → Option AccessToken → StoredSession → Option SessionAnswer
unfolding has_usable_token session_until
response_from_stored iso now none stored = none
response_from_stored iso now (some t) stored =
    if has_usable_token now (some t) then session_until iso t t.expires_at stored else none
