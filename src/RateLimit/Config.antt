-- ===== src/RateLimit/Config.antt =====
-- The limiters whose responses can be refunded (apps/server/src/api/middleware/rateLimiter.ts). The
-- argument is `env.rateLimitFailClosed`; all three are critical.
use purrivacy_app.Prelude.{◌*◌, Bool, true, not, ◌&&◌, none, some, ◌==◌}
use purrivacy_app.RateLimit.Limiter.{Response, LimiterConfig}

-- `rateLimiter.mfaVerification`
abbrev pub mfa_verification : Bool → LimiterConfig
mfa_verification rate_limit_fail_closed = record {
  window_ms = 15 * 60 * 1000;
  max_requests = 5;
  fail_closed = rate_limit_fail_closed;
  skip_successful_requests = true;
  skip_response = none;
}

-- `skipResponse` of `rateLimiter.sessionCreation`
unfoldable pub asks_for_mfa : Response → Bool
asks_for_mfa res = res.status == 403 && res.mfa_required && not res.wrong_mfa_code

-- `rateLimiter.sessionCreation`
abbrev pub session_creation : Bool → LimiterConfig
session_creation rate_limit_fail_closed = record {
  window_ms = 15 * 60 * 1000;
  max_requests = 5;
  fail_closed = rate_limit_fail_closed;
  skip_successful_requests = true;
  skip_response = some asks_for_mfa;
}

-- `rateLimiter.sessionRefresh`
abbrev pub session_refresh : Bool → LimiterConfig
session_refresh rate_limit_fail_closed = record {
  window_ms = 15 * 60 * 1000;
  max_requests = 20;
  fail_closed = rate_limit_fail_closed;
  skip_successful_requests = true;
  skip_response = none;
}
