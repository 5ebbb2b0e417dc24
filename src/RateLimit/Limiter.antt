-- ===== src/RateLimit/Limiter.antt =====
-- The decision of a limiter for one request
-- (apps/server/src/api/rate-limit/createRateLimiter.ts). The key is an argument, and so is the shared
-- store, which may fail; the fallback store is the process-local one. Logging is left out.
use purrivacy_app.Prelude.{
  ℕ, ◌+◌, ◌-◌, ◌/◌, String, Bool, false, not, ◌&&◌, ◌||◌, Option, none, some, ltb, leb,
  if◌then◌else◌,
}
use purrivacy_app.Server.Errors.{Result, ok, err}
use purrivacy_app.Session.Types.{is_set}
use purrivacy_app.RateLimit.Memory.{Entry, Store, increment, decrement}

abbrev pub unavailable_retry_after_seconds : ℕ
unavailable_retry_after_seconds = 60

-- What the limiters read of a response: `res.statusCode` and two flags of `res.locals.errorDetails`.
pub record Response : Type 0 where
  pub status : ℕ
  pub mfa_required : Bool
  pub wrong_mfa_code : Bool

-- What `run` reads of `RateLimitConfig`: `fail_closed` is `failClosed`.
pub record LimiterConfig : Type 0 where
  pub window_ms : ℕ
  pub max_requests : ℕ
  pub fail_closed : Bool
  pub skip_successful_requests : Bool
  pub skip_response : Option (Response → Bool)

-- `config.skipSuccessfulRequests || config.skipResponse`
unfoldable pub adjusts : LimiterConfig → Bool
adjusts config = config.skip_successful_requests || is_set config.skip_response

skips : Option (Response → Bool) → Response → Bool
skips none res = false
skips (some skip) res = skip res

-- `shouldSkip` of `attachResponseAdjustment`
unfoldable pub should_skip : LimiterConfig → Response → Bool
unfolding skips
should_skip config res =
    (config.skip_successful_requests && leb 200 res.status && ltb res.status 300)
    || skips config.skip_response res

-- The listener for `finish` of `attachResponseAdjustment`: `store` is the store that counted the request,
-- here the process-local one.
unfoldable pub response_finished : LimiterConfig → String → Response → Store → Store
unfolding should_skip
response_finished config key res store =
    if not (should_skip config res) then store else decrement key store

-- The headers that `setHeaders` writes.
pub record Headers : Type 0 where
  pub limit : ℕ
  pub remaining : ℕ
  pub reset : ℕ

-- `next()`, with the headers unless the response writes them later; a `RateLimitError` with its
-- `retryAfter`; a `RateLimitUnavailableError` with its `retryAfter`
pub data Decision : Type 0 where
  passed : Option Headers → Decision
  limited : ℕ → Headers → Decision
  unavailable : ℕ → Decision

-- `Math.ceil(ms / 1000)`
unfoldable pub ceil_seconds : ℕ → ℕ
ceil_seconds ms = (ms + 999) / 1000

-- `setHeaders`; `remaining` is a difference, which stops at 0
unfoldable pub set_headers : LimiterConfig → Entry → ℕ → Headers
unfolding ceil_seconds
set_headers config counter remaining = record {
  limit = config.max_requests;
  remaining = remaining;
  reset = ceil_seconds counter.reset_time;
}

-- `limitExceeded`
unfoldable pub limit_exceeded : LimiterConfig → Entry → ℕ → Decision
unfolding set_headers ceil_seconds
limit_exceeded config counter now =
    let seconds = ceil_seconds (counter.reset_time - now) in
    limited (if ltb seconds 1 then 1 else seconds) (set_headers config counter 0)

-- The end of `run`, with a counter.
unfoldable pub decide : LimiterConfig → ℕ → Entry → Decision
unfolding limit_exceeded set_headers adjusts
decide config now counter =
    if ltb config.max_requests counter.count
    then limit_exceeded config counter now
    else if adjusts config
    then passed none
    else passed (some (set_headers config counter (config.max_requests - counter.count)))

module _ {S : Type 0} where
  fall_back : LimiterConfig → String → ℕ → S → Store → (S × Store) × Decision
  unfolding decide
  fall_back config key now s fallback =
      if config.fail_closed
      then ((s, fallback), unavailable unavailable_retry_after_seconds)
      else (let (fallback', counter) = increment key config.window_ms now fallback in
          ((s, fallback'), decide config now counter))

  counted : LimiterConfig → String → ℕ → Store → S × Result Entry → (S × Store) × Decision
  unfolding fall_back decide
  counted config key now fallback (s, ok counter) = ((s, fallback), decide config now counter)
  counted config key now fallback (s, err e) = fall_back config key now s fallback

  -- `run`: `shared` is `increment` of the shared store
  unfoldable pub run_limiter :
      (String → ℕ → S → S × Result Entry)
      → LimiterConfig
      → String
      → ℕ
      → S × Store
      → (S × Store) × Decision
  unfolding counted
  run_limiter shared config key now (s, fallback) =
      counted config key now fallback (shared key config.window_ms s)
