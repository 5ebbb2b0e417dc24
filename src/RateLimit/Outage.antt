-- ===== src/RateLimit/Outage.antt =====
-- Requests and responses while the shared store is down
-- (apps/server/src/api/rate-limit/createRateLimiter.ts).
use purrivacy_app.Prelude.{
  ℕ, ◌+◌, ◌<◌, String, Bool, true, false, List, [], ◌∷◌, if◌then◌else◌, ◌&&◌, same_text,
}
use purrivacy_app.Server.Errors.{AppError, Result, err}
use purrivacy_app.RateLimit.Memory.{Entry, Store}
use purrivacy_app.RateLimit.Limiter.{
  Response, LimiterConfig, Decision, passed, limited, unavailable, should_skip, response_finished,
  run_limiter,
}

abbrev pub is_passed : Decision → Bool
is_passed (passed _) = true
is_passed (limited _ _) = false
is_passed (unavailable _) = false

-- A shared store that fails at every call.
abbrev pub down : AppError → String → ℕ → Unit {0} → Unit {0} × Result Entry
down e key window_ms s = (s, err e)

-- What happens to the fallback store, which all limiters share: a request with the limiter's key arrives,
-- a request of any limiter with any key arrives, or a response finishes.
pub data StoreEvent : Type 0 where
  request : ℕ → StoreEvent
  other_request : LimiterConfig → String → ℕ → StoreEvent
  finished : LimiterConfig → String → Response → StoreEvent

-- How many of the limiter's requests with its key pass while the shared store is down.
abbrev pub passes : AppError → LimiterConfig → String → List StoreEvent → Store → ℕ
passes e config key [] fallback = 0
passes e config key (request now ∷ events) fallback =
    let ((s, fallback'), decision) = run_limiter (down e) config key now (tt, fallback) in
    (if is_passed decision then 1 else 0) + passes e config key events fallback'
passes e config key (other_request config' key' now ∷ events) fallback =
    passes e config key events (run_limiter (down e) config' key' now (tt, fallback)).0.1
passes e config key (finished config' key' res ∷ events) fallback =
    passes e config key events (response_finished config' key' res fallback)

-- How many of the responses that finish are skipped, so that their requests do not count for the key.
abbrev pub refunds : String → List StoreEvent → ℕ
refunds key [] = 0
refunds key (request now ∷ events) = refunds key events
refunds key (other_request config' key' now ∷ events) = refunds key events
refunds key (finished config' key' res ∷ events) =
    (if same_text key' key && should_skip config' res then 1 else 0) + refunds key events

-- All requests arrive before `t`.
abbrev pub AllBefore : ℕ → List StoreEvent → Type 0
AllBefore t [] = Unit {0}
AllBefore t (request now ∷ events) = (now < t) × AllBefore t events
AllBefore t (other_request config' key' now ∷ events) = (now < t) × AllBefore t events
AllBefore t (finished config' key' res ∷ events) = AllBefore t events
