-- ===== src/RateLimit/Examples.antt =====
-- The store's properties at concrete requests
-- (apps/server/src/api/rate-limit/memoryRateLimitStore.ts).
use purrivacy_app.Server.Errors.{other_error}
use purrivacy_app.RateLimit.Outage.{StoreEvent, request, other_request, finished, passes, refunds}
use purrivacy_app.RateLimit.Budget.{fallback_keeps_budget}
use purrivacy_app.Prelude.{◌+◌, true, false, same_text, refl, ◌≡◌, ◌≤◌, List, [], ◌∷◌, arith}
use purrivacy_app.Prelude.Dict.{lookup, insert}
use purrivacy_app.RateLimit.Memory.{
  Store, new, increment, decrement, maybe_cleanup, increment_found, evict_if_full,
}
use purrivacy_app.RateLimit.Bounds.{IsBounded, hit, refund, Call}
use purrivacy_app.RateLimit.Limiter.{Response, run_limiter, decide, response_finished, should_skip}
use purrivacy_app.RateLimit.Config.{
  mfa_verification, session_creation, session_refresh, asks_for_mfa,
}
use purrivacy_app.RateLimit.Window.{view}
use purrivacy_app.RateLimit.Refinement.{
  store_counts, counter_counts, no_counters, store-refines-counters,
}

abbrev two_keys : Store
two_keys = record {
  entries =
      ("a", record { count = 2; reset_time = 100 })
      ∷ ("b", record { count = 1; reset_time = 90 })
      ∷ [];
  max_keys = 3;
  last_cleanup = 0;
}

abbrev full : Store
full = record two_keys { max_keys = 2 }

two_keys-IsBounded : IsBounded two_keys
unfolding same_text
two_keys-IsBounded = record { room = omega arith; keyed = (refl, (refl, tt)); fits = omega arith }

store-refines-counters_example :
    store_counts (new 3) (
      record { key = "a"; window_ms = 10; now = 1 }
      ∷ record { key = "a"; window_ms = 10; now = 5 }
      ∷ record { key = "a"; window_ms = 10; now = 11 }
      ∷ [])
    ≡ counter_counts no_counters (
        record { key = "a"; window_ms = 10; now = 1 }
        ∷ record { key = "a"; window_ms = 10; now = 5 }
        ∷ record { key = "a"; window_ms = 10; now = 11 }
        ∷ [])
store-refines-counters_example =
    store-refines-counters 3
      (record { key = "a"; window_ms = 10; now = 1 }
        ∷ record { key = "a"; window_ms = 10; now = 5 }
        ∷ record { key = "a"; window_ms = 10; now = 11 }
        ∷ [])
      (omega arith) (omega arith) (omega arith, (omega arith, (omega arith, tt)))

abbrev calls : List Call
calls = hit "a" 10 1 ∷ hit "b" 10 2 ∷ refund "a" ∷ hit "c" 10 3 ∷ []

abbrev served : Response
served = record { status = 200; mfa_required = false; wrong_mfa_code = false }

abbrev refused : Response
refused = record { status = 403; mfa_required = true; wrong_mfa_code = true }

abbrev events : List StoreEvent
events =
    finished (session_creation false) "c" served
    ∷ request 51
    ∷ finished (session_creation false) "c" refused
    ∷ other_request (mfa_verification true) "a" 52
    ∷ other_request (session_refresh false) "a" 53
    ∷ request 54
    ∷ []

abbrev roomy : Store
roomy = record two_keys { max_keys = 50 }

roomy-IsBounded : IsBounded roomy
unfolding same_text
roomy-IsBounded = record { room = omega arith; keyed = (refl, (refl, tt)); fits = omega arith }

fallback_keeps_budget_example :
    passes other_error (session_creation false) "c" (request 50 ∷ events) roomy
    ≤ 5 + refunds "c" events
unfolding view lookup same_text
fallback_keeps_budget_example =
    fallback_keeps_budget other_error (session_creation false) "c" 50 events roomy
      (record { bounded = roomy-IsBounded; free = omega arith }) refl
      (omega arith, (omega arith, (omega arith, (omega arith, tt))))

-- The three requests pass, and one of them is refunded.
events_pass :
    (passes other_error (session_creation false) "c" (request 50 ∷ events) roomy ≡ 3)
    × (refunds "c" events ≡ 1)
unfolding run_limiter decide response_finished should_skip asks_for_mfa increment decrement
    maybe_cleanup increment_found evict_if_full lookup insert same_text
events_pass = (refl, refl)
