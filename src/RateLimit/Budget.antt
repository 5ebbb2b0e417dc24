-- ===== src/RateLimit/Budget.antt =====
-- How many requests a limiter admits while its shared store is down
-- (apps/server/src/api/rate-limit/createRateLimiter.ts).
use purrivacy_app.Prelude.{
  not, ℕ, suc, ◌+◌, ◌-◌, ◌≤◌, ◌<◌, String, true, false, ◌≡◌, refl, none, some, List, [], ◌∷◌,
  length, ltb, arith, if◌then◌else◌, ◌&&◌, same_text, Bool-cases, inl, inr,
}
use purrivacy_app.Prelude.Dict.{lookup}
use purrivacy_app.Server.Errors.{AppError}
use purrivacy_app.RateLimit.Memory.{Entry, Store, increment}
use purrivacy_app.RateLimit.Window.{view, increment_counts}
use purrivacy_app.RateLimit.Limiter.{
  Response, LimiterConfig, should_skip, response_finished, decide, run_limiter,
}
use purrivacy_app.RateLimit.Outage.{
  is_passed, down, StoreEvent, request, other_request, finished, passes, refunds, AllBefore,
}
use purrivacy_app.RateLimit.Kept.{
  HasRoom, increment-HasRoom, decrement-HasRoom, increment-KeepsEntry, decrement-KeepsEntry,
}

is_passed-decide :
    (config : LimiterConfig) (now : ℕ) (e : Entry)
    → is_passed (decide config now e) ≡ not (ltb config.max_requests e.count)
unfolding decide
is_passed-decide config now e = ground arith

closed_limiter :
    (err' : AppError) (config : LimiterConfig) (key : String) (now : ℕ) (s : Store)
    → config.fail_closed ≡ true
    → is_passed (run_limiter (down err') config key now (tt, s)).1 ≡ false
unfolding run_limiter
closed_limiter err' config key now s closed = rw closed refl

passes_closed :
    (err' : AppError) (config : LimiterConfig) (key : String) (events : List StoreEvent) (s : Store)
    → config.fail_closed ≡ true
    → passes err' config key events s ≡ 0
passes_closed err' config key [] s closed = refl
passes_closed err' config key (request now ∷ events) s closed =
    let rest =
      passes_closed err' config key events (run_limiter (down err') config key now (tt, s)).0.1
        closed in
    rw (closed_limiter err' config key now s closed) (omega (arith, rest))
passes_closed err' config key (other_request config' key' now ∷ events) s closed =
    passes_closed err' config key events _ closed
passes_closed err' config key (finished config' key' res ∷ events) s closed =
    passes_closed err' config key events _ closed

-- The first request passes or not, and the others are bounded.
passes_step :
    (err' : AppError) (config : LimiterConfig) (key : String) (now : ℕ) (events : List StoreEvent)
    (s : Store) (bound : ℕ)
    → (let (s', e) = increment key config.window_ms now s in
        (if is_passed (decide config now e) then 1 else 0) + passes err' config key events s'
        ≤ bound)
    → passes err' config key (request now ∷ events) s ≤ bound
passes_step err' config key now events s bound served = elim (Bool-cases config.fail_closed) [
  | inl closed ↦ omega (arith, passes_closed err' config key (request now ∷ events) s closed)
  | inr opened ↦ unfold run_limiter in rw opened served
]

-- The room for `n` more keys, and the key's entry with at least `c` requests until `t`.
record Runs (key : String) (t c n : ℕ) (s : Store) : Type 0 where
  pub room : HasRoom n s
  pub entry : Entry
  pub at : lookup key s.entries ≡ some entry
  pub reset : entry.reset_time ≡ t
  pub at_least : c ≤ entry.count

Runs-other :
    (err' : AppError) (config : LimiterConfig) (key key' : String) (t c n now : ℕ) (s : Store)
    → Runs key t c (suc n) s
    → now < t
    → Runs key t c n (run_limiter (down err') config key' now (tt, s)).0.1
Runs-other err' config key key' t c n now s r before = elim (Bool-cases config.fail_closed) [
  | inl closed ↦
      unfold run_limiter in
      rw closed (record {
        room = record { bounded = r.room.bounded; free = omega (arith, r.room.free) };
        entry = r.entry;
        at = r.at;
        reset = r.reset;
        at_least = r.at_least;
      })
  | inr opened ↦
      let (e', at', reset', counted') =
        increment-KeepsEntry key key' config.window_ms now s r.entry r.room.bounded
          (omega (arith, r.room.free)) r.at (omega (arith, before, r.reset)) in
      unfold run_limiter in
      rw opened (record {
        room = increment-HasRoom n key' config.window_ms now s r.room;
        entry = e';
        at = at';
        reset = cc (reset', r.reset);
        at_least = omega (arith, counted', r.at_least);
      })
]

Runs-finished :
    (config : LimiterConfig) (key key' : String) (res : Response) (t c n : ℕ) (s : Store)
    → Runs key t c (suc n) s
    → Runs key t
        (c - (if same_text key' key && should_skip config res then 1 else 0))
        n
        (response_finished config key' res s)
Runs-finished config key key' res t c n s r = elim (Bool-cases (should_skip config res)) [
  | inl skip ↦
      let (e', at', reset', counted') = decrement-KeepsEntry key key' s r.entry r.at in
      let fewer : HasRoom n s = record {
        bounded = r.room.bounded;
        free = omega (arith, r.room.free);
      } in
      unfold response_finished in
      rw skip (record {
        room = decrement-HasRoom n key' s fewer;
        entry = e';
        at = at';
        reset = cc (reset', r.reset);
        at_least = ground (arith, counted', r.at_least);
      })
  | inr keep ↦
      unfold response_finished in
      rw keep (record {
        room = record { bounded = r.room.bounded; free = omega (arith, r.room.free) };
        entry = r.entry;
        at = r.at;
        reset = r.reset;
        at_least = ground (arith, r.at_least);
      })
]

passes_in_window :
    (err' : AppError) (config : LimiterConfig) (key : String) (events : List StoreEvent) (s : Store)
    (t c : ℕ)
    → Runs key t c (length events) s
    → AllBefore t events
    → passes err' config key events s ≤ (config.max_requests - c) + refunds key events
passes_in_window err' config key [] s t c r h = omega arith
passes_in_window err' config key (request now ∷ events) s t c r (before, h) =
    let s' : Store = (increment key config.window_ms now s).0 in
    let e' : Entry = (increment key config.window_ms now s).1 in
    let (eq, at') = increment_counts key config.window_ms now s r.room.bounded in
    let e : Entry = r.entry in
    let running : now < e.reset_time = omega (arith, before, r.reset) in
    let counted : (e'.count ≡ e.count + 1) × (e'.reset_time ≡ e.reset_time) =
      unfold view in ground (arith, eq, r.at, running) in
    let later : Runs key t (c + 1) (length events) s' = record {
      room = increment-HasRoom (length events) key config.window_ms now s r.room;
      entry = e';
      at = at';
      reset = cc (counted.1, r.reset);
      at_least = omega (arith, counted.0, r.at_least);
    } in
    let rest = passes_in_window err' config key events s' t (c + 1) later h in
    passes_step err' config key now events s ((config.max_requests - c) + refunds key events)
      (ground (arith, is_passed-decide config now e', counted.0, r.at_least, rest))
passes_in_window err' config key (other_request config' key' now ∷ events) s t c r (before, h) =
    passes_in_window err' config key events _ t c
      (Runs-other err' config' key key' t c (length events) now s r before) h
passes_in_window err' config key (finished config' key' res ∷ events) s t c r h =
    let rest =
      passes_in_window err' config key events (response_finished config' key' res s) t _
        (Runs-finished config' key key' res t c (length events) s r) h in
    ground (arith, rest)

-- While the shared store is down, the requests of a limiter with one key that pass within the window
-- that the first of them starts are no more than its budget and the responses with that key that were
-- skipped, whether the limiter fails open or closed. Requests of all limiters with any keys come
-- before the window's end, and responses finish, in any order; the fallback store has room for one more
-- key at each of them.
pub fallback_keeps_budget :
    (err' : AppError) (config : LimiterConfig) (key : String) (now : ℕ) (events : List StoreEvent)
    (s : Store)
    → HasRoom (suc (length events)) s
    → view now s key ≡ none
    → AllBefore (now + config.window_ms) events
    → passes err' config key (request now ∷ events) s ≤ config.max_requests + refunds key events
fallback_keeps_budget err' config key now events s room new h =
    let s' : Store = (increment key config.window_ms now s).0 in
    let e' : Entry = (increment key config.window_ms now s).1 in
    let (eq, at') = increment_counts key config.window_ms now s room.bounded in
    let counted : (e'.count ≡ 1) × (e'.reset_time ≡ now + config.window_ms) =
      ground (arith, eq, new) in
    let started : Runs key (now + config.window_ms) 1 (length events) s' = record {
      room = increment-HasRoom (length events) key config.window_ms now s room;
      entry = e';
      at = at';
      reset = counted.1;
      at_least = omega (arith, counted.0);
    } in
    let rest = passes_in_window err' config key events s' (now + config.window_ms) 1 started h in
    passes_step err' config key now events s (config.max_requests + refunds key events)
      (ground (arith, is_passed-decide config now e', counted.0, rest))
