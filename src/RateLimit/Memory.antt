-- ===== src/RateLimit/Memory.antt =====
-- The process-local fixed-window store
-- (apps/server/src/api/rate-limit/memoryRateLimitStore.ts). The clock is an argument: `now` is the
-- value of `Date.now()` in the call.
use purrivacy_app.Prelude.{
  ℕ, ◌+◌, ◌-◌, String, not, Option, none, some, [], ◌∷◌, length, ltb, leb, if◌then◌else◌,
}
use purrivacy_app.Prelude.Dict.{Dict, lookup, insert, remove, keep}

abbrev pub default_max_keys : ℕ
default_max_keys = 50_000

abbrev pub cleanup_interval_ms : ℕ
cleanup_interval_ms = 60_000

-- `MemoryEntry`, and `RateLimitCounterResult` too
pub record Entry : Type 0 where
  pub count : ℕ
  pub reset_time : ℕ

-- `MemoryRateLimitStore`
pub record Store : Type 0 where
  pub entries : Dict Entry
  pub max_keys : ℕ
  pub last_cleanup : ℕ

-- the constructor
unfoldable pub new : ℕ → Store
new max_keys = record { entries = []; max_keys = max_keys; last_cleanup = 0 }

-- The loop that deletes every entry whose window has ended.
unfoldable pub purge : ℕ → Dict Entry → Dict Entry
purge now = keep (λ e. not (leb e.reset_time now))

-- `maybeCleanup`. A clock that went back gives a negative difference there and 0 here: both pass
-- the test.
unfoldable pub maybe_cleanup : ℕ → Store → Store
unfolding purge
maybe_cleanup now s =
    if ltb (now - s.last_cleanup) cleanup_interval_ms
    then s
    else record s { last_cleanup = now; entries = purge now s.entries }

-- The loop over `soonestKey` and `soonestReset`: `none` is the start, `null` and infinity.
unfoldable pub soonest : Option (String × ℕ) → Dict Entry → Option (String × ℕ)
soonest best [] = best
soonest none ((k, e) ∷ d) = soonest (some (k, e.reset_time)) d
soonest (some (j, r)) ((k, e) ∷ d) =
    soonest (if ltb e.reset_time r then some (k, e.reset_time) else some (j, r)) d

-- `if (soonestKey !== null) this.entries.delete(soonestKey)`
unfoldable pub remove_key : Option (String × ℕ) → Dict Entry → Dict Entry
remove_key none d = d
remove_key (some (k, r)) d = remove k d

-- `evictIfFull`
unfoldable pub evict_if_full : ℕ → Store → Store
unfolding purge remove_key
evict_if_full now s =
    if ltb (length s.entries) s.max_keys
    then s
    else let live = purge now s.entries in
      if ltb (length live) s.max_keys
      then record s { entries = live }
      else record s { entries = remove_key (soonest none live) live }

-- The end of `increment`: a new window begins.
start_window : String → ℕ → ℕ → Store → Store × Entry
start_window key window_ms now s =
    let entry : Entry = record { count = 1; reset_time = now + window_ms } in
    (record s { entries = insert key entry s.entries }, entry)

-- `increment` after the cleanup, by what `this.entries.get(key)` found
unfoldable pub increment_found : Option Entry → String → ℕ → ℕ → Store → Store × Entry
unfolding start_window
increment_found none key window_ms now s = start_window key window_ms now (evict_if_full now s)
increment_found (some existing) key window_ms now s =
    if ltb now existing.reset_time
    then (let entry = record existing { count = existing.count + 1 } in
        (record s { entries = insert key entry s.entries }, entry))
    else start_window key window_ms now s

-- `increment`
unfoldable pub increment : String → ℕ → ℕ → Store → Store × Entry
unfolding increment_found
increment key window_ms now s =
    let t = maybe_cleanup now s in increment_found (lookup key t.entries) key window_ms now t

decrement_found : Option Entry → String → Store → Store
decrement_found none key s = s
decrement_found (some entry) key s =
    if ltb 0 entry.count
    then record s { entries = insert key (record entry { count = entry.count - 1 }) s.entries }
    else s

-- `decrement`
unfoldable pub decrement : String → Store → Store
unfolding decrement_found
decrement key s = decrement_found (lookup key s.entries) key s

-- `size`
unfoldable pub size : Store → ℕ
size s = length s.entries
