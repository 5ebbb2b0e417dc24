-- ===== src/RateLimit/Window.antt =====
-- The counters that the process-local store shows
-- (apps/server/src/api/rate-limit/memoryRateLimitStore.ts against the contract in
-- apps/server/src/api/rate-limit/rateLimitStoreTypes.ts).
use purrivacy_app.Prelude.{
  ℕ, ◌+◌, ◌≤◌, ◌<◌, String, not, ◌≡◌, ◌≢◌, refl, ◌∙◌, ap, Option, none, some, length, ltb, leb,
  arith, same_text_iff,
}
use purrivacy_app.Prelude.Dict.{
  lookup, IsKeyed, length-keep, lookup-keep, keep_option, lookup-insert,
}
use purrivacy_app.RateLimit.Memory.{
  Entry, Store, evict_if_full, maybe_cleanup, increment_found, increment,
}
use purrivacy_app.RateLimit.Bounds.{IsBounded}

-- An entry, if its window has not ended.
abbrev pub live : ℕ → Option Entry → Option Entry
live now = keep_option (λ (e : Entry). ltb now e.reset_time)

-- What a client can see of a key.
unfoldable pub view : ℕ → Store → String → Option Entry
view now s key = live now (lookup key s.entries)

-- A counter after one more request: one more in a window that runs, 1 in a new window.
abbrev pub next : ℕ → ℕ → Option Entry → Entry
next now window_ms none = record { count = 1; reset_time = now + window_ms }
next now window_ms (some e) = record e { count = e.count + 1 }

-- What has ended stays ended.
keep_option-live :
    (t now : ℕ) (o : Option Entry)
    → now ≤ t
    → live t (keep_option (λ (e : Entry). not (leb e.reset_time now)) o) ≡ live t o
keep_option-live t now none h = refl
keep_option-live t now (some e) h = ground arith

view-maybe_cleanup :
    (t now : ℕ) (s : Store) (key : String)
    → IsKeyed s.entries
    → now ≤ t
    → view t (maybe_cleanup now s) key ≡ view t s key
unfolding maybe_cleanup view
view-maybe_cleanup t now s key h le = ground (
  arith,
  lookup-keep (λ (e : Entry). not (leb e.reset_time now)) key s.entries,
  keep_option-live t now (lookup key s.entries),
)

increment_found-result :
    (o : Option Entry) (key : String) (window_ms now : ℕ) (s : Store)
    → (increment_found o key window_ms now s).1 ≡ next now window_ms (live now o)
unfolding increment_found
increment_found-result none key window_ms now s = refl
increment_found-result (some e) key window_ms now s = ground arith

increment_found-lookup :
    (o : Option Entry) (key : String) (window_ms now : ℕ) (s : Store)
    → let (s', e) = increment_found o key window_ms now s in lookup key s'.entries ≡ some e
unfolding increment_found
increment_found-lookup none key window_ms now s = ground (
  arith,
  same_text_iff key key,
  lookup-insert key key (record { count = 1; reset_time = now + window_ms })
      (evict_if_full now s).entries,
)
increment_found-lookup (some e) key window_ms now s = ground (
  arith,
  same_text_iff key key,
  lookup-insert key key (record { count = 1; reset_time = now + window_ms }) s.entries,
  lookup-insert key key (record e { count = e.count + 1 }) s.entries,
)

-- While the store has room, another key keeps its entry.
pub increment_found-other :
    (o : Option Entry) (key other : String) (window_ms now : ℕ) (s : Store)
    → length s.entries < s.max_keys
    → key ≢ other
    → lookup other (increment_found o key window_ms now s).0.entries ≡ lookup other s.entries
unfolding increment_found evict_if_full
increment_found-other none key other window_ms now s room ne = ground (
  arith,
  same_text_iff key other,
  lookup-insert key other (record { count = 1; reset_time = now + window_ms }) s.entries,
)
increment_found-other (some e) key other window_ms now s room ne = ground (
  arith,
  same_text_iff key other,
  lookup-insert key other (record { count = 1; reset_time = now + window_ms }) s.entries,
  lookup-insert key other (record e { count = e.count + 1 }) s.entries,
)

pub room-maybe_cleanup :
    (now : ℕ) (s : Store)
    → length s.entries < s.max_keys
    → length (maybe_cleanup now s).entries < (maybe_cleanup now s).max_keys
unfolding maybe_cleanup
room-maybe_cleanup now s h =
    ground (arith, length-keep (λ (e : Entry). not (leb e.reset_time now)) s.entries)

-- An increment returns the next value of the counter that the store shows for the key, one more in
-- a running window and 1 in a new one, and keeps it as the key's entry.
pub increment_counts :
    (key : String) (window_ms now : ℕ) (s : Store)
    → IsBounded s
    → let (s', e) = increment key window_ms now s in
      (e ≡ next now window_ms (view now s key)) × (lookup key s'.entries ≡ some e)
unfolding increment view
increment_counts key window_ms now s h =
    let c : Store = maybe_cleanup now s in
    let o : Option Entry = lookup key c.entries in
    (
      increment_found-result o key window_ms now c
          ∙ ap (next now window_ms) (view-maybe_cleanup now now s key h.keyed (omega arith)),
      increment_found-lookup o key window_ms now c,
    )

-- While fewer than `max_keys` entries are kept, an increment changes what the store shows of no
-- other key, now or at any later time.
pub increment_spares_others :
    (key other : String) (window_ms now t : ℕ) (s : Store)
    → IsBounded s
    → length s.entries < s.max_keys
    → key ≢ other
    → now ≤ t
    → view t (increment key window_ms now s).0 other ≡ view t s other
unfolding increment view
increment_spares_others key other window_ms now t s h room ne le =
    let c : Store = maybe_cleanup now s in
    ap (live t) (
      increment_found-other (lookup key c.entries) key other window_ms now c
        (room-maybe_cleanup now s room) ne)
    ∙ view-maybe_cleanup t now s other h.keyed le
