-- ===== src/RateLimit/Bounds.antt =====
-- How many entries the process-local store keeps
-- (apps/server/src/api/rate-limit/memoryRateLimitStore.ts).
use purrivacy_app.Prelude.{
  ℕ, suc, ◌+◌, ◌-◌, ◌≤◌, ◌<◌, String, not, ◌≡◌, refl, Option, none, some, List, [], ◌∷◌, length,
  ltb, leb, arith, ◌∙◌, Bool-cases, Option-cases, inl, inr,
}
use purrivacy_app.Prelude.Dict.{
  Dict, lookup, IsKeyed, insert-IsKeyed, remove-IsKeyed, keep-IsKeyed, length-keep, length-insert,
  length-remove, length-remove_le, has_key_of_some,
}
use purrivacy_app.RateLimit.Eviction.{evict-soonest}
use purrivacy_app.RateLimit.Memory.{
  Entry, Store, new, purge, maybe_cleanup, soonest, remove_key, evict_if_full, increment_found,
  increment, decrement, size,
}

-- What holds of a store between two calls: at least one key may be kept, no key has two entries, and
-- no more than `max_keys` keys are kept.
pub record IsBounded (s : Store) : Type 0 where
  pub room : 0 < s.max_keys
  pub keyed : IsKeyed s.entries
  pub fits : length s.entries ≤ s.max_keys

purge_facts :
    (now : ℕ) (d : Dict Entry)
    → (length (purge now d) ≤ length d) × (IsKeyed d → IsKeyed (purge now d))
unfolding purge
purge_facts now d = (length-keep _ d, keep-IsKeyed _ d)

maybe_cleanup-IsBounded : (now : ℕ) (s : Store) → IsBounded s → IsBounded (maybe_cleanup now s)
unfolding maybe_cleanup
maybe_cleanup-IsBounded now s h = ground (
  arith,
  length-keep (λ (e : Entry). not (leb e.reset_time now)) s.entries,
  keep-IsKeyed (λ (e : Entry). not (leb e.reset_time now)) s.entries,
)

evict_full :
    (now : ℕ) (s : Store)
    → IsKeyed s.entries
    → 0 < s.max_keys
    → length s.entries ≤ s.max_keys
    → (length (evict_if_full now s).entries < s.max_keys) × IsKeyed (evict_if_full now s).entries
evict_full now s h room fits = elim (Bool-cases (ltb (length (purge now s.entries)) s.max_keys)) [
  | inl less ↦
      unfold evict_if_full in
      ground (arith, keep-IsKeyed (λ (e : Entry). not (leb e.reset_time now)) s.entries)
  | inr full ↦
      let (k, e, at, all, eq) = evict-soonest now s h room (ground arith) in
      rw eq (
        ground (
          arith,
          length-remove k (purge now s.entries),
          has_key_of_some k (purge now s.entries) {v = e},
          remove-IsKeyed k (purge now s.entries),
          purge_facts now s.entries,
        ))
]

max_keys-evict_if_full : (now : ℕ) (s : Store) → (evict_if_full now s).max_keys ≡ s.max_keys
unfolding evict_if_full
max_keys-evict_if_full now s = ground arith

max_keys-increment_found :
    (o : Option Entry) (key : String) (window_ms now : ℕ) (s : Store)
    → (increment_found o key window_ms now s).0.max_keys ≡ s.max_keys
unfolding increment_found
max_keys-increment_found none key window_ms now s = max_keys-evict_if_full now s
max_keys-increment_found (some e) key window_ms now s = ground arith

pub max_keys-increment :
    (key : String) (window_ms now : ℕ) (s : Store)
    → (increment key window_ms now s).0.max_keys ≡ s.max_keys
unfolding increment
max_keys-increment key window_ms now s =
    max_keys-increment_found (lookup key (maybe_cleanup now s).entries) key window_ms now
      (maybe_cleanup now s)
    ∙ (unfold maybe_cleanup in ground arith)

pub max_keys-decrement : (key : String) (s : Store) → (decrement key s).max_keys ≡ s.max_keys
unfolding decrement
max_keys-decrement key s = ground arith

increment_found-IsBounded :
    (o : Option Entry) (key : String) (window_ms now : ℕ) (s : Store)
    → lookup key s.entries ≡ o
    → IsBounded s
    → IsBounded (increment_found o key window_ms now s).0
increment_found-IsBounded none key window_ms now s found h =
    let after : Store = evict_if_full now s in
    let (less, keyed) = evict_full now s h.keyed h.room h.fits in
    let entry : Entry = record { count = 1; reset_time = now + window_ms } in
    let same : after.max_keys ≡ s.max_keys = max_keys-evict_if_full now s in
    unfold increment_found in
    record {
      room = omega (arith, h.room, same);
      keyed = insert-IsKeyed key entry after.entries keyed;
      fits = ground (arith, length-insert key entry after.entries, less, same);
    }
increment_found-IsBounded (some e) key window_ms now s found h =
    let entry : Entry = record { count = 1; reset_time = now + window_ms } in
    let counted : Entry = record e { count = e.count + 1 } in
    unfold increment_found in
    ground (
      arith,
      has_key_of_some key s.entries {v = e},
      insert-IsKeyed key entry s.entries,
      insert-IsKeyed key counted s.entries,
      length-insert key entry s.entries,
      length-insert key counted s.entries,
    )

pub increment-IsBounded :
    (key : String) (window_ms now : ℕ) (s : Store)
    → IsBounded s
    → IsBounded (increment key window_ms now s).0
unfolding increment
increment-IsBounded key window_ms now s h =
    increment_found-IsBounded (lookup key (maybe_cleanup now s).entries) key window_ms now
      (maybe_cleanup now s) refl (maybe_cleanup-IsBounded now s h)

pub decrement-IsBounded : (key : String) (s : Store) → IsBounded s → IsBounded (decrement key s)
unfolding decrement
decrement-IsBounded key s h = elim (Option-cases (lookup key s.entries)) [
  | inl absent ↦ rw absent h
  | inr (e, found) ↦
      let counted : Entry = record e { count = e.count - 1 } in
      ground (
        arith,
        has_key_of_some key s.entries {v = e},
        insert-IsKeyed key counted s.entries,
        length-insert key counted s.entries,
      )
]

-- One call of the store's interface.
pub data Call : Type 0 where
  hit : String → ℕ → ℕ → Call
  refund : String → Call

abbrev pub serve : Store → List Call → Store
serve s [] = s
serve s (hit key window_ms now ∷ calls) = serve (increment key window_ms now s).0 calls
serve s (refund key ∷ calls) = serve (decrement key s) calls

serve-IsBounded : (s : Store) (calls : List Call) → IsBounded s → IsBounded (serve s calls)
serve-IsBounded s [] h = h
serve-IsBounded s (hit key window_ms now ∷ calls) h =
    serve-IsBounded (increment key window_ms now s).0 calls
      (increment-IsBounded key window_ms now s h)
serve-IsBounded s (refund key ∷ calls) h =
    serve-IsBounded (decrement key s) calls (decrement-IsBounded key s h)

max_keys-serve : (s : Store) (calls : List Call) → (serve s calls).max_keys ≡ s.max_keys
max_keys-serve s [] = refl
max_keys-serve s (hit key window_ms now ∷ calls) =
    max_keys-serve (increment key window_ms now s).0 calls ∙ max_keys-increment key window_ms now s
max_keys-serve s (refund key ∷ calls) =
    max_keys-serve (decrement key s) calls ∙ max_keys-decrement key s

-- Whatever increments and decrements are served, with any keys, windows and clock values, a store
-- that is created for a positive number of keys never keeps more entries than that.
pub size_bounded :
    (max_keys : ℕ) (calls : List Call) → 0 < max_keys → size (serve (new max_keys) calls) ≤ max_keys
unfolding new size
size_bounded max_keys calls h = omega (
  arith,
  serve-IsBounded (new max_keys) calls (record { room = h; keyed = tt; fits = omega arith }),
  max_keys-serve (new max_keys) calls,
)

length-remove_key : (o : Option (String × ℕ)) (d : Dict Entry) → length (remove_key o d) ≤ length d
unfolding remove_key
length-remove_key none d = omega arith
length-remove_key (some (k, r)) d = length-remove_le k d

length-evict_if_full :
    (now : ℕ) (s : Store) → length (evict_if_full now s).entries ≤ length s.entries
unfolding evict_if_full
length-evict_if_full now s =
    let (less, keyed) = purge_facts now s.entries in
    ground
      (arith, less, length-remove_key (soonest none (purge now s.entries)) (purge now s.entries))

length-increment_found :
    (o : Option Entry) (key : String) (window_ms now : ℕ) (s : Store)
    → length (increment_found o key window_ms now s).0.entries ≤ suc (length s.entries)
unfolding increment_found
length-increment_found none key window_ms now s = ground (
  arith,
  length-evict_if_full now s,
  length-insert key (record { count = 1; reset_time = now + window_ms })
      (evict_if_full now s).entries,
)
length-increment_found (some e) key window_ms now s = ground (
  arith,
  length-insert key (record { count = 1; reset_time = now + window_ms }) s.entries,
  length-insert key (record e { count = e.count + 1 }) s.entries,
)

pub length-increment :
    (key : String) (window_ms now : ℕ) (s : Store)
    → length (increment key window_ms now s).0.entries ≤ suc (length s.entries)
unfolding increment
length-increment key window_ms now s =
    let c : Store = maybe_cleanup now s in
    let (less, keyed) = purge_facts now s.entries in
    let shorter : length c.entries ≤ length s.entries =
      unfold maybe_cleanup in ground (arith, less) in
    omega (arith, length-increment_found (lookup key c.entries) key window_ms now c, shorter)
