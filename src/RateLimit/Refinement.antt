-- ===== src/RateLimit/Refinement.antt =====
-- The process-local store and unbounded fixed-window counters
-- (apps/server/src/api/rate-limit/memoryRateLimitStore.ts against the contract in
-- apps/server/src/api/rate-limit/rateLimitStoreTypes.ts).
use purrivacy_app.Prelude.{
  ℕ, ◌+◌, ◌≤◌, ◌<◌, String, ◌≡◌, refl, ◌∙◌, ap, Option, none, some, List, [], ◌∷◌, length, arith,
  if◌then◌else◌, Bool-cases, inl, inr, same_text, same_text_iff,
}
use purrivacy_app.Prelude.Dict.{lookup}
use purrivacy_app.RateLimit.Memory.{Entry, Store, new, increment}
use purrivacy_app.RateLimit.Bounds.{
  IsBounded, increment-IsBounded, length-increment, max_keys-increment,
}
use purrivacy_app.RateLimit.Window.{live, view, next, increment_counts, increment_spares_others}

-- A call of `increment`, at the time `now`.
pub record Request : Type 0 where
  pub key : String
  pub window_ms : ℕ
  pub now : ℕ

-- The counters that the store returns, one for each request.
abbrev pub store_counts : Store → List Request → List Entry
store_counts s [] = []
store_counts s (r ∷ rs) =
    let (s', e) = increment r.key r.window_ms r.now s in e ∷ store_counts s' rs

-- The contract: a counter for every key, never cleaned up and never evicted.
abbrev pub Counters : Type 0
Counters = String → Option Entry

abbrev pub no_counters : Counters
no_counters key = none

abbrev pub counter_counts : Counters → List Request → List Entry
counter_counts f [] = []
counter_counts f (r ∷ rs) =
    let e = next r.now r.window_ms (live r.now (f r.key)) in
    e ∷ counter_counts (λ key. if same_text r.key key then some e else f key) rs

-- The clock does not go back.
abbrev pub IsOrdered : ℕ → List Request → Type 0
IsOrdered t [] = Unit {0}
IsOrdered t (r ∷ rs) = (t ≤ r.now) × IsOrdered r.now rs

-- From `t` on the store shows what the counters hold.
abbrev Agrees : ℕ → Store → Counters → Type 0
Agrees t s f = (key : String) (u : ℕ) → t ≤ u → view u s key ≡ live u (f key)

Agrees-increment :
    (t : ℕ) (s : Store) (f : Counters) (r : Request)
    → IsBounded s
    → length s.entries < s.max_keys
    → t ≤ r.now
    → Agrees t s f
    → let (s', e) = increment r.key r.window_ms r.now s in
      (e ≡ next r.now r.window_ms (live r.now (f r.key)))
      × Agrees r.now s' (λ key. if same_text r.key key then some e else f key)
unfolding view
Agrees-increment t s f r b room le agree =
    let (eq, kept) = increment_counts r.key r.window_ms r.now s b in
    (
      eq ∙ ap (next r.now r.window_ms) (agree r.key r.now le),
      λ key u from. elim (Bool-cases (same_text r.key key)) [
        | inl same ↦ rw same (rw (← (same_text_iff r.key key).0 same) (ap (live u) kept))
        | inr other ↦ rw other (
            increment_spares_others r.key key r.window_ms r.now u s b room
              (λ e. ground (arith, same_text_iff r.key key)) from
            ∙ agree key u (omega arith))
      ],
    )

store_counts_agree :
    (t : ℕ) (s : Store) (f : Counters) (rs : List Request)
    → IsBounded s
    → length s.entries + length rs ≤ s.max_keys
    → IsOrdered t rs
    → Agrees t s f
    → store_counts s rs ≡ counter_counts f rs
store_counts_agree t s f [] b room o agree = refl
store_counts_agree t s f (r ∷ rs) b room (le, o) agree =
    let (eq, agree') = Agrees-increment t s f r b (omega arith) le agree in
    let s' : Store = (increment r.key r.window_ms r.now s).0 in
    let ih =
      store_counts_agree r.now s' _ rs (increment-IsBounded r.key r.window_ms r.now s b)
        (omega (
          arith,
          length-increment r.key r.window_ms r.now s,
          max_keys-increment r.key r.window_ms r.now s,
        ))
        o agree' in
    let first : Entry = (increment r.key r.window_ms r.now s).1 in
    ap (λ (cs : List Entry). first ∷ cs) ih
    ∙ ap
        (λ (c : Entry).
          c ∷ counter_counts (λ key. if same_text r.key key then some c else f key) rs)
        eq

-- From an empty store that may keep `max_keys` entries, up to `max_keys` requests, with any keys and
-- windows, at times that do not go back, get exactly the counts and reset times of unbounded
-- fixed-window counters: neither the cleanup nor an eviction changes an answer.
pub store-refines-counters :
    (max_keys : ℕ) (rs : List Request)
    → 0 < max_keys
    → length rs ≤ max_keys
    → IsOrdered 0 rs
    → store_counts (new max_keys) rs ≡ counter_counts no_counters rs
unfolding new view lookup
store-refines-counters max_keys rs pos le o =
    store_counts_agree 0 (new max_keys) no_counters rs
      (record { room = pos; keyed = tt; fits = omega arith }) (omega arith) o (λ key u h. refl)
