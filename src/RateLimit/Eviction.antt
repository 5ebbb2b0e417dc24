-- ===== src/RateLimit/Eviction.antt =====
-- Which key makes room when the process-local store is full
-- (apps/server/src/api/rate-limit/memoryRateLimitStore.ts).
use purrivacy_app.Prelude.{
  ℕ, ◌≤◌, ◌<◌, String, not, ◌≡◌, ◌⊎◌, refl, none, some, [], ◌∷◌, length, ltb, leb, arith,
  Bool-cases, inl, inr, same_text_iff,
}
use purrivacy_app.Prelude.Dict.{
  Dict, lookup, remove, IsKeyed, keep-IsKeyed, length-keep, has_key_of_some,
}
use purrivacy_app.RateLimit.Memory.{Entry, Store, purge, soonest, remove_key, evict_if_full}

-- Every entry resets at `t` or later.
abbrev pub AllFrom : ℕ → Dict Entry → Type 0
AllFrom t [] = Unit {0}
AllFrom t ((k, e) ∷ d) = (t ≤ e.reset_time) × AllFrom t d

-- The pair `p` is what the loop finds from the best pair `(j, r)` and the entries `d`.
record Finds (j : String) (r : ℕ) (d : Dict Entry) (p : String × ℕ) : Type 0 where
  at : soonest (some (j, r)) d ≡ some p
  le_start : p.1 ≤ r
  le_all : AllFrom p.1 d
  source : ((p.0 ≡ j) × (p.1 ≡ r)) ⊎ ((e : Entry) × (lookup p.0 d ≡ some e) × (e.reset_time ≡ p.1))

soonest-Finds : (j : String) (r : ℕ) (d : Dict Entry) → IsKeyed d → (p : String × ℕ) × Finds j r d p
unfolding soonest
soonest-Finds j r [] h =
    ((j, r), record { at = refl; le_start = omega arith; le_all = tt; source = inl (refl, refl) })
soonest-Finds j r ((i, e) ∷ d) h = elim (Bool-cases (ltb e.reset_time r)) [
  | inl less ↦
      let (p, f) = soonest-Finds i e.reset_time d h.1 in
      (
        p,
        record {
          at = rw less f.at;
          le_start = ground (arith, f.le_start);
          le_all = (f.le_start, f.le_all);
          source = inr (step p f.source);
        },
      )
  | inr more ↦
      let (p, f) = soonest-Finds j r d h.1 in
      (
        p,
        record {
          at = rw more f.at;
          le_start = f.le_start;
          le_all = (ground (arith, f.le_start), f.le_all);
          source = later p f.source;
        },
      )
]
  where
    old :
        (p : String × ℕ)
        → ((x : Entry) × (lookup p.0 d ≡ some x) × (x.reset_time ≡ p.1))
        → ((x : Entry) × (lookup p.0 ((i, e) ∷ d) ≡ some x) × (x.reset_time ≡ p.1))
    old p (x, at, eq) =
        (x, unfold lookup in ground (arith, has_key_of_some p.0 d at, same_text_iff i p.0, h.0), eq)

    step :
        (p : String × ℕ)
        → ((p.0 ≡ i) × (p.1 ≡ e.reset_time))
          ⊎ ((x : Entry) × (lookup p.0 d ≡ some x) × (x.reset_time ≡ p.1))
        → ((x : Entry) × (lookup p.0 ((i, e) ∷ d) ≡ some x) × (x.reset_time ≡ p.1))
    step p (inl (a, b)) = (e, unfold lookup in ground (arith, same_text_iff i p.0), ground arith)
    step p (inr x) = old p x

    later :
        (p : String × ℕ)
        → ((p.0 ≡ j) × (p.1 ≡ r)) ⊎ ((x : Entry) × (lookup p.0 d ≡ some x) × (x.reset_time ≡ p.1))
        → ((p.0 ≡ j) × (p.1 ≡ r))
          ⊎ ((x : Entry) × (lookup p.0 ((i, e) ∷ d) ≡ some x) × (x.reset_time ≡ p.1))
    later p (inl q) = inl q
    later p (inr x) = inr (old p x)

soonest_of_entries :
    (d : Dict Entry)
    → IsKeyed d
    → 0 < length d
    → (k : String) × (e : Entry) × (lookup k d ≡ some e)
      × AllFrom e.reset_time d
      × (remove_key (soonest none d) d ≡ remove k d)
unfolding soonest remove_key
soonest_of_entries [] h l = absurd (omega arith)
soonest_of_entries ((i, e) ∷ d) h l =
    let (p, f) = soonest-Finds i e.reset_time d h.1 in pick p f f.source
  where
    pick :
        (p : String × ℕ)
        → Finds i e.reset_time d p
        → ((p.0 ≡ i) × (p.1 ≡ e.reset_time))
          ⊎ ((x : Entry) × (lookup p.0 d ≡ some x) × (x.reset_time ≡ p.1))
        → (k : String) × (x : Entry) × (lookup k ((i, e) ∷ d) ≡ some x)
          × AllFrom x.reset_time ((i, e) ∷ d)
          × (remove_key (soonest none ((i, e) ∷ d)) ((i, e) ∷ d) ≡ remove k ((i, e) ∷ d))
    pick p f (inl (a, b)) = (
      i,
      e,
      unfold lookup in ground (arith, same_text_iff i i),
      (omega arith, rw b at f.le_all),
      rw f.at (rw a),
    )
    pick p f (inr (x, at, eq)) = (
      p.0,
      x,
      unfold lookup in ground (arith, has_key_of_some p.0 d {v = x}, same_text_iff i p.0, h.0),
      (omega (arith, f.le_start), rw (← eq) at f.le_all),
      rw f.at,
    )

-- When the store is still full after the ended windows are purged, exactly one entry goes: it is
-- one of the purged map, and no entry of that map resets sooner than it.
pub evict-soonest :
    (now : ℕ) (s : Store)
    → IsKeyed s.entries
    → 0 < s.max_keys
    → s.max_keys ≤ length (purge now s.entries)
    → (k : String) × (e : Entry) × (lookup k (purge now s.entries) ≡ some e)
      × AllFrom e.reset_time (purge now s.entries)
      × ((evict_if_full now s).entries ≡ remove k (purge now s.entries))
unfolding evict_if_full
evict-soonest now s h room full =
    let live : Dict Entry = purge now s.entries in
    let (k, e, at, all, eq) =
      soonest_of_entries live (keep-IsKeyed (λ (x : Entry). not (leb x.reset_time now)) s.entries h)
        (omega arith) in
    (
      k,
      e,
      at,
      all,
      ground (arith, eq, length-keep (λ (x : Entry). not (leb x.reset_time now)) s.entries),
    )
