-- ===== src/RateLimit/Kept.antt =====
-- What increments and decrements of any keys leave of a counter whose window runs
-- (apps/server/src/api/rate-limit/memoryRateLimitStore.ts).
use purrivacy_app.Prelude.{
  ℕ, suc, ◌+◌, ◌-◌, ◌≤◌, ◌<◌, String, not, ◌≡◌, refl, ◌∙◌, some, length, ltb, leb, arith, same_text,
  same_text_iff, if◌then◌else◌, Bool-cases, Option-cases, inl, inr,
}
use purrivacy_app.Prelude.Dict.{lookup, lookup-insert, lookup-keep, length-insert, has_key_of_some}
use purrivacy_app.RateLimit.Memory.{Entry, Store, maybe_cleanup, increment, decrement}
use purrivacy_app.RateLimit.Bounds.{
  IsBounded, increment-IsBounded, length-increment, max_keys-increment, decrement-IsBounded,
  max_keys-decrement,
}
use purrivacy_app.RateLimit.Window.{
  view, increment_counts, increment_found-other, room-maybe_cleanup,
}

-- A bounded store that has room for `n` more keys.
pub record HasRoom (n : ℕ) (s : Store) : Type 0 where
  pub bounded : IsBounded s
  pub free : length s.entries + n ≤ s.max_keys

-- The entry of a key after a step that lowers the count by no more than `n`.
abbrev pub KeepsEntry : String → Entry → ℕ → Store → Type 0
KeepsEntry key e n s =
    (e' : Entry) × (lookup key s.entries ≡ some e')
    × (e'.reset_time ≡ e.reset_time)
    × (e.count ≤ e'.count + n)

pub increment-HasRoom :
    (n : ℕ) (key : String) (window_ms now : ℕ) (s : Store)
    → HasRoom (suc n) s
    → HasRoom n (increment key window_ms now s).0
increment-HasRoom n key window_ms now s h = record {
  bounded = increment-IsBounded key window_ms now s h.bounded;
  free =
      omega (
        arith,
        h.free,
        length-increment key window_ms now s,
        max_keys-increment key window_ms now s,
      );
}

length-decrement : (key : String) (s : Store) → length (decrement key s).entries ≤ length s.entries
unfolding decrement
length-decrement key s = elim (Option-cases (lookup key s.entries)) [
  | inl absent ↦ rw absent (omega arith)
  | inr (e, found) ↦ ground (
    arith,
    found,
    has_key_of_some key s.entries {v = e},
    length-insert key (record e { count = e.count - 1 }) s.entries,
  )
]

pub decrement-HasRoom :
    (n : ℕ) (key : String) (s : Store) → HasRoom n s → HasRoom n (decrement key s)
decrement-HasRoom n key s h = record {
  bounded = decrement-IsBounded key s h.bounded;
  free = omega (arith, h.free, length-decrement key s, max_keys-decrement key s);
}

-- Another key's request, with its clean-up, leaves the entry.
increment-other :
    (key other : String) (window_ms now : ℕ) (s : Store) (e : Entry)
    → IsBounded s
    → length s.entries < s.max_keys
    → ¬ (other ≡ key)
    → lookup key s.entries ≡ some e
    → now < e.reset_time
    → lookup key (increment other window_ms now s).0.entries ≡ some e
unfolding increment
increment-other key other window_ms now s e b room ne at running =
    increment_found-other (lookup other (maybe_cleanup now s).entries) other key window_ms now
      (maybe_cleanup now s) (room-maybe_cleanup now s room) ne
    ∙ (unfold maybe_cleanup in
        ground (
          arith,
          at,
          running,
          lookup-keep (λ (x : Entry). not (leb x.reset_time now)) key s.entries b.keyed,
        ))

pub increment-KeepsEntry :
    (key other : String) (window_ms now : ℕ) (s : Store) (e : Entry)
    → IsBounded s
    → length s.entries < s.max_keys
    → lookup key s.entries ≡ some e
    → now < e.reset_time
    → KeepsEntry key e 0 (increment other window_ms now s).0
increment-KeepsEntry key other window_ms now s e b room at running =
    elim (Bool-cases (same_text other key)) [
      | inl same ↦
          let eq : other ≡ key = (same_text_iff other key).0 same in
          let (counts, kept) = increment_counts other window_ms now s b in
          let at' : lookup other s.entries ≡ some e = rw eq at in
          (
            (increment other window_ms now s).1,
            cc (kept, eq),
            unfold view in ground (arith, counts, at', running),
            unfold view in ground (arith, counts, at', running),
          )
      | inr differs ↦ (
        e,
        increment-other key other window_ms now s e b room
            (λ eq. cc (differs, (same_text_iff other key).1 eq)) at running,
        refl,
        omega arith,
      )
    ]

pub decrement-KeepsEntry :
    (key other : String) (s : Store) (e : Entry)
    → lookup key s.entries ≡ some e
    → KeepsEntry key e (if same_text other key then 1 else 0) (decrement other s)
unfolding decrement
decrement-KeepsEntry key other s e at = elim (Option-cases (lookup other s.entries)) [
  | inl absent ↦ rw absent (e, at, refl, omega arith)
  | inr (o, found) ↦ elim (Bool-cases (same_text other key)) [
    | inl same ↦
        let eq : other ≡ key = (same_text_iff other key).0 same in
        let e' : Entry = if ltb 0 e.count then record e { count = e.count - 1 } else e in
        let same_entry : o ≡ e = cc (found, at, eq) in
        (
          e',
          ground (
            arith,
            found,
            at,
            same,
            same_entry,
            lookup-insert other key (record o { count = o.count - 1 }) s.entries,
          ),
          ground arith,
          ground (arith, same),
        )
    | inr differs ↦ (
      e,
      ground (
        arith,
        found,
        at,
        differs,
        lookup-insert other key (record o { count = o.count - 1 }) s.entries,
      ),
      refl,
      omega arith,
    )
  ]
]
