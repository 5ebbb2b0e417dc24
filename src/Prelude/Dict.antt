-- ===== src/Prelude/Dict.antt =====
-- JavaScript's `Map` with string keys, in insertion order: a write to a key that is there keeps its
-- place, a write to a new key goes to the end.
use purrivacy_app.Prelude.{
  suc, ◌≤◌, String, ◌≡◌, refl, Bool, true, false, Option, none, some, List, [], ◌∷◌, arith,
  if◌then◌else◌, length, same_text, same_text_iff,
}

abbrev pub Dict {ℓ} : Type ℓ → Type ℓ
Dict V = List (String × V)

module _ {ℓ} {V : Type ℓ} where
  unfoldable pub lookup : String → Dict V → Option V
  lookup k [] = none
  lookup k ((j, v) ∷ d) = if same_text j k then some v else lookup k d

  unfoldable pub insert : String → V → Dict V → Dict V
  insert k v [] = (k, v) ∷ []
  insert k v ((j, w) ∷ d) = if same_text j k then (j, v) ∷ d else (j, w) ∷ insert k v d

  unfoldable pub remove : String → Dict V → Dict V
  remove k [] = []
  remove k ((j, v) ∷ d) = let rest = remove k d in if same_text j k then rest else (j, v) ∷ rest

  -- The entries whose value passes the test.
  unfoldable pub keep : (V → Bool) → Dict V → Dict V
  keep p [] = []
  keep p ((j, v) ∷ d) = let rest = keep p d in if p v then (j, v) ∷ rest else rest

  abbrev pub has_key : String → Dict V → Bool
  has_key k [] = false
  has_key k ((j, v) ∷ d) = if same_text j k then true else has_key k d

  -- No key occurs twice.
  abbrev pub IsKeyed : Dict V → Type 0
  IsKeyed [] = Unit {0}
  IsKeyed ((j, v) ∷ d) = (has_key j d ≡ false) × IsKeyed d

  pub lookup-insert :
      (k j : String) (v : V) (d : Dict V)
      → lookup j (insert k v d) ≡ (if same_text k j then some v else lookup j d)
  unfolding lookup insert
  lookup-insert k j v [] = refl
  lookup-insert k j v ((i, w) ∷ d) =
      ground (arith, same_text_iff k j, same_text_iff i k, same_text_iff i j, lookup-insert k j v d)

  pub lookup-remove :
      (k j : String) (d : Dict V)
      → lookup j (remove k d) ≡ (if same_text k j then none else lookup j d)
  unfolding lookup remove
  lookup-remove k j [] = ground arith
  lookup-remove k j ((i, w) ∷ d) =
      ground (arith, same_text_iff k j, same_text_iff i k, same_text_iff i j, lookup-remove k j d)

  pub has_key-insert :
      (k j : String) (v : V) (d : Dict V)
      → has_key j (insert k v d) ≡ (if same_text k j then true else has_key j d)
  unfolding insert
  has_key-insert k j v [] = refl
  has_key-insert k j v ((i, w) ∷ d) =
      ground
        (arith, same_text_iff k j, same_text_iff i k, same_text_iff i j, has_key-insert k j v d)

  pub has_key-remove :
      (k j : String) (d : Dict V)
      → has_key j (remove k d) ≡ (if same_text k j then false else has_key j d)
  unfolding remove
  has_key-remove k j [] = ground arith
  has_key-remove k j ((i, w) ∷ d) =
      ground (arith, same_text_iff k j, same_text_iff i k, same_text_iff i j, has_key-remove k j d)

  pub has_key-keep :
      (p : V → Bool) (j : String) (d : Dict V) → has_key j d ≡ false → has_key j (keep p d) ≡ false
  unfolding keep
  has_key-keep p j [] h = refl
  has_key-keep p j ((i, w) ∷ d) h = ground (arith, has_key-keep p j d)

  pub lookup_of_no_key : (k : String) (d : Dict V) → has_key k d ≡ false → lookup k d ≡ none
  unfolding lookup
  lookup_of_no_key k [] h = refl
  lookup_of_no_key k ((j, v) ∷ d) h = ground (arith, lookup_of_no_key k d)

  pub has_key_of_lookup : (k : String) (d : Dict V) → lookup k d ≡ none → has_key k d ≡ false
  unfolding lookup
  has_key_of_lookup k [] h = refl
  has_key_of_lookup k ((j, v) ∷ d) h = ground (arith, has_key_of_lookup k d)

  pub insert-IsKeyed : (k : String) (v : V) (d : Dict V) → IsKeyed d → IsKeyed (insert k v d)
  unfolding insert
  insert-IsKeyed k v [] h = (refl, tt)
  insert-IsKeyed k v ((j, w) ∷ d) h =
      ground
        (arith, insert-IsKeyed k v d, has_key-insert k j v d, same_text_iff k j, same_text_iff j k)

  pub remove-IsKeyed : (k : String) (d : Dict V) → IsKeyed d → IsKeyed (remove k d)
  unfolding remove
  remove-IsKeyed k [] h = tt
  remove-IsKeyed k ((j, w) ∷ d) h = ground (arith, remove-IsKeyed k d, has_key-remove k j d)

  pub keep-IsKeyed : (p : V → Bool) (d : Dict V) → IsKeyed d → IsKeyed (keep p d)
  unfolding keep
  keep-IsKeyed p [] h = tt
  keep-IsKeyed p ((j, w) ∷ d) h = ground (arith, keep-IsKeyed p d, has_key-keep p j d)

  pub length-keep : (p : V → Bool) (d : Dict V) → length (keep p d) ≤ length d
  unfolding keep
  length-keep p [] = omega arith
  length-keep p ((j, w) ∷ d) = ground (arith, length-keep p d)

  pub length-insert :
      (k : String) (v : V) (d : Dict V)
      → length (insert k v d) ≡ (if has_key k d then length d else suc (length d))
  unfolding insert
  length-insert k v [] = refl
  length-insert k v ((j, w) ∷ d) = ground (arith, length-insert k v d)

  pub length-remove_le : (k : String) (d : Dict V) → length (remove k d) ≤ length d
  unfolding remove
  length-remove_le k [] = omega arith
  length-remove_le k ((j, w) ∷ d) = ground (arith, length-remove_le k d)

  pub length-remove :
      (k : String) (d : Dict V) → has_key k d ≡ true → suc (length (remove k d)) ≤ length d
  unfolding remove
  length-remove k [] h = cc
  length-remove k ((j, w) ∷ d) h = ground (arith, length-remove k d, length-remove_le k d)

  pub has_key_of_some : (k : String) (d : Dict V) {v : V} → lookup k d ≡ some v → has_key k d ≡ true
  unfolding lookup
  has_key_of_some k [] {v} h = cc
  has_key_of_some k ((j, w) ∷ d) {v} h = ground (arith, has_key_of_some k d {v = v})

  abbrev pub keep_option : (V → Bool) → Option V → Option V
  keep_option p none = none
  keep_option p (some v) = if p v then some v else none

  pub lookup-keep :
      (p : V → Bool) (k : String) (d : Dict V)
      → IsKeyed d
      → lookup k (keep p d) ≡ keep_option p (lookup k d)
  unfolding lookup keep
  lookup-keep p k [] h = refl
  lookup-keep p k ((j, v) ∷ d) h =
      ground (arith, lookup-keep p k d, same_text_iff j k, lookup_of_no_key j d)
