-- ===== src/Server/DictStore.antt =====
-- An association list with distinct keys meets the contract of the document database.
use mathlib.Core.Path.{subst}
use purrivacy_app.Prelude.{
  ℕ, zero, suc, ◌≤◌, ◌<◌, String, ◌≡◌, refl, sym, Bool, true, Option, some, [], ◌∷◌, arith, length,
  same_text_iff, take,
}
use purrivacy_app.Prelude.Dict.{
  Dict, lookup, insert, remove, keep, has_key, IsKeyed, lookup-insert, lookup-remove,
  has_key_of_some, insert-IsKeyed, remove-IsKeyed,
}
use purrivacy_app.Server.Documents.{AllStored, DocumentStore}

module _ {V : Type 0} where
  pub keep-stored :
      (p : V → Bool) (get : String → Option V) (d : Dict V)
      → IsKeyed d
      → ((k : String) (v : V) → lookup k d ≡ some v → get k ≡ some v)
      → AllStored get p (keep p d)
  unfolding keep
  keep-stored p get [] h agree = tt
  keep-stored p get ((j, w) ∷ d) h agree =
      let rest : AllStored get p (keep p d) = keep-stored p get d h.1 (λ k v at.
        agree k v
          (unfold lookup in ground (arith, has_key_of_some k d {v = v}, same_text_iff j k, h.0))) in
      let first : get j ≡ some w = agree j w (unfold lookup in ground (arith, same_text_iff j j)) in
      ground arith

  pub take-stored :
      (p : V → Bool) (get : String → Option V) (n : ℕ) (d : Dict V)
      → AllStored get p d
      → AllStored get p (take n d)
  take-stored p get zero d h = tt
  take-stored p get (suc n) [] h = tt
  take-stored p get (suc n) ((j, w) ∷ d) h = (h.0, h.1, take-stored p get n d h.2)

  pub keep_complete :
      (p : V → Bool) (k : String) (v : V) (d : Dict V)
      → lookup k d ≡ some v
      → p v ≡ true
      → has_key k (keep p d) ≡ true
  unfolding keep lookup
  keep_complete p k v [] at h = cc
  keep_complete p k v ((j, w) ∷ d) at h = ground (arith, keep_complete p k v d)

  pub length-take : (n : ℕ) (d : Dict V) → length (take n d) ≤ n
  length-take zero d = omega arith
  length-take (suc n) [] = omega arith
  length-take (suc n) ((j, w) ∷ d) = omega (arith, length-take n d)

  pub take-all : (n : ℕ) (d : Dict V) → length (take n d) < n → take n d ≡ d
  take-all zero d h = absurd (omega arith)
  take-all (suc n) [] h = refl
  take-all (suc n) ((j, w) ∷ d) h = rw (take-all n d (omega arith))

abbrev pub Keyed : Type 0 → Type 0
Keyed V = (d : Dict V) × IsKeyed d

abbrev pub empty : {V : Type 0} → Keyed V
empty = ([], tt)

-- The queries return the matching documents in the order in which their ids were first written.
abbrev pub dict_store : DocumentStore
dict_store = record {
  Collection = Keyed;
  get = λ k c. lookup k c.0;
  put = λ k v c. (insert k v c.0, insert-IsKeyed k v c.0 c.1);
  delete = λ k c. (remove k c.0, remove-IsKeyed k c.0 c.1);
  query_all = λ p c. keep p c.0;
  query = λ p n c. take n (keep p c.0);
  get-put = λ k j v c. lookup-insert k j v c.0;
  get-delete = λ k j c. lookup-remove k j c.0;
  query_all-stored = λ p c. keep-stored p (λ k. lookup k c.0) c.0 c.1 (λ k v h. h);
  query_all-complete = λ p k v c at h. keep_complete p k v c.0 at h;
  query-stored = λ p n c.
      take-stored p (λ k. lookup k c.0) n (keep p c.0)
        (keep-stored p (λ k. lookup k c.0) c.0 c.1 (λ k v h. h));
  length-query = λ p n c. length-take n (keep p c.0);
  query-complete = λ p n k v c short at h.
      subst (λ (d : Dict _). has_key k d ≡ true) (sym (take-all n (keep p c.0) short))
        (keep_complete p k v c.0 at h);
}
