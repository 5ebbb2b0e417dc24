-- ===== src/Server/Documents.antt =====
-- The contract of the document database, Firestore, that the code relies on: collections of
-- documents by id, single writes, and queries. A transaction or a batch is one step of the model.
-- An association list meets the contract.
use purrivacy_app.Prelude.{
  ℕ, ◌≤◌, ◌<◌, String, ◌≡◌, Bool, true, Option, none, some, [], ◌∷◌, if◌then◌else◌, length,
  same_text,
}
use purrivacy_app.Prelude.Dict.{Dict, has_key}

-- Every document of a query's answer is stored and matches.
abbrev pub AllStored {ℓ} : {V : Type ℓ} → (String → Option V) → (V → Bool) → Dict V → Type ℓ
AllStored get p [] = Unit
AllStored get p ((k, v) ∷ docs) = (get k ≡ some v) × (p v ≡ true) × AllStored get p docs

pub record DocumentStore : Type 1 where
  pub Collection : Type 0 → Type 0
  pub get : {V : Type 0} → String → Collection V → Option V
  -- `doc(id).set(v)`
  pub put : {V : Type 0} → String → V → Collection V → Collection V
  -- `doc(id).delete()`
  pub delete : {V : Type 0} → String → Collection V → Collection V
  -- `where(p).get()`
  pub query_all : {V : Type 0} → (V → Bool) → Collection V → Dict V
  -- `where(p).limit(n).get()`
  pub query : {V : Type 0} → (V → Bool) → ℕ → Collection V → Dict V
  pub get-put :
      {V : Type 0} (k j : String) (v : V) (c : Collection V)
      → get j (put k v c) ≡ (if same_text k j then some v else get j c)
  pub get-delete :
      {V : Type 0} (k j : String) (c : Collection V)
      → get j (delete k c) ≡ (if same_text k j then none else get j c)
  pub query_all-stored :
      {V : Type 0} (p : V → Bool) (c : Collection V) → AllStored (λ k. get k c) p (query_all p c)
  pub query_all-complete :
      {V : Type 0} (p : V → Bool) (k : String) (v : V) (c : Collection V)
      → get k c ≡ some v
      → p v ≡ true
      → has_key k (query_all p c) ≡ true
  pub query-stored :
      {V : Type 0} (p : V → Bool) (n : ℕ) (c : Collection V)
      → AllStored (λ k. get k c) p (query p n c)
  pub length-query :
      {V : Type 0} (p : V → Bool) (n : ℕ) (c : Collection V) → length (query p n c) ≤ n
  pub query-complete :
      {V : Type 0} (p : V → Bool) (n : ℕ) (k : String) (v : V) (c : Collection V)
      → length (query p n c) < n
      → get k c ≡ some v
      → p v ≡ true
      → has_key k (query p n c) ≡ true
