-- ===== src/Server/PagedDelete.antt =====
-- What deletion in batches and pages does to a collection
-- (apps/server/src/infrastructure/firebase/chunkedWrites.ts).
use purrivacy_app.Prelude.{
  ℕ, zero, suc, ◌+◌, ◌<◌, String, ◌≡◌, ◌⊎◌, inl, inr, refl, sym, ◌∙◌, Bool, true, false, Option,
  none, some, [], ◌∷◌, arith, length, ltb, ◌==◌, Bool-cases, if_elim,
}
use purrivacy_app.Prelude.Dict.{Dict, has_key}
use purrivacy_app.Server.Documents.{DocumentStore}
use purrivacy_app.Server.ChunkedWrites.{
  PagedDelete, refs_of, no_filter, delete_batch, delete_pages, delete_paged_query_results,
}
use purrivacy_app.Server.Batches.{
  contains, refs_of-stored, refs_of-no_filter, get-delete_batch, delete_documents_in_chunks_lem,
}

-- Every document stays as it is, or it is deleted and passed both tests.
abbrev pub Spares {ℓ} :
    {V : Type ℓ} → (String → Option V) → (String → Option V) → (V → Bool) → (V → Bool) → Type ℓ
Spares {V} before after p filter =
    (k : String)
    → (after k ≡ before k)
      ⊎ ((after k ≡ none) × ((v : V) × (before k ≡ some v) × (p v ≡ true) × (filter v ≡ true)))

Spares-trans {ℓ} :
    {V : Type ℓ} {a b c : String → Option V} {p filter : V → Bool}
    → Spares a b p filter
    → Spares b c p filter
    → Spares a c p filter
Spares-trans ab bc k = elim (ab k) [
  | inl same ↦ elim (bc k) [
    | inl same' ↦ inl (same' ∙ same)
    | inr (gone, found) ↦ inr (gone, (found.0, sym same ∙ found.1, found.2, found.3))
  ]
  | inr (gone, found) ↦ elim (bc k) [
    | inl same' ↦ inr (same' ∙ gone, found)
    | inr (gone', found') ↦ inr (gone', found)
  ]
]

length_of_has_key {ℓ} :
    {V : Type ℓ} (k : String) (docs : Dict V) → has_key k docs ≡ true → 0 < length docs
length_of_has_key k [] h = cc
length_of_has_key k ((j, v) ∷ docs) h = omega arith

module _ (D : DocumentStore) {V : Type 0} where
  -- A page's deletions take away documents that pass both tests, and nothing else.
  delete_page-Spares :
      (p filter : V → Bool) (n : ℕ) (c : D.Collection V)
      → Spares
          (λ k. D.get k c)
          (λ k. D.get k (delete_batch D (refs_of filter (D.query p n c)) c))
          p
          filter
  delete_page-Spares p filter n c k =
      let refs = refs_of filter (D.query p n c) in
      elim (Bool-cases (contains k refs)) [
        | inl there ↦ inr (
          get-delete_batch D k refs c ∙ rw there,
          refs_of-stored (λ j. D.get j c) p filter k (D.query p n c) (D.query-stored p n c) there,
        )
        | inr absent ↦ inl (get-delete_batch D k refs c ∙ rw absent)
      ]

  -- How a round with `pages` more pages in the budget can end.
  delete_pages_cases {κ} :
      (P : PagedDelete (D.Collection V) → Type κ) (p filter : V → Bool) (n pages count : ℕ)
      (c : D.Collection V)
      → let docs = D.query p n c in
        let refs = refs_of filter docs in
        let c' = delete_batch D refs c in
        (length docs ≡ 0 → P (record { collection = c; deleted_count = count; truncated = false }))
        → (length refs ≡ 0
            → P (record { collection = c; deleted_count = count; truncated = false }))
        → (length docs < n
            → P (record {
              collection = c';
              deleted_count = count + length refs;
              truncated = false;
            }))
        → (pages ≡ 0
            → P (record { collection = c'; deleted_count = count + length refs; truncated = true }))
        → (0 < pages → P (delete_pages D p filter n pages (count + length refs) c'))
        → P (delete_pages D p filter n (suc pages) count c)
  unfolding delete_pages
  delete_pages_cases P p filter n pages count c none_found none_left last_page truncated more =
      let docs = D.query p n c in
      let refs = refs_of filter docs in
      rw (delete_documents_in_chunks_lem D refs c) (
        if_elim P (length docs == 0) _ _ (λ e. none_found (ground arith))
          λ e.
            if_elim P (length refs == 0) _ _ (λ e. none_left (ground arith))
              λ e.
                if_elim P (ltb (length docs) n) _ _ (λ e. last_page (ground arith))
                  λ e.
                    if_elim P (pages == 0) _ _ (λ e. truncated (ground arith))
                      λ e. more (ground arith))

  delete_pages-Spares :
      (p filter : V → Bool) (n pages count : ℕ) (c : D.Collection V)
      → Spares
          (λ k. D.get k c)
          (λ k. D.get k (delete_pages D p filter n pages count c).collection)
          p
          filter
  delete_pages-Spares p filter n zero count c = unfold delete_pages in (λ k. inl refl)
  delete_pages-Spares p filter n (suc pages) count c =
      let refs = refs_of filter (D.query p n c) in
      let c' = delete_batch D refs c in
      let page = delete_page-Spares p filter n c in
      let later = delete_pages-Spares p filter n pages (count + length refs) c' in
      delete_pages_cases (λ r. Spares (λ k. D.get k c) (λ k. D.get k r.collection) p filter) p
        filter n pages count c (λ e k. inl refl) (λ e k. inl refl) (λ e. page) (λ e. page)
        (λ e. Spares-trans page later)

  -- No stored document passes the test.
  abbrev pub HasNone : (V → Bool) → D.Collection V → Type 0
  HasNone p c = (k : String) (v : V) → D.get k c ≡ some v → p v ≡ false

  -- After a page that the limit did not cut short nothing that matches is left.
  short_page-HasNone :
      (p : V → Bool) (n : ℕ) (c : D.Collection V)
      → length (D.query p n c) < n
      → HasNone p (delete_batch D (refs_of no_filter (D.query p n c)) c)
  short_page-HasNone p n c short k v at =
      let docs = D.query p n c in
      let refs = refs_of no_filter docs in
      let (same, size) = refs_of-no_filter k docs in
      elim (Bool-cases (p v)) [
        | inl match ↦
            ground (arith, get-delete_batch D k refs c, same, D.query-complete p n k v c short)
        | inr other ↦ other
      ]

  no_match-HasNone :
      (p : V → Bool) (n : ℕ) (c : D.Collection V) → 0 < n → length (D.query p n c) ≡ 0 → HasNone p c
  no_match-HasNone p n c pos zero_docs k v at = elim (Bool-cases (p v)) [
    | inl match ↦ absurd (
        omega (
          arith,
          zero_docs,
          length_of_has_key k (D.query p n c) (D.query-complete p n k v c (omega arith) at match),
        ))
    | inr other ↦ other
  ]

  delete_pages-HasNone :
      (p : V → Bool) (n pages count : ℕ) (c : D.Collection V)
      → 0 < n
      → 0 < pages
      → (delete_pages D p no_filter n pages count c).truncated ≡ false
      → HasNone p (delete_pages D p no_filter n pages count c).collection
  delete_pages-HasNone p n zero count c pos h = absurd (omega arith)
  delete_pages-HasNone p n (suc pages) count c pos h =
      let docs = D.query p n c in
      let refs = refs_of no_filter docs in
      let c' = delete_batch D refs c in
      let later = delete_pages-HasNone p n pages (count + length refs) c' pos in
      delete_pages_cases (λ r. r.truncated ≡ false → HasNone p r.collection) p no_filter n pages
        count c (λ e u. no_match-HasNone p n c pos e)
        (λ e u. no_match-HasNone p n c pos (omega (arith, e, (refs_of-no_filter "" docs).1)))
        (λ e u. short_page-HasNone p n c e) (λ e u. cc) (λ e u. later e u)

  -- A sweep deletes only documents that match its query and pass its filter, and leaves all others
  -- as they are.
  pub delete_paged_query_results-Spares :
      (p filter : V → Bool) (c : D.Collection V)
      → Spares
          (λ k. D.get k c)
          (λ k. D.get k (delete_paged_query_results D p filter c).collection)
          p
          filter
  unfolding delete_paged_query_results
  delete_paged_query_results-Spares p filter c = delete_pages-Spares p filter 400 10 0 c

  -- When a sweep without a filter does not report that it was cut short, no document that is left
  -- matches the query.
  pub delete_paged_query_results_complete :
      (p : V → Bool) (c : D.Collection V) (k : String) (v : V)
      → (delete_paged_query_results D p no_filter c).truncated ≡ false
      → D.get k (delete_paged_query_results D p no_filter c).collection ≡ some v
      → p v ≡ false
  unfolding delete_paged_query_results
  delete_paged_query_results_complete p c k v u at =
      delete_pages-HasNone p 400 10 0 c (omega arith) (omega arith) u k v at

  -- A first page that is full of documents which the filter excludes ends the sweep: nothing is
  -- deleted, also no document beyond the page, and the result does not say that it was cut short.
  pub excluded_page_stops :
      (p filter : V → Bool) (c : D.Collection V)
      → length (refs_of filter (D.query p 400 c)) ≡ 0
      → delete_paged_query_results D p filter c
        ≡ record { collection = c; deleted_count = 0; truncated = false }
  unfolding delete_paged_query_results delete_pages
  excluded_page_stops p filter c h = ground arith
