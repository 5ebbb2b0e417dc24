-- ===== src/Server/ChunkedWrites.antt =====
-- Deletion in bounded batches and pages
-- (apps/server/src/infrastructure/firebase/chunkedWrites.ts).
use purrivacy_app.Prelude.{
  ℕ, zero, suc, ◌+◌, String, Bool, true, false, List, [], ◌∷◌, if◌then◌else◌, length, take, drop,
  ltb, ◌==◌,
}
use purrivacy_app.Prelude.Dict.{Dict}
use purrivacy_app.Server.Documents.{DocumentStore}

abbrev pub safe_batch_chunk_size : ℕ
safe_batch_chunk_size = 400

abbrev pub default_cleanup_page_size : ℕ
default_cleanup_page_size = 400

abbrev pub default_max_cleanup_pages : ℕ
default_max_cleanup_pages = 10

-- `PagedDeleteResult`, with the collection that the deletions leave
pub record PagedDelete (C : Type 0) : Type 0 where
  pub collection : C
  pub deleted_count : ℕ
  pub truncated : Bool

-- `snapshot.docs.filter(filter).map(doc => doc.ref)`
unfoldable pub refs_of {ℓ} : {V : Type ℓ} → (V → Bool) → Dict V → List String
refs_of filter [] = []
refs_of filter ((k, v) ∷ docs) =
    let rest = refs_of filter docs in if filter v then k ∷ rest else rest

-- No `filter` option: every document of the page.
abbrev pub no_filter {ℓ} : {V : Type ℓ} → V → Bool
no_filter v = true

module _ (D : DocumentStore) {V : Type 0} where
  -- `batch.delete(ref)` for every reference, and `batch.commit()`
  unfoldable pub delete_batch : List String → D.Collection V → D.Collection V
  delete_batch [] c = c
  delete_batch (k ∷ ks) c = delete_batch ks (D.delete k c)

  -- The loop of `deleteDocumentsInChunks` over the references that are left, with a bound on its
  -- rounds.
  unfoldable pub delete_chunks : ℕ → ℕ → List String → ℕ → D.Collection V → D.Collection V × ℕ
  delete_chunks zero chunk_size refs count c = (c, count)
  delete_chunks (suc rounds) chunk_size [] count c = (c, count)
  delete_chunks (suc rounds) chunk_size (k ∷ ks) count c =
      let chunk = take chunk_size (k ∷ ks) in
      delete_chunks rounds chunk_size (drop chunk_size (k ∷ ks)) (count + length chunk)
        (delete_batch chunk c)

  -- `deleteDocumentsInChunks` with its default chunk size: one round for each reference suffices
  unfoldable pub delete_documents_in_chunks : List String → D.Collection V → D.Collection V × ℕ
  unfolding delete_chunks delete_batch
  delete_documents_in_chunks refs c = delete_chunks (length refs) safe_batch_chunk_size refs 0 c

  -- The end of one round of the loop of `deletePagedQueryResults`: `next` is the next round and `last`
  -- tells whether this is the last page of the budget.
  page_done :
      ℕ
      → Bool
      → ℕ
      → (ℕ → D.Collection V → PagedDelete (D.Collection V))
      → ℕ
      → D.Collection V × ℕ
      → PagedDelete (D.Collection V)
  page_done page_size last found next count (c, deleted) =
      if ltb found page_size
      then record { collection = c; deleted_count = count + deleted; truncated = false }
      else if last
      then record { collection = c; deleted_count = count + deleted; truncated = true }
      else next (count + deleted) c

  -- The loop of `deletePagedQueryResults` over the pages that are left.
  unfoldable pub delete_pages :
      (V → Bool) → (V → Bool) → ℕ → ℕ → ℕ → D.Collection V → PagedDelete (D.Collection V)
  unfolding page_done
  delete_pages p filter page_size zero count c = record {
    collection = c;
    deleted_count = count;
    truncated = false;
  }
  delete_pages p filter page_size (suc pages) count c =
      let docs = D.query p page_size c in
      let refs = refs_of filter docs in
      if length docs == 0
      then record { collection = c; deleted_count = count; truncated = false }
      else if length refs == 0
      then record { collection = c; deleted_count = count; truncated = false }
      else page_done page_size (pages == 0) (length docs) (delete_pages p filter page_size pages)
          count (delete_documents_in_chunks refs c)

  -- `deletePagedQueryResults` with the default page size and number of pages
  unfoldable pub delete_paged_query_results :
      (V → Bool) → (V → Bool) → D.Collection V → PagedDelete (D.Collection V)
  unfolding delete_pages
  delete_paged_query_results p filter c =
      delete_pages p filter default_cleanup_page_size default_max_cleanup_pages 0 c
