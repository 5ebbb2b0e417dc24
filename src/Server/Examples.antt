-- ===== src/Server/Examples.antt =====
-- The properties of batch and page deletion at a concrete collection
-- (apps/server/src/infrastructure/firebase/chunkedWrites.ts).
use purrivacy_app.Prelude.{ℕ, ◌≡◌, refl, Bool, false, ltb, same_text}
use purrivacy_app.Prelude.Dict.{lookup, insert, remove, keep}
use purrivacy_app.Server.DictStore.{Keyed, empty, dict_store}
use purrivacy_app.Server.ChunkedWrites.{
  refs_of, delete_batch, delete_documents_in_chunks, delete_pages, delete_paged_query_results,
}
use purrivacy_app.Server.PagedDelete.{delete_paged_query_results_complete}

-- Documents that are numbers; those below 10 match.
abbrev numbers : Keyed ℕ
numbers = dict_store.put "a" 3 (dict_store.put "b" 30 (dict_store.put "c" 5 empty))

abbrev small : ℕ → Bool
small n = ltb n 10

delete_paged_query_results_complete_example : small 30 ≡ false
unfolding delete_paged_query_results delete_pages delete_documents_in_chunks delete_batch refs_of
    keep insert remove lookup same_text
delete_paged_query_results_complete_example =
    delete_paged_query_results_complete dict_store small numbers "b" 30 refl refl
