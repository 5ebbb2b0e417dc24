-- ===== src/Server/Batches.antt =====
-- Deletion of given references in bounded batches
-- (apps/server/src/infrastructure/firebase/chunkedWrites.ts).
use purrivacy_app.Prelude.{
  ℕ, zero, suc, ◌+◌, ◌≤◌, ◌<◌, String, ◌≡◌, inl, inr, refl, sym, ◌∙◌, ap, Bool, true, false, Option,
  none, some, List, [], ◌∷◌, ◌++◌, arith, if◌then◌else◌, length, take, drop, same_text,
  same_text_iff, Bool-cases, take-append-drop, length-append,
}
use purrivacy_app.Prelude.Dict.{Dict, has_key}
use purrivacy_app.Server.Documents.{DocumentStore, AllStored}
use purrivacy_app.Server.ChunkedWrites.{
  safe_batch_chunk_size, refs_of, no_filter, delete_batch, delete_chunks,
  delete_documents_in_chunks,
}

abbrev pub contains : String → List String → Bool
contains k [] = false
contains k (j ∷ js) = if same_text j k then true else contains k js

-- A reference of a page is a stored document that passes both tests.
pub refs_of-stored {ℓ} :
    {V : Type ℓ} (get : String → Option V) (p filter : V → Bool) (k : String) (docs : Dict V)
    → AllStored get p docs
    → contains k (refs_of filter docs) ≡ true
    → (v : V) × (get k ≡ some v) × (p v ≡ true) × (filter v ≡ true)
unfolding refs_of
refs_of-stored get p filter k [] h m = cc
refs_of-stored get p filter k ((j, v) ∷ docs) (at, match, rest) m = elim (Bool-cases (filter v)) [
  | inl pass ↦ elim (Bool-cases (same_text j k)) [
    | inl same ↦ (v, rw (← (same_text_iff j k).0 same) at, match, pass)
    | inr other ↦ refs_of-stored get p filter k docs rest (ground arith)
  ]
  | inr skip ↦ refs_of-stored get p filter k docs rest (ground arith)
]

pub refs_of-no_filter {ℓ} :
    {V : Type ℓ} (k : String) (docs : Dict V)
    → (contains k (refs_of no_filter docs) ≡ has_key k docs)
      × (length (refs_of no_filter docs) ≡ length docs)
unfolding refs_of
refs_of-no_filter k [] = (refl, refl)
refs_of-no_filter k ((j, v) ∷ docs) = let (a, b) = refs_of-no_filter k docs in (rw a, rw b)

module _ (D : DocumentStore) {V : Type 0} where
  pub get-delete_batch :
      (k : String) (ks : List String) (c : D.Collection V)
      → D.get k (delete_batch D ks c) ≡ (if contains k ks then none else D.get k c)
  unfolding delete_batch
  get-delete_batch k [] c = refl
  get-delete_batch k (j ∷ ks) c =
      ground (arith, get-delete_batch k ks (D.delete j c), D.get-delete j k c)

  delete_batch-append :
      (xs ys : List String) (c : D.Collection V)
      → delete_batch D (xs ++ ys) c ≡ delete_batch D ys (delete_batch D xs c)
  unfolding delete_batch
  delete_batch-append [] ys c = refl
  delete_batch-append (x ∷ xs) ys c = delete_batch-append xs ys (D.delete x c)

  delete_chunks_lem :
      (rounds chunk_size : ℕ) (refs : List String) (count : ℕ) (c : D.Collection V)
      → 0 < chunk_size
      → length refs ≤ rounds
      → delete_chunks D rounds chunk_size refs count c
        ≡ (delete_batch D refs c, count + length refs)
  unfolding delete_chunks
  delete_chunks_lem zero n [] count c pos le = unfold delete_batch in ground arith
  delete_chunks_lem zero n (k ∷ ks) count c pos le = absurd (omega arith)
  delete_chunks_lem (suc rounds) n [] count c pos le = unfold delete_batch in ground arith
  delete_chunks_lem (suc rounds) zero (k ∷ ks) count c pos le = absurd (omega arith)
  delete_chunks_lem (suc rounds) (suc n) (k ∷ ks) count c pos le =
      let sizes : length (take n ks) + length (drop n ks) ≡ length ks =
        sym (length-append (take n ks) (drop n ks)) ∙ ap length (take-append-drop n ks) in
      let ih =
        delete_chunks_lem rounds (suc n) (drop n ks) (count + suc (length (take n ks)))
          (delete_batch D (k ∷ take n ks) c) pos (omega arith) in
      ground (
        arith,
        ih,
        sizes,
        delete_batch-append (k ∷ take n ks) (drop n ks) c,
        ap (λ (l : List String). k ∷ l) (take-append-drop n ks),
      )

  -- Deleting in chunks of at most 400 deletes exactly the given references, and counts each of them.
  pub delete_documents_in_chunks_lem :
      (refs : List String) (c : D.Collection V)
      → delete_documents_in_chunks D refs c ≡ (delete_batch D refs c, length refs)
  unfolding delete_documents_in_chunks
  delete_documents_in_chunks_lem refs c =
      ground (arith, delete_chunks_lem (length refs) safe_batch_chunk_size refs 0 c)
