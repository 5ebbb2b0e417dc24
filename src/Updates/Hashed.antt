-- ===== src/Updates/Hashed.antt =====
-- The hash of a downloaded file (apps/mobile/src/features/updates/services/appUpdateService.ts).
use purrivacy_app.Prelude.{
  ℕ, zero, suc, ◌+◌, ◌≤◌, ◌<◌, ◌≡◌, refl, sym, ap, ap₂, ◌∙◌, true, false, Option, none, some, List,
  [], ◌∷◌, ◌++◌, arith, length, take, drop, ltb, ◌==◌, if◌then◌else◌, if_elim, length-append,
  take-append-drop,
}
use purrivacy_app.Updates.Install.{
  ApkFile, Hasher, apk_hash_chunk_size, hash_rounds, complete_digest, hash_file_by,
  hash_file_sha256,
}

take_nothing : (n : ℕ) (xs : List ℕ) → 1 ≤ n → (length (take n xs) == 0) ≡ true → xs ≡ []
take_nothing n [] h e = refl
take_nothing zero (x ∷ xs) h e = absurd (omega (arith, h))
take_nothing (suc n) (x ∷ xs) h e = absurd (ground (arith, e))

take_short : (n : ℕ) (xs : List ℕ) → ltb (length (take n xs)) n ≡ true → take n xs ≡ xs
take_short zero xs h = absurd (ground (arith, h))
take_short (suc n) [] h = refl
take_short (suc n) (x ∷ xs) h = ap (λ ys. x ∷ ys) (take_short n xs (ground (arith, h)))

take_full : (n : ℕ) (xs : List ℕ) → ltb (length (take n xs)) n ≡ false → length (take n xs) ≡ n
take_full zero xs h = refl
take_full (suc n) [] h = absurd (ground (arith, h))
take_full (suc n) (x ∷ xs) h = ap suc (take_full n xs (ground (arith, h)))

length-cut : (n : ℕ) (xs : List ℕ) → length (take n xs) + length (drop n xs) ≡ length xs
length-cut n xs = sym (length-append (take n xs) (drop n xs)) ∙ ap length (take-append-drop n xs)

module _ (H : Hasher) (update-nil : (s : H.HashState) → H.update [] s ≡ s)
    (update-append : (xs ys : List ℕ) (s : H.HashState)
      → H.update (xs ++ ys) s ≡ H.update ys (H.update xs s)) where
  hash_rounds_all :
      (n fuel : ℕ) (rest : List ℕ) (state : H.HashState) (total : ℕ)
      → 1 ≤ n
      → length rest < fuel
      → hash_rounds H n fuel rest state total ≡ some (H.update rest state, total + length rest)
  unfolding hash_rounds
  hash_rounds_all n zero rest state total positive enough = absurd (omega (arith, enough))
  hash_rounds_all n (suc fuel) rest state total positive enough =
      let chunk = take n rest in
      let goal =
        λ (r : Option (H.HashState × ℕ)). r ≡ some (H.update rest state, total + length rest) in
      if_elim goal (length chunk == 0) _ _
        (λ none_left.
          let gone = take_nothing n rest positive none_left in
          rw (gone, update-nil state) (ap (λ k. some (state, k)) (omega arith)))
        (λ more.
          if_elim goal (ltb (length chunk) n) _ _ (λ last. rw (take_short n rest last) refl)
            (λ full.
              hash_rounds_all n fuel (drop n rest) (H.update chunk state) (total + length chunk)
                positive (omega (arith, length-cut n rest, take_full n rest full))
              ∙ ap₂ (λ (s : H.HashState) (k : ℕ). some (s, k))
                  (sym (update-append chunk (drop n rest) state)
                    ∙ ap (λ (ys : List ℕ). H.update ys state) (take-append-drop n rest))
                  (omega (arith, length-cut n rest))))

  hash_file_by_all :
      (n : ℕ) (file : ApkFile)
      → 1 ≤ n
      → hash_file_by H n file ≡ (
          if length file.bytes == file.file_size
          then some (H.digest_hex (H.update file.bytes H.start))
          else none)
  unfolding hash_file_by complete_digest
  hash_file_by_all n file positive =
      ap (complete_digest H file.file_size)
        (hash_rounds_all n (suc (length file.bytes)) file.bytes H.start 0 positive (omega arith))
      ∙ ap (λ k. complete_digest H file.file_size (some (H.update file.bytes H.start, k)))
          (omega arith)

-- Hashing a downloaded file ends, whatever its length: with the digest of exactly its bytes, if they
-- are as many as the file system reports, and with an error otherwise. The hasher takes bytes in pieces
-- as it takes them at once.
pub hash_file_covers_file :
    (H : Hasher)
    → ((s : H.HashState) → H.update [] s ≡ s)
    → ((xs ys : List ℕ) (s : H.HashState) → H.update (xs ++ ys) s ≡ H.update ys (H.update xs s))
    → (file : ApkFile)
    → hash_file_sha256 H file ≡ (
        if length file.bytes == file.file_size
        then some (H.digest_hex (H.update file.bytes H.start))
        else none)
unfolding hash_file_sha256
hash_file_covers_file H nil append file =
    hash_file_by_all H nil append apk_hash_chunk_size file (omega arith)
