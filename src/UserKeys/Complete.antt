-- ===== src/UserKeys/Complete.antt =====
-- All pages together (apps/mobile/src/api/user/userApi.ts and
-- apps/server/src/features/user/infrastructure/userKeys/userKeyRecordSet.ts).
use mathlib.Core.Path.{subst}
use Prim.Native.String.{String}
use purrivacy_app.Prelude.{
  ℕ, zero, suc, ◌+◌, ◌*◌, ◌≤◌, ◌≡◌, refl, sym, ap, ap₂, ◌∙◌, ◌⊎◌, inl, inr, true, false, Option,
  none, some, List, [], ◌∷◌, ◌++◌, arith, length, take, drop, ltb, ◌==◌, length-append,
  take-append-drop, Bool-cases,
}
use purrivacy_app.Server.Errors.{ok}
use purrivacy_app.UserKeys.Repository.{KeyRecord}
use purrivacy_app.UserKeys.Cursor.{encode_cursor}
use purrivacy_app.UserKeys.Pages.{KeyEntry, position, last, cursor_behind, to_key_records}
use purrivacy_app.UserKeys.Order.{AllAfter, Ascending}
use purrivacy_app.UserKeys.Boundary.{
  AllIds, IsBehind, start_index-IsBehind, page_from-passed, take-last,
}
use purrivacy_app.UserKeys.FetchAll.{fetch_rounds}
use purrivacy_app.UserKeys.Walk.{
  answer, round_last, round_more, Unseen, Unseen-drop, Unseen-middle, Ascending-rest, AllIds-middle,
  Unseen-later,
}

module _ {A : Type 0} where
  take_short : (n : ℕ) (xs : List A) → ltb (length (take n xs)) (length xs) ≡ false → take n xs ≡ xs
  take_short zero [] h = refl
  take_short zero (x ∷ xs) h = absurd (ground arith)
  take_short (suc n) [] h = refl
  take_short (suc n) (x ∷ xs) h = ap (λ ys. x ∷ ys) (take_short n xs (ground arith))

  take_long :
      (n : ℕ) (xs : List A) → ltb (length (take n xs)) (length xs) ≡ true → length (take n xs) ≡ n
  take_long zero xs h = refl
  take_long (suc n) [] h = absurd (ground arith)
  take_long (suc n) (x ∷ xs) h = ap suc (take_long n xs (ground arith))

  length-take-drop : (n : ℕ) (xs : List A) → length (take n xs) + length (drop n xs) ≡ length xs
  length-take-drop n xs =
      sym (length-append (take n xs) (drop n xs)) ∙ ap length (take-append-drop n xs)

  List-cases : (xs : List A) → (xs ≡ []) ⊎ ((x : A) × (ys : List A) × (xs ≡ x ∷ ys))
  List-cases [] = inl refl
  List-cases (x ∷ xs) = inr (x, xs, refl)

  append_assoc : (xs ys zs : List A) → (xs ++ ys) ++ zs ≡ xs ++ (ys ++ zs)
  append_assoc [] ys zs = refl
  append_assoc (x ∷ xs) ys zs = rw (append_assoc xs ys zs)

to_key_records-append :
    (xs ys : List KeyEntry) → to_key_records (xs ++ ys) ≡ to_key_records xs ++ to_key_records ys
unfolding to_key_records
to_key_records-append [] ys = refl
to_key_records-append (x ∷ xs) ys = rw (to_key_records-append xs ys)

answer-IsBehind :
    (limit : ℕ) (cursor : Option String) (passed : List KeyEntry) (next : KeyEntry)
    (rest : List KeyEntry)
    → IsBehind cursor passed
    → Ascending (passed ++ next ∷ rest)
    → answer (passed ++ next ∷ rest) limit cursor
      ≡ ok (
        to_key_records (take limit (next ∷ rest)),
        cursor_behind
            (ltb (length (take limit (next ∷ rest))) (length (next ∷ rest)))
            (last (take limit (next ∷ rest))),
      )
answer-IsBehind limit cursor passed next rest behind sorted =
    rw
      (
        start_index-IsBehind cursor passed next rest behind sorted,
        page_from-passed limit passed (next ∷ rest),
      )
      refl

-- The last page
last_page :
    (l left : ℕ) (cursor : Option String) (passed : List KeyEntry) (next : KeyEntry)
    (rest : List KeyEntry) (seen : List String) (keys : List KeyRecord)
    → IsBehind cursor passed
    → Ascending (passed ++ next ∷ rest)
    → ltb (length (take (suc l) (next ∷ rest))) (length (next ∷ rest)) ≡ false
    → fetch_rounds (answer (passed ++ next ∷ rest) (suc l)) left cursor seen keys
      ≡ ok (keys ++ to_key_records (next ∷ rest))
unfolding cursor_behind
last_page l left cursor passed next rest seen keys behind sorted short =
    let (front, entry, is_front, is_last) = take-last l next rest in
    let page : answer (passed ++ next ∷ rest) (suc l) cursor
        ≡ ok (to_key_records (next ∷ rest), none) =
      answer-IsBehind (suc l) cursor passed next rest behind sorted
      ∙ ap₂ (λ ks c. ok (ks, c)) (ap to_key_records (take_short (suc l) (next ∷ rest) short))
          (rw (short, is_last) refl) in
    round_last (answer (passed ++ next ∷ rest) (suc l)) left cursor seen keys
      (to_key_records (next ∷ rest)) page

AllIds-rest : (front rest : List KeyEntry) → AllIds (front ++ rest) → AllIds rest
AllIds-rest [] rest valid = valid
AllIds-rest (entry ∷ front) rest valid = AllIds-rest front rest valid.2

AllAfter-rest :
    (front : List KeyEntry) (entry : KeyEntry) (rest : List KeyEntry)
    → Ascending (front ++ entry ∷ rest)
    → AllAfter (position entry) rest
AllAfter-rest [] entry rest sorted = sorted.0
AllAfter-rest (other ∷ front) entry rest sorted = AllAfter-rest front entry rest sorted.1

not_empty_page : (front : List KeyRecord) (r : KeyRecord) → (length (front ++ r ∷ []) == 0) ≡ false
not_empty_page [] r = refl
not_empty_page (x ∷ front) r = ground arith

-- The state of the loop after a page that is not the last: what is passed, and what is left
step_split :
    (l : ℕ) (todo front : List KeyEntry) (entry : KeyEntry) (left : List KeyEntry)
    → take (suc l) todo ≡ front ++ entry ∷ []
    → drop (suc l) todo ≡ left
    → todo ≡ front ++ entry ∷ left
step_split l todo front entry left is_page is_rest =
    sym (take-append-drop (suc l) todo)
    ∙ ap₂ (λ xs ys. xs ++ ys) is_page is_rest
    ∙ append_assoc front (entry ∷ []) left

-- A page that is not the last, with its cursor
page_with_cursor :
    (l : ℕ) (cursor : Option String) (passed : List KeyEntry) (next : KeyEntry)
    (rest : List KeyEntry) (entry : KeyEntry)
    → IsBehind cursor passed
    → Ascending (passed ++ next ∷ rest)
    → ltb (length (take (suc l) (next ∷ rest))) (length (next ∷ rest)) ≡ true
    → last (take (suc l) (next ∷ rest)) ≡ some entry
    → answer (passed ++ next ∷ rest) (suc l) cursor
      ≡ ok (to_key_records (take (suc l) (next ∷ rest)), some (encode_cursor (position entry)))
unfolding cursor_behind
page_with_cursor l cursor passed next rest entry behind sorted more is_last =
    answer-IsBehind (suc l) cursor passed next rest behind sorted
    ∙ ap (λ c. ok (to_key_records (take (suc l) (next ∷ rest)), c)) (rw (more, is_last) refl)

-- The remaining pages give the remaining records, if there are rounds enough.
pub walk :
    (l left : ℕ) (whole : List KeyEntry) (cursor : Option String) (passed : List KeyEntry)
    (next : KeyEntry) (rest : List KeyEntry) (seen : List String) (keys : List KeyRecord)
    → whole ≡ passed ++ next ∷ rest
    → IsBehind cursor passed
    → Ascending whole
    → AllIds whole
    → Unseen seen (next ∷ rest)
    → length (next ∷ rest) ≤ suc left * suc l
    → fetch_rounds (answer whole (suc l)) left cursor seen keys
      ≡ ok (keys ++ to_key_records (next ∷ rest))
unfolding to_key_records
walk l zero whole cursor passed next rest seen keys is_whole behind sorted valid new fits =
    let short : ltb (length (take (suc l) (next ∷ rest))) (length (next ∷ rest)) ≡ false =
      elim (Bool-cases (ltb (length (take (suc l) (next ∷ rest))) (length (next ∷ rest)))) [
        | inr short ↦ short
        | inl more ↦ absurd (ground (arith, more, take_long (suc l) (next ∷ rest) more))
      ] in
    rw is_whole (
      last_page l zero cursor passed next rest seen keys behind (subst Ascending is_whole sorted)
        short)
walk l (suc left) whole cursor passed next rest seen keys is_whole behind sorted valid new fits =
    let todo = next ∷ rest in
    elim (Bool-cases (ltb (length (take (suc l) todo)) (length todo))) [
      | inr short ↦ rw is_whole (
          last_page l (suc left) cursor passed next rest seen keys behind
            (subst Ascending is_whole sorted) short)
      | inl more ↦ elim (List-cases (drop (suc l) todo)) [
        | inl nothing ↦
            absurd (ground (arith, more, length-take-drop (suc l) todo, ap length nothing))
        | inr (other, others, is_rest) ↦
            let (front, entry, is_page, is_last) = take-last l next rest in
            let split = step_split l todo front entry (other ∷ others) is_page is_rest in
            let sorted_todo =
              subst Ascending split
                (Ascending-rest passed todo (subst Ascending is_whole sorted)) in
            let valid_todo =
              subst AllIds split (AllIds-rest passed todo (subst AllIds is_whole valid)) in
            let (id_valid, id_there) = AllIds-middle front entry (other ∷ others) valid_todo in
            let again : todo ≡ take (suc l) todo ++ (other ∷ others) =
              sym (take-append-drop (suc l) todo) ∙ ap (λ xs. take (suc l) todo ++ xs) is_rest in
            let page = to_key_records (take (suc l) todo) in
            let next_cursor = encode_cursor (position entry) in
            let round =
              round_more (answer whole (suc l)) left cursor next_cursor seen keys page
                (rw is_whole (
                  page_with_cursor l cursor passed next rest entry behind
                    (subst Ascending is_whole sorted) more is_last))
                (Unseen-middle seen front entry (other ∷ others) (subst (Unseen seen) split new))
                (ground arith) in
            let later =
              walk l left whole (some next_cursor) (passed ++ take (suc l) todo) other others
                (next_cursor ∷ seen) (keys ++ page)
                (is_whole
                  ∙ ap (λ xs. passed ++ xs) again
                  ∙ sym (append_assoc passed (take (suc l) todo) (other ∷ others)))
                (
                  passed ++ front,
                  entry,
                  ap (λ xs. passed ++ xs) is_page ∙ sym (append_assoc passed front (entry ∷ [])),
                  refl,
                  id_valid,
                  id_there,
                )
                sorted valid
                (Unseen-later entry seen (other ∷ others) id_there
                  (AllIds-rest front (entry ∷ other ∷ others) valid_todo).2
                  (AllAfter-rest front entry (other ∷ others) sorted_todo)
                  (subst (Unseen seen) is_rest (Unseen-drop (suc l) seen todo new)))
                (omega (
                  arith,
                  length-take-drop (suc l) todo,
                  ap length is_rest,
                  take_long (suc l) todo more,
                  fits,
                )) in
            round
            ∙ later
            ∙ ap ok (
                append_assoc keys page (to_key_records (other ∷ others))
                ∙ ap (λ ks. keys ++ ks)
                    (sym (to_key_records-append (take (suc l) todo) (other ∷ others))
                      ∙ ap to_key_records (sym again)))
      ]
    ]
