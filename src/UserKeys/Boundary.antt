-- ===== src/UserKeys/Boundary.antt =====
-- Where a page starts, and where it ends
-- (apps/server/src/features/user/infrastructure/userKeys/userKeyRecordSet.ts).
use mathlib.Core.Path.{subst}
use Prim.Native.String.{String}
use purrivacy_app.Prelude.{
  ℕ, zero, suc, ◌+◌, ◌≡◌, refl, ap, ◌∙◌, true, false, Option, none, some, List, [], ◌∷◌, ◌++◌,
  arith, length, take, drop, ltb, length-append,
}
use purrivacy_app.Server.Errors.{ok}
use purrivacy_app.Server.Text.{is_empty}
use purrivacy_app.UserKeys.RecordSet.{assert_user_key_record_id, number_or_zero}
use purrivacy_app.UserKeys.Cursor.{Position, encode_cursor, decode_cursor, decode-encode}
use purrivacy_app.UserKeys.Pages.{
  KeyEntry, position_lt, position, next_index, find_boundary, start_behind, start_index, last,
  cursor_behind, page_from,
}
use purrivacy_app.UserKeys.Order.{position_lt_irrefl, position_lt_asym, AllAfter, Ascending}

pub AllAfter-middle :
    (p : Position) (front : List KeyEntry) (entry : KeyEntry) (rest : List KeyEntry)
    → AllAfter p (front ++ entry ∷ rest)
    → position_lt p (position entry) ≡ true
AllAfter-middle p [] entry rest after = after.0
AllAfter-middle p (other ∷ front) entry rest after = AllAfter-middle p front entry rest after.1

-- The boundary of a record's position is the index of the record behind it.
find_boundary-middle :
    (front : List KeyEntry) (entry next : KeyEntry) (rest : List KeyEntry)
    → Ascending (front ++ entry ∷ next ∷ rest)
    → find_boundary (position entry) (front ++ entry ∷ next ∷ rest) ≡ some (suc (length front))
unfolding find_boundary next_index
find_boundary-middle [] entry next rest sorted =
    rw (position_lt_irrefl (position entry), sorted.0.0) refl
find_boundary-middle (other ∷ front) entry next rest sorted =
    let less = AllAfter-middle (position other) front entry (next ∷ rest) sorted.0 in
    rw
      (
        position_lt_asym (position other) (position entry) less,
        find_boundary-middle front entry next rest sorted.1,
      )
      refl

-- Every record has a valid id.
abbrev pub AllIds : List KeyEntry → Type 0
AllIds [] = Unit {0}
AllIds (entry ∷ entries) =
    (assert_user_key_record_id entry.record_id ≡ ok true)
    × (is_empty entry.record_id ≡ false)
    × AllIds entries

-- The cursor that stands behind these records
abbrev pub IsBehind : Option String → List KeyEntry → Type 0
IsBehind none passed = passed ≡ []
IsBehind (some cursor) passed =
    (front : List KeyEntry) × (entry : KeyEntry) × (passed ≡ front ++ entry ∷ [])
    × (cursor ≡ encode_cursor (position entry))
    × (assert_user_key_record_id entry.record_id ≡ ok true)
    × (is_empty entry.record_id ≡ false)

append_one :
    (front : List KeyEntry) (entry : KeyEntry) (rest : List KeyEntry)
    → (front ++ entry ∷ []) ++ rest ≡ front ++ entry ∷ rest
append_one [] entry rest = refl
append_one (other ∷ front) entry rest = rw (append_one front entry rest)

-- Pagination goes on behind the records that the cursor stands behind.
pub start_index-IsBehind :
    (cursor : Option String) (passed : List KeyEntry) (next : KeyEntry) (rest : List KeyEntry)
    → IsBehind cursor passed
    → Ascending (passed ++ next ∷ rest)
    → start_index cursor (passed ++ next ∷ rest) ≡ ok (length passed)
unfolding start_index start_behind position number_or_zero
start_index-IsBehind none passed next rest none_passed sorted = rw none_passed refl
start_index-IsBehind (some cursor) passed next rest
      (front, entry, is_front, is_cursor, valid, not_empty) sorted =
    let whole = ap (λ xs. xs ++ next ∷ rest) is_front ∙ append_one front entry (next ∷ rest) in
    let decoded : decode_cursor cursor ≡ some (position entry) =
      ap decode_cursor is_cursor ∙ decode-encode (position entry).0 entry.record_id not_empty in
    let found = find_boundary-middle front entry next rest (subst Ascending whole sorted) in
    rw (decoded, whole, found, valid, is_front, length-append front (entry ∷ []))
      (ap ok (omega arith))

drop-passed : (passed rest : List KeyEntry) → drop (length passed) (passed ++ rest) ≡ rest
drop-passed [] rest = refl
drop-passed (entry ∷ passed) rest = drop-passed passed rest

-- The page from behind the passed records
pub page_from-passed :
    (limit : ℕ) (passed rest : List KeyEntry)
    → page_from limit (length passed) (passed ++ rest) ≡ record {
      records = take limit rest;
      next_cursor =
          cursor_behind (ltb (length (take limit rest)) (length rest)) (last (take limit rest));
    }
unfolding page_from
page_from-passed limit passed rest =
    let shift : ltb (length passed + length (take limit rest)) (length passed + length rest)
        ≡ ltb (length (take limit rest)) (length rest) =
      ground arith in
    rw (drop-passed passed rest, length-append passed rest, shift) refl

-- A page that is not empty has a last record.
pub take-last :
    (limit : ℕ) (next : KeyEntry) (rest : List KeyEntry)
    → (front : List KeyEntry) × (entry : KeyEntry) × (take (suc limit) (next ∷ rest)
        ≡ front ++ entry ∷ [])
      × (last (take (suc limit) (next ∷ rest)) ≡ some entry)
unfolding last
take-last zero next rest = ([], next, refl, refl)
take-last (suc limit) next [] = ([], next, refl, refl)
take-last (suc limit) next (other ∷ rest) =
    let (front, entry, is_front, is_last) = take-last limit other rest in
    (next ∷ front, entry, ap (λ xs. next ∷ xs) is_front, is_last)
