-- ===== src/UserKeys/Walk.antt =====
-- Following the cursors through all pages (apps/mobile/src/api/user/userApi.ts and
-- apps/server/src/features/user/infrastructure/userKeys/userKeyRecordSet.ts).
use mathlib.Core.Path.{subst}
use Prim.Native.String.{String}
use purrivacy_app.Prelude.{
  ℕ, zero, suc, ◌≡◌, refl, sym, ap, ◌∙◌, inl, inr, true, false, Option, none, some, List, [], ◌∷◌,
  ◌++◌, length, drop, ◌==◌, same_text, same_text_iff, Bool-cases,
}
use purrivacy_app.Server.Errors.{Result, ok, ◌>>=◌}
use purrivacy_app.Server.Text.{is_empty}
use purrivacy_app.UserKeys.RecordSet.{assert_user_key_record_id}
use purrivacy_app.UserKeys.Cursor.{Position, encode_cursor, decode_cursor, decode-encode}
use purrivacy_app.UserKeys.Pages.{
  KeyEntry, position_lt, position, start_index, page_from, to_key_records, KeyPage,
}
use purrivacy_app.UserKeys.Order.{position_lt_irrefl, AllAfter, Ascending}
use purrivacy_app.UserKeys.Boundary.{AllIds}
use purrivacy_app.UserKeys.FetchAll.{has_seen, fetch_rounds}

-- The server's answer, for sorted records
abbrev pub answer : List KeyEntry → ℕ → Option String → Result KeyPage
answer sorted limit cursor = start_index cursor sorted >>= λ start.
    let page = page_from limit start sorted in ok (to_key_records page.records, page.next_cursor)

module _ {K : Type 0} (get : Option String → Result (List K × Option String)) where
  pub round_last :
      (left : ℕ) (cursor : Option String) (seen : List String) (keys page : List K)
      → get cursor ≡ ok (page, none)
      → fetch_rounds get left cursor seen keys ≡ ok (keys ++ page)
  unfolding fetch_rounds
  round_last zero cursor seen keys page h = rw h refl
  round_last (suc left) cursor seen keys page h = rw h refl

  pub round_more :
      (left : ℕ) (cursor : Option String) (next : String) (seen : List String) (keys page : List K)
      → get cursor ≡ ok (page, some next)
      → has_seen next seen ≡ false
      → (length page == 0) ≡ false
      → fetch_rounds get (suc left) cursor seen keys
        ≡ fetch_rounds get left (some next) (next ∷ seen) (keys ++ page)
  unfolding fetch_rounds
  round_more left cursor next seen keys page h new some_page = rw (h, new, some_page) refl

-- No cursor of a record has been seen.
abbrev pub Unseen : List String → List KeyEntry → Type 0
Unseen seen [] = Unit {0}
Unseen seen (entry ∷ entries) =
    (has_seen (encode_cursor (position entry)) seen ≡ false) × Unseen seen entries

pub Unseen-drop :
    (n : ℕ) (seen : List String) (entries : List KeyEntry)
    → Unseen seen entries
    → Unseen seen (drop n entries)
Unseen-drop zero seen entries new = new
Unseen-drop (suc n) seen [] new = tt
Unseen-drop (suc n) seen (entry ∷ entries) new = Unseen-drop n seen entries new.1

pub Unseen-middle :
    (seen : List String) (front : List KeyEntry) (entry : KeyEntry) (rest : List KeyEntry)
    → Unseen seen (front ++ entry ∷ rest)
    → has_seen (encode_cursor (position entry)) seen ≡ false
Unseen-middle seen [] entry rest new = new.0
Unseen-middle seen (other ∷ front) entry rest new = Unseen-middle seen front entry rest new.1

pub Ascending-rest : (front rest : List KeyEntry) → Ascending (front ++ rest) → Ascending rest
Ascending-rest [] rest sorted = sorted
Ascending-rest (entry ∷ front) rest sorted = Ascending-rest front rest sorted.1

pub AllIds-middle :
    (front : List KeyEntry) (entry : KeyEntry) (rest : List KeyEntry)
    → AllIds (front ++ entry ∷ rest)
    → (assert_user_key_record_id entry.record_id ≡ ok true) × (is_empty entry.record_id ≡ false)
AllIds-middle [] entry rest valid = (valid.0, valid.1)
AllIds-middle (other ∷ front) entry rest valid = AllIds-middle front entry rest valid.2

-- Cursors of different positions differ.
cursors_differ :
    (p q : Position)
    → is_empty p.1 ≡ false
    → is_empty q.1 ≡ false
    → position_lt p q ≡ true
    → same_text (encode_cursor p) (encode_cursor q) ≡ false
cursors_differ p q hp hq less = elim (Bool-cases (same_text (encode_cursor p) (encode_cursor q))) [
  | inr differ ↦ differ
  | inl same ↦
      let texts = (same_text_iff (encode_cursor p) (encode_cursor q)).0 same in
      let both : some p ≡ some q =
        sym (decode-encode p.0 p.1 hp) ∙ ap decode_cursor texts ∙ decode-encode q.0 q.1 hq in
      let equal : p ≡ q = cc both in
      absurd (cc (subst (λ r. position_lt p r ≡ true) (sym equal) less, position_lt_irrefl p))
]

pub Unseen-later :
    (entry : KeyEntry) (seen : List String) (entries : List KeyEntry)
    → is_empty entry.record_id ≡ false
    → AllIds entries
    → AllAfter (position entry) entries
    → Unseen seen entries
    → Unseen (encode_cursor (position entry) ∷ seen) entries
unfolding has_seen position
Unseen-later entry seen [] h valid after new = tt
Unseen-later entry seen (next ∷ entries) h valid after new =
    let differ = cursors_differ (position entry) (position next) h valid.1 after.0 in
    (rw (differ, new.0) refl, Unseen-later entry seen entries h valid.2 after.1 new.1)
