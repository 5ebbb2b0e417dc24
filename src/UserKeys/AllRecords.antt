-- ===== src/UserKeys/AllRecords.antt =====
-- The app's loop over the server's pages (apps/mobile/src/api/user/userApi.ts and
-- apps/server/src/features/user/infrastructure/UserKeyRepository.ts).
use mathlib.Core.List.{Perm}
use mathlib.Core.List.Perm
use Prim.Native.String.{String}
use purrivacy_app.Prelude.{
  ℕ, zero, suc, ◌*◌, ◌≤◌, ◌≡◌, refl, ap, ◌∙◌, true, false, Option, none, some, List, [], ◌∷◌, arith,
  length, if_elim,
}
use purrivacy_app.Prelude.Dict.{Dict, has_key, IsKeyed}
use purrivacy_app.Server.Errors.{Result, ok, err, ◌>>=◌}
use purrivacy_app.Server.Json.{Json}
use purrivacy_app.Server.Text.{text_length, trim, trim_start, trim_end, is_empty}
use purrivacy_app.UserKeys.RecordSet.{
  Item, RecordSet, assert_user_key_record_id, sanitize_record_set, number_or_zero,
}
use purrivacy_app.UserKeys.Stored.{AllValid}
use purrivacy_app.UserKeys.Read.{sanitize_record_set_sound}
use purrivacy_app.UserKeys.Lists.{read_from_db}
use purrivacy_app.UserKeys.Pages.{
  KeyEntry, Page, KeyPage, to_entries, position_lt, position, is_since, filter_since, place, sort,
  start_index, page_from, paginate, to_key_records, size_or_default, read_key_page,
}
use purrivacy_app.UserKeys.Order.{
  NotAmong, IsDistinct, Ascending, sort-Ascending, filter_since-IsDistinct,
}
use purrivacy_app.UserKeys.Boundary.{AllIds}
use purrivacy_app.UserKeys.FetchAll.{max_pages, has_seen, fetch_all_key_records}
use purrivacy_app.UserKeys.Walk.{answer, round_last, Unseen}
use purrivacy_app.UserKeys.Complete.{walk}

to_entries-NotAmong :
    (id : String) (d : Dict Item) → has_key id d ≡ false → NotAmong id (to_entries d)
unfolding to_entries
to_entries-NotAmong id [] h = tt
to_entries-NotAmong id ((j, item) ∷ d) h = ground (arith, to_entries-NotAmong id d)

to_entries-IsDistinct : (d : Dict Item) → IsKeyed d → IsDistinct (to_entries d)
unfolding to_entries
to_entries-IsDistinct [] keyed = tt
to_entries-IsDistinct ((j, item) ∷ d) keyed =
    (to_entries-NotAmong j d keyed.0, to_entries-IsDistinct d keyed.1)

-- A valid id is not empty.
id_not_empty : (id : String) → assert_user_key_record_id id ≡ ok true → is_empty id ≡ false
unfolding assert_user_key_record_id is_empty trim trim_start trim_end text_length
id_not_empty String.[] h = cc
id_not_empty (String.◌∷◌ c id) h = refl

to_entries-AllIds : (d : Dict Item) → AllValid d → AllIds (to_entries d)
unfolding to_entries
to_entries-AllIds [] valid = tt
to_entries-AllIds ((id, item) ∷ d) valid =
    (valid.0.0, id_not_empty id valid.0.0, to_entries-AllIds d valid.2)

filter_since-AllIds :
    (since : ℕ) (entries : List KeyEntry) → AllIds entries → AllIds (filter_since since entries)
unfolding filter_since
filter_since-AllIds since [] valid = tt
filter_since-AllIds since (entry ∷ entries) valid =
    if_elim AllIds (is_since since entry.updated_at) _ _
      (λ kept. (valid.0, valid.1, filter_since-AllIds since entries valid.2))
      (λ left. filter_since-AllIds since entries valid.2)

place-AllIds :
    (entry : KeyEntry) (entries : List KeyEntry)
    → AllIds (entry ∷ entries)
    → AllIds (place entry entries)
unfolding place
place-AllIds entry [] valid = valid
place-AllIds entry (other ∷ entries) valid =
    if_elim AllIds (position_lt (position other) (position entry)) _ _
      (λ less. (valid.2.0, valid.2.1, place-AllIds entry entries (valid.0, valid.1, valid.2.2)))
      (λ greater. valid)

sort-AllIds : (entries : List KeyEntry) → AllIds entries → AllIds (sort entries)
unfolding sort
sort-AllIds [] valid = tt
sort-AllIds (entry ∷ entries) valid =
    place-AllIds entry (sort entries) (valid.0, valid.1, sort-AllIds entries valid.2)

place-Perm :
    (entry : KeyEntry) (entries : List KeyEntry) → Perm (place entry entries) (entry ∷ entries)
unfolding place
place-Perm entry [] = Perm.refl (entry ∷ [])
place-Perm entry (other ∷ entries) =
    if_elim (λ xs. Perm xs (entry ∷ other ∷ entries))
      (position_lt (position other) (position entry)) _ _
      (λ less.
        Perm.trans (Perm.cons other (place-Perm entry entries)) (Perm.swap entry other entries))
      (λ greater. Perm.refl (entry ∷ other ∷ entries))

-- Sorting keeps the records.
sort-Perm : (entries : List KeyEntry) → Perm (sort entries) entries
unfolding sort
sort-Perm [] = Perm.refl []
sort-Perm (entry ∷ entries) =
    Perm.trans (place-Perm entry (sort entries)) (Perm.cons entry (sort-Perm entries))

length-place :
    (entry : KeyEntry) (entries : List KeyEntry)
    → length (place entry entries) ≡ suc (length entries)
unfolding place
length-place entry [] = refl
length-place entry (other ∷ entries) =
    if_elim (λ (xs : List KeyEntry). length xs ≡ suc (suc (length entries)))
      (position_lt (position other) (position entry)) _ _
      (λ less. ap suc (length-place entry entries)) (λ greater. refl)

length-sort : (entries : List KeyEntry) → length (sort entries) ≡ length entries
unfolding sort
length-sort [] = refl
length-sort (entry ∷ entries) = length-place entry (sort entries) ∙ ap suc (length-sort entries)

-- The records of a `since` query, in their order
abbrev pub sorted_since : Option ℕ → Dict Item → List KeyEntry
sorted_since since items = sort (filter_since (number_or_zero since) (to_entries items))

-- A page as it is sent
abbrev sent : Page → KeyPage
sent page = (to_key_records page.records, page.next_cursor)

page_answer :
    (sorted : List KeyEntry) (limit : ℕ) (start : Result ℕ)
    → ((start >>= λ n. ok (page_from limit n sorted)) >>= λ page. ok (sent page))
      ≡ (start >>= λ n. ok (sent (page_from limit n sorted)))
page_answer sorted limit (ok n) = refl
page_answer sorted limit (err e) = refl

-- What the server answers to the request for a page
abbrev pub request_page : ℕ → ℕ → Option ℕ → Json → Option String → Result KeyPage
request_page now limit since value cursor =
    (read_key_page now (some limit) cursor since (some value)).0

request-answer :
    (now limit : ℕ) (since : Option ℕ) (value : Json) (s : RecordSet) (cursor : Option String)
    → sanitize_record_set (some value) ≡ ok s
    → request_page now limit since value cursor ≡ answer (sorted_since since s.items) limit cursor
unfolding read_key_page read_from_db paginate size_or_default
request-answer now limit since value s cursor read = rw read (
    page_answer (sorted_since since s.items) limit
      (start_index cursor (sorted_since since s.items)))

Unseen-nil : (entries : List KeyEntry) → Unseen [] entries
unfolding has_seen
Unseen-nil [] = tt
Unseen-nil (entry ∷ entries) = (refl, Unseen-nil entries)

fetch-answer :
    (l : ℕ) (sorted : List KeyEntry)
    → Ascending sorted
    → AllIds sorted
    → length sorted ≤ max_pages * suc l
    → fetch_all_key_records (answer sorted (suc l)) ≡ ok (to_key_records sorted)
unfolding fetch_all_key_records start_index page_from to_key_records
fetch-answer l [] ascending valid fits = round_last (answer [] (suc l)) 99 none [] [] [] refl
fetch-answer l (next ∷ rest) ascending valid fits =
    walk l 99 (next ∷ rest) none [] next rest [] [] refl refl ascending valid
      (Unseen-nil (next ∷ rest)) fits

-- While the stored set can be read and stays as it is, and the records of a `since` query fill at
-- most a hundred pages of a positive size, following the cursors returns each of these records
-- once, ordered by time and id.
pub fetch_all_is_complete :
    (now limit : ℕ) (since : Option ℕ) (value : Json) (s : RecordSet)
    → sanitize_record_set (some value) ≡ ok s
    → 1 ≤ limit
    → length (filter_since (number_or_zero since) (to_entries s.items)) ≤ max_pages * limit
    → (fetch_all_key_records (request_page now limit since value)
        ≡ ok (to_key_records (sorted_since since s.items)))
      × Ascending (sorted_since since s.items)
      × Perm (sorted_since since s.items) (filter_since (number_or_zero since) (to_entries s.items))
fetch_all_is_complete now zero since value s read positive fits = absurd (omega (arith, positive))
fetch_all_is_complete now (suc l) since value s read positive fits =
    let filtered = filter_since (number_or_zero since) (to_entries s.items) in
    let (sound, stable) = sanitize_record_set_sound (some value) s read in
    let ascending = sort-Ascending filtered (
      filter_since-IsDistinct (number_or_zero since) (to_entries s.items)
        (to_entries-IsDistinct s.items sound.1)) in
    let valid = sort-AllIds filtered (
      filter_since-AllIds (number_or_zero since) (to_entries s.items)
        (to_entries-AllIds s.items sound.0)) in
    let same : request_page now (suc l) since value ≡ answer (sorted_since since s.items) (suc l) =
      λ i cursor. request-answer now (suc l) since value s cursor read i in
    (
      ap (λ get. fetch_all_key_records get) same
          ∙ fetch-answer l (sorted_since since s.items) ascending valid
              (omega (arith, length-sort filtered, fits)),
      ascending,
      sort-Perm filtered,
    )
