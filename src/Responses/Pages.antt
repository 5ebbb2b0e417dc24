-- ===== src/Responses/Pages.antt =====
-- Pages of key records, from the server to the app (apps/mobile/src/api/request/responseSchema.ts,
-- apps/server/src/features/user/application/UserService.ts and
-- apps/server/src/features/user/infrastructure/userKeys/userKeyRecordSet.ts).
use Prim.Native.String.{String, ◌++◌}
use mathlib.Core.Path.{subst}
use purrivacy_app.Prelude.{
  ℕ, zero, suc, ◌+◌, ◌≡◌, refl, Bool, true, false, Option, none, some, List, [], ◌∷◌, length, take,
  drop, ltb, if_elim, arith, same_text,
}
use purrivacy_app.Prelude.Dict.{Dict, lookup}
use purrivacy_app.Server.Append.{append_cons}
use purrivacy_app.Server.Errors.{ok, bind_ok, ok_injective}
use purrivacy_app.Server.Json.{Json, elements}
use purrivacy_app.Server.Text.{is_empty}
use purrivacy_app.UserKeys.RecordSet.{Item, sanitize_record_set, number_or_zero}
use purrivacy_app.UserKeys.Cursor.{Position, print_number, encode_cursor, to_digits-not_empty}
use purrivacy_app.UserKeys.Stored.{AllValid}
use purrivacy_app.UserKeys.Read.{sanitize_record_set_sound}
use purrivacy_app.UserKeys.Repository.{KeyRecord}
use purrivacy_app.UserKeys.Lists.{read_from_db}
use purrivacy_app.UserKeys.Pages.{
  KeyEntry, KeyPage, Page, to_entries, is_since, filter_since, place, position, position_lt, sort,
  last, cursor_behind, page_from, start_index, to_key_records, size_or_default, paginate,
  read_key_page,
}
use purrivacy_app.Responses.Fields.{
  accepted, as_record, require_string, check_string, unless_missing, require_keys,
}
use purrivacy_app.Responses.Values.{parse_encrypted_key_record_value, parse_each, key_at}
use purrivacy_app.Responses.Parsers.{parse_user_key_records}
use purrivacy_app.Responses.Sent.{key_record_bodies, with_cursor, page_body}
use purrivacy_app.Responses.Records.{
  received_all, IsSendable, valid-IsSendable, parse-key_record_body,
}

abbrev IsSendableEntry : KeyEntry → Type 0
IsSendableEntry e = IsSendable (e.record_id, e.key)

abbrev AllSendable : List KeyEntry → Type 0
AllSendable [] = Unit
AllSendable (e ∷ es) = IsSendableEntry e × AllSendable es

abbrev AllSent : List KeyRecord → Type 0
AllSent [] = Unit
AllSent (r ∷ rs) = IsSendable r × AllSent rs

to_entries-AllSendable : (d : Dict Item) → AllValid d → AllSendable (to_entries d)
unfolding to_entries
to_entries-AllSendable [] h = h
to_entries-AllSendable ((id, item) ∷ d) (named, fits, rest) =
    (valid-IsSendable id item.payload named fits, to_entries-AllSendable d rest)

filter_since-AllSendable :
    (since : ℕ) (es : List KeyEntry) → AllSendable es → AllSendable (filter_since since es)
unfolding filter_since
filter_since-AllSendable since [] h = h
filter_since-AllSendable since (e ∷ es) (first, rest) =
    if_elim AllSendable (is_since since e.updated_at) (e ∷ filter_since since es)
      (filter_since since es) (λ b. (first, filter_since-AllSendable since es rest))
      (λ b. filter_since-AllSendable since es rest)

place-AllSendable :
    (e : KeyEntry) (es : List KeyEntry)
    → IsSendableEntry e
    → AllSendable es
    → AllSendable (place e es)
unfolding place
place-AllSendable e [] good h = (good, h)
place-AllSendable e (other ∷ es) good (first, rest) =
    if_elim AllSendable (position_lt (position other) (position e)) (other ∷ place e es)
      (e ∷ other ∷ es) (λ b. (first, place-AllSendable e es good rest)) (λ b. (good, (first, rest)))

sort-AllSendable : (es : List KeyEntry) → AllSendable es → AllSendable (sort es)
unfolding sort
sort-AllSendable [] h = h
sort-AllSendable (e ∷ es) (first, rest) =
    place-AllSendable e (sort es) first (sort-AllSendable es rest)

drop-AllSendable : (n : ℕ) (es : List KeyEntry) → AllSendable es → AllSendable (drop n es)
drop-AllSendable zero es h = h
drop-AllSendable (suc n) [] h = h
drop-AllSendable (suc n) (e ∷ es) (first, rest) = drop-AllSendable n es rest

take-AllSendable : (n : ℕ) (es : List KeyEntry) → AllSendable es → AllSendable (take n es)
take-AllSendable zero es h = tt
take-AllSendable (suc n) [] h = h
take-AllSendable (suc n) (e ∷ es) (first, rest) = (first, take-AllSendable n es rest)

to_key_records-AllSent : (es : List KeyEntry) → AllSendable es → AllSent (to_key_records es)
unfolding to_key_records
to_key_records-AllSent [] h = h
to_key_records-AllSent (e ∷ es) (first, rest) = (first, to_key_records-AllSent es rest)

parse_each-bodies :
    (index : ℕ) (rs : List KeyRecord)
    → AllSent rs
    → parse_each parse_encrypted_key_record_value index (elements (key_record_bodies rs))
      ≡ accepted (received_all rs)
unfolding parse_each key_record_bodies received_all
parse_each-bodies index [] h = refl
parse_each-bodies index (r ∷ rs) (first, rest) =
    rw (parse-key_record_body (key_at index) r first, parse_each-bodies (suc index) rs rest) refl

abbrev IsFilledOrNone : Option String → Type 0
IsFilledOrNone none = Unit
IsFilledOrNone (some s) = is_empty s ≡ false

first_filled : (s t : String) → is_empty s ≡ false → is_empty (s ++ t) ≡ false
unfolding is_empty
first_filled String.[] t h = absurd (cc h)
first_filled (String.◌∷◌ c s) t h = rw (append_cons c s t) refl

encode_cursor-filled : (p : Position) → is_empty (encode_cursor p) ≡ false
unfolding encode_cursor print_number
encode_cursor-filled (time, id) =
    first_filled (print_number time) (":" ++ id)
      (to_digits-not_empty (suc time) time String.[] (omega arith))

cursor_behind-filled : (more : Bool) (e : Option KeyEntry) → IsFilledOrNone (cursor_behind more e)
unfolding cursor_behind
cursor_behind-filled more none = tt
cursor_behind-filled true (some e) = encode_cursor-filled (position e)
cursor_behind-filled false (some e) = tt

parse-page_body :
    (rs : List KeyRecord) (cursor : Option String)
    → AllSent rs
    → IsFilledOrNone cursor
    → parse_user_key_records (page_body (rs, cursor))
      ≡ accepted (record { keys = received_all rs; next_cursor = cursor })
unfolding parse_user_key_records page_body with_cursor as_record require_keys unless_missing
    require_string check_string lookup same_text
parse-page_body rs none all h = rw (parse_each-bodies 0 rs all) refl
parse-page_body rs (some cursor) all h = rw (parse_each-bodies 0 rs all, h) refl

abbrev Passes : KeyPage → Type 0
Passes page =
    parse_user_key_records (page_body page)
    ≡ accepted (record { keys = received_all page.0; next_cursor = page.1 })

page_from-Passes :
    (limit start : ℕ) (es : List KeyEntry)
    → AllSendable es
    → Passes
        (to_key_records (page_from limit start es).records, (page_from limit start es).next_cursor)
unfolding page_from
page_from-Passes limit start es h =
    let shown = take limit (drop start es) in
    parse-page_body (to_key_records shown)
      (cursor_behind (ltb (start + length shown) (length es)) (last shown))
      (to_key_records-AllSent shown
        (take-AllSendable limit (drop start es) (drop-AllSendable start es h)))
      (cursor_behind-filled (ltb (start + length shown) (length es)) (last shown))

-- Every page that the server reads from a stored set passes the checks of the app's parser: the app
-- gets the page's records in their order, with their ids and payloads, and the page's cursor.
pub page_passes_validation :
    (now : ℕ) (limit : Option ℕ) (cursor : Option String) (since : Option ℕ) (value : Json)
    (page : KeyPage)
    → (read_key_page now limit cursor since (some value)).0 ≡ ok page
    → parse_user_key_records (page_body page)
      ≡ accepted (record { keys = received_all page.0; next_cursor = page.1 })
unfolding read_key_page read_from_db paginate
page_passes_validation now limit cursor since value page h =
    let (s, read, paged) = bind_ok (sanitize_record_set (some value)) _ page h in
    let (shown, found, done) =
      bind_ok (paginate (to_entries s.items) (size_or_default limit) cursor since) _ page paged in
    let es = sort (filter_since (number_or_zero since) (to_entries s.items)) in
    let (start, at, made) = bind_ok (start_index cursor es) _ shown found in
    let valid = (sanitize_record_set_sound (some value) s read).0.0 in
    let all : AllSendable es =
      sort-AllSendable (filter_since (number_or_zero since) (to_entries s.items)) (
        filter_since-AllSendable (number_or_zero since) (to_entries s.items)
          (to_entries-AllSendable s.items valid)) in
    subst Passes (ok_injective done) (
      subst (λ (g : Page). Passes (to_key_records g.records, g.next_cursor)) (ok_injective made)
        (page_from-Passes (size_or_default limit) start es all))
