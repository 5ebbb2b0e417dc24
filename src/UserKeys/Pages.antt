-- ===== src/UserKeys/Pages.antt =====
-- Pages of key records
-- (apps/server/src/features/user/infrastructure/userKeys/userKeyRecordSet.ts and UserKeyRepository.ts).
-- Ids are compared by code points, which agrees with JavaScript's order of the characters below U+D800.
use Prim.Native.Char.{code}
use Prim.Native.String.{String}
use purrivacy_app.Prelude.{
  ℕ, suc, ◌+◌, Bool, true, false, ◌||◌, ◌&&◌, Option, none, some, List, [], ◌∷◌, length, take, drop,
  ltb, leb, ◌==◌, if◌then◌else◌,
}
use purrivacy_app.Prelude.Dict.{Dict}
use purrivacy_app.Server.Errors.{bad_request, Result, ok, err, ◌>>=◌}
use purrivacy_app.UserKeys.Payload.{EncryptedPayload}
use purrivacy_app.UserKeys.RecordSet.{Item, assert_user_key_record_id, number_or_zero}
use purrivacy_app.UserKeys.Repository.{Stored, KeyRecord}
use purrivacy_app.UserKeys.Lists.{read_from_db}
use purrivacy_app.UserKeys.Cursor.{Position, decode_cursor, encode_cursor}

-- `UserEncryptedKeyRecordEntry`
pub record KeyEntry : Type 0 where
  pub record_id : String
  pub key : EncryptedPayload
  pub updated_at : Option ℕ

-- `toUserEncryptedKeyRecordEntries`
unfoldable pub to_entries : Dict Item → List KeyEntry
to_entries [] = []
to_entries ((id, item) ∷ items) =
    record { record_id = id; key = item.payload; updated_at = item.updated_at } ∷ to_entries items

-- `<` between texts
unfoldable pub text_lt : String → String → Bool
text_lt s String.[] = false
text_lt String.[] (String.◌∷◌ d t) = true
text_lt (String.◌∷◌ c s) (String.◌∷◌ d t) = ltb (code c) (code d) || code c == code d && text_lt s t

-- The first position's time is less, or the times are equal and its id is less.
unfoldable pub position_lt : Position → Position → Bool
unfolding text_lt
position_lt (a, i) (b, j) = ltb a b || a == b && text_lt i j

unfoldable pub position : KeyEntry → Position
unfolding number_or_zero
position entry = (number_or_zero entry.updated_at, entry.record_id)

unfoldable pub is_since : ℕ → Option ℕ → Bool
is_since since none = true
is_since since (some time) = leb since time

-- `filter`
unfoldable pub filter_since : ℕ → List KeyEntry → List KeyEntry
unfolding is_since
filter_since since [] = []
filter_since since (entry ∷ entries) =
    let rest = filter_since since entries in
    if is_since since entry.updated_at then entry ∷ rest else rest

unfoldable pub place : KeyEntry → List KeyEntry → List KeyEntry
unfolding position position_lt
place entry [] = entry ∷ []
place entry (other ∷ entries) =
    let rest = place entry entries in
    if position_lt (position other) (position entry) then other ∷ rest else entry ∷ other ∷ entries

-- `sort`, which is stable
unfoldable pub sort : List KeyEntry → List KeyEntry
unfolding place
sort [] = []
sort (entry ∷ entries) = place entry (sort entries)

unfoldable pub next_index : Option ℕ → Option ℕ
next_index none = none
next_index (some n) = some (suc n)

-- `findIndex`
unfoldable pub find_boundary : Position → List KeyEntry → Option ℕ
unfolding position position_lt next_index
find_boundary cursor [] = none
find_boundary cursor (entry ∷ entries) =
    let rest = find_boundary cursor entries in
    if position_lt cursor (position entry) then some 0 else next_index rest

-- The index of the first record behind a cursor's position
unfoldable pub start_behind : Option Position → List KeyEntry → Result ℕ
unfolding assert_user_key_record_id find_boundary number_or_zero
start_behind none filtered = err bad_request
start_behind (some decoded) filtered = assert_user_key_record_id decoded.1 >>= λ valid.
    ok (number_or_zero (find_boundary decoded filtered))

-- The index that pagination starts from
unfoldable pub start_index : Option String → List KeyEntry → Result ℕ
unfolding decode_cursor start_behind
start_index none filtered = ok 0
start_index (some cursor) filtered = start_behind (decode_cursor cursor) filtered

unfoldable pub last : List KeyEntry → Option KeyEntry
last [] = none
last (entry ∷ []) = some entry
last (entry ∷ other ∷ entries) = last (other ∷ entries)

pub record Page : Type 0 where
  pub records : List KeyEntry
  pub next_cursor : Option String

-- The cursor behind the last record, if there is more
unfoldable pub cursor_behind : Bool → Option KeyEntry → Option String
unfolding encode_cursor position
cursor_behind has_more none = none
cursor_behind has_more (some entry) =
    if has_more then some (encode_cursor (position entry)) else none

-- The page from an index
unfoldable pub page_from : ℕ → ℕ → List KeyEntry → Page
unfolding cursor_behind last
page_from limit start filtered =
    let page = take limit (drop start filtered) in
    record {
      records = page;
      next_cursor = cursor_behind (ltb (start + length page) (length filtered)) (last page);
    }

-- `paginateUserEncryptedKeyRecords`
unfoldable pub paginate : List KeyEntry → ℕ → Option String → Option ℕ → Result Page
unfolding number_or_zero filter_since sort start_index page_from
paginate entries limit cursor since =
    let filtered = sort (filter_since (number_or_zero since) entries) in
    start_index cursor filtered >>= λ start. ok (page_from limit start filtered)

abbrev pub default_key_records_page_size : ℕ
default_key_records_page_size = 200

-- A page that is sent: its records and `nextCursor`
abbrev pub KeyPage : Type 0
KeyPage = List KeyRecord × Option String

unfoldable pub size_or_default : Option ℕ → ℕ
size_or_default none = default_key_records_page_size
size_or_default (some limit) = limit

-- `records.map(({ recordId, key }) => ({ recordId, key }))`
unfoldable pub to_key_records : List KeyEntry → List KeyRecord
to_key_records [] = []
to_key_records (entry ∷ entries) = (entry.record_id, entry.key) ∷ to_key_records entries

-- `readUserEncryptedKeyRecordSet`
unfoldable pub read_key_page :
    ℕ → Option ℕ → Option String → Option ℕ → Stored → Result KeyPage × Stored
unfolding read_from_db to_entries paginate size_or_default to_key_records
read_key_page now limit cursor since current =
    let (value, after) = read_from_db now current in
    (
      value >>= λ set.
          paginate (to_entries set.items) (size_or_default limit) cursor since >>= λ page.
          ok (to_key_records page.records, page.next_cursor),
      after,
    )
