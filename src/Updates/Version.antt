-- ===== src/Updates/Version.antt =====
-- Versions of the app (apps/mobile/src/features/updates/services/updateVersion.ts). The parts of a
-- version are numbers that JavaScript holds exactly.
use Prim.Native.Char.{code}
use Prim.Native.String.{String}
use purrivacy_app.Prelude.{
  ℕ, not, ◌||◌, Option, none, some, List, [], ◌∷◌, ltb, ◌==◌, if◌then◌else◌, same_text,
}
use purrivacy_app.Server.Text.{trim, split_dots, all_chars, is_empty}
use purrivacy_app.UserKeys.Cursor.{number_from, is_decimal}
use purrivacy_app.Updates.Text.{before}

-- `replace(/^v/i, '')`
unfoldable pub without_v : String → String
without_v String.[] = String.[]
without_v (String.◌∷◌ c s) = if code c == b'v' || code c == b'V' then s else String.◌∷◌ c s

-- `normalizeVersion`
unfoldable pub normalize_version : String → String
unfolding without_v before
normalize_version value = before b'+' (without_v (trim value))

unfoldable pub add_part : String → Option (List ℕ) → Option (List ℕ)
unfolding number_from is_decimal
add_part part none = none
add_part part (some parts) =
    if is_empty part || not (all_chars is_decimal part)
    then none
    else some (number_from 0 part ∷ parts)

-- The numbers of the parts, if all of them are digits
unfoldable pub numbers_of : List String → Option (List ℕ)
unfolding add_part
numbers_of [] = some []
numbers_of (part ∷ parts) = add_part part (numbers_of parts)

-- `parseVersionParts`
unfoldable pub parse_version_parts : String → Option (List ℕ)
unfolding normalize_version before numbers_of
parse_version_parts value = numbers_of (split_dots (before b'-' (normalize_version value)))

-- The results -1, 0 and 1
pub data Order : Type 0 where
  less same greater : Order

-- One round of the loop, and what the later rounds give
unfoldable pub by_part : ℕ → ℕ → Order → Order
by_part left right rest = if ltb right left then greater else if ltb left right then less else rest

-- The loop of `compareVersions`; a missing part is 0.
unfoldable pub compare_parts : List ℕ → List ℕ → Order
unfolding by_part
compare_parts [] [] = same
compare_parts [] (r ∷ rs) = by_part 0 r (compare_parts [] rs)
compare_parts (l ∷ ls) [] = by_part l 0 (compare_parts ls [])
compare_parts (l ∷ ls) (r ∷ rs) = by_part l r (compare_parts ls rs)

-- Versions that are not both numeric are the same or the first is greater.
unfoldable pub compare_parsed : Option (List ℕ) → Option (List ℕ) → String → String → Order
unfolding compare_parts normalize_version
compare_parsed (some ls) (some rs) a b = compare_parts ls rs
compare_parsed none rs a b =
    if same_text (normalize_version a) (normalize_version b) then same else greater
compare_parsed (some ls) none a b =
    if same_text (normalize_version a) (normalize_version b) then same else greater

-- `compareVersions`
unfoldable pub compare_versions : String → String → Order
unfolding parse_version_parts compare_parsed
compare_versions a b = compare_parsed (parse_version_parts a) (parse_version_parts b) a b
