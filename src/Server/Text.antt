-- ===== src/Server/Text.antt =====
-- JavaScript's operations on texts that the server uses: `length`, `trim`, `split('.')` and tests by
-- character classes.
use Prim.Native.Char.{Char, code}
use Prim.Native.String.{String}
use purrivacy_app.Prelude.{
  ℕ, ◌+◌, Bool, true, false, ◌&&◌, ◌||◌, List, [], ◌∷◌, leb, ◌==◌, if◌then◌else◌,
}

-- `length`: UTF-16 code units
unfoldable pub text_length : String → ℕ
text_length String.[] = 0
text_length (String.◌∷◌ c s) = (if leb 65536 (code c) then 2 else 1) + text_length s

abbrev pub between : ℕ → ℕ → ℕ → Bool
between lo hi n = leb lo n && leb n hi

-- The characters that `trim` takes away.
unfoldable pub is_space : ℕ → Bool
is_space n =
    between 9 13 n
    || n == 32
    || n == 160
    || n == 5760
    || between 8192 8202 n
    || n == 8232
    || n == 8233
    || n == 8239
    || n == 8287
    || n == 12288
    || n == 65279

unfoldable pub is_empty : String → Bool
is_empty String.[] = true
is_empty (String.◌∷◌ c s) = false

unfoldable pub trim_start : String → String
unfolding is_space
trim_start String.[] = String.[]
trim_start (String.◌∷◌ c s) =
    let rest = trim_start s in if is_space (code c) then rest else String.◌∷◌ c s

unfoldable pub trim_end : String → String
unfolding is_space is_empty
trim_end String.[] = String.[]
trim_end (String.◌∷◌ c s) =
    let rest = trim_end s in
    if is_empty rest && is_space (code c) then String.[] else String.◌∷◌ c rest

-- `trim`
unfoldable pub trim : String → String
unfolding trim_start trim_end
trim s = trim_end (trim_start s)

-- Every character passes the test: `/^[...]*$/`.
unfoldable pub all_chars : (ℕ → Bool) → String → Bool
all_chars p String.[] = true
all_chars p (String.◌∷◌ c s) = p (code c) && all_chars p s

-- `[0-9a-f]` with the flag `i`
unfoldable pub is_hex : ℕ → Bool
is_hex n = between b'0' b'9' n || between b'a' b'f' n || between b'A' b'F' n

-- `[A-Za-z0-9_-]`
unfoldable pub is_base64url : ℕ → Bool
is_base64url n =
    between b'A' b'Z' n || between b'a' b'z' n || between b'0' b'9' n || n == b'_' || n == b'-'

prepend : Char → List String → List String
prepend c [] = String.◌∷◌ c String.[] ∷ []
prepend c (s ∷ parts) = String.◌∷◌ c s ∷ parts

-- `split('.')`
unfoldable pub split_dots : String → List String
unfolding prepend
split_dots String.[] = String.[] ∷ []
split_dots (String.◌∷◌ c s) =
    let rest = split_dots s in if code c == b'.' then String.[] ∷ rest else prepend c rest
