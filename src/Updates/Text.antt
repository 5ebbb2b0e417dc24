-- ===== src/Updates/Text.antt =====
-- JavaScript's operations on texts that updates use: `toLowerCase` on the letters of ASCII, `split` and
-- `endsWith`.
use Prim.Native.Char.{Char, code}
use Prim.Native.String.{String}
use purrivacy_app.Prelude.{ℕ, zero, suc, ◌-◌, Bool, true, false, ◌&&◌, ◌==◌, if◌then◌else◌}
use purrivacy_app.Server.Text.{between}

-- The character at an index of a text
unfoldable pub nth_char : ℕ → String → Char
nth_char n String.[] = "?"
nth_char zero (String.◌∷◌ c s) = c
nth_char (suc n) (String.◌∷◌ c s) = nth_char n s

unfoldable pub lower_char : Char → Char
unfolding nth_char
lower_char c =
    if between b'A' b'Z' (code c) then nth_char (code c - b'A') "abcdefghijklmnopqrstuvwxyz" else c

-- `toLowerCase`
unfoldable pub to_lower_case : String → String
unfolding lower_char
to_lower_case String.[] = String.[]
to_lower_case (String.◌∷◌ c s) = String.◌∷◌ (lower_char c) (to_lower_case s)

-- The text before the first of the characters: `split(...)[0]`
unfoldable pub before : ℕ → String → String
before n String.[] = String.[]
before n (String.◌∷◌ c s) =
    let rest = before n s in if code c == n then String.[] else String.◌∷◌ c rest

unfoldable pub same_chars : String → String → Bool
same_chars String.[] String.[] = true
same_chars (String.◌∷◌ c s) (String.◌∷◌ d t) = code c == code d && same_chars s t
same_chars String.[] (String.◌∷◌ d t) = false
same_chars (String.◌∷◌ c s) String.[] = false

-- `endsWith`
unfoldable pub ends_with : String → String → Bool
unfolding same_chars
ends_with String.[] end = same_chars String.[] end
ends_with (String.◌∷◌ c s) end =
    let rest = ends_with s end in if same_chars (String.◌∷◌ c s) end then true else rest
