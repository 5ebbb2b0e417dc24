-- ===== src/UserKeys/Cursor.antt =====
-- Cursors of pages of key records
-- (apps/server/src/features/user/infrastructure/userKeys/userKeyRecordSet.ts). A time is a natural
-- number below 2^53, as `Date.now()` gives it, which JavaScript prints and parses in decimal digits.
use Prim.Native.Char.{Char, code}
use Prim.Native.String.{String, ◌++◌}
use purrivacy_app.Prelude.{
  ℕ, zero, suc, ◌+◌, ◌-◌, ◌*◌, ◌/◌, ◌%◌, ◌<◌, ◌≡◌, refl, Bool, true, false, not, ◌||◌, Option, none,
  some, arith, ltb, ◌==◌, if◌then◌else◌, if_elim,
}
use purrivacy_app.Server.Append.{append_empty, append_cons, append_one}
use purrivacy_app.Server.Text.{all_chars, is_empty, between}

digit : ℕ → Char
digit n =
    if n == 0
    then "0"
    else if n == 1
    then "1"
    else if n == 2
    then "2"
    else if n == 3
    then "3"
    else if n == 4
    then "4"
    else if n == 5
    then "5"
    else if n == 6
    then "6"
    else if n == 7
    then "7"
    else if n == 8
    then "8"
    else "9"

-- The digits of `n` before `out`; each round divides `n` by ten.
unfoldable pub to_digits : (fuel : ℕ) → ℕ → String → String
unfolding digit
to_digits zero n out = out
to_digits (suc fuel) n out =
    let rest = to_digits fuel (n / 10) (String.◌∷◌ (digit (n % 10)) out) in
    if ltb n 10 then String.◌∷◌ (digit n) out else rest

-- `${n}`
unfoldable pub print_number : ℕ → String
unfolding to_digits
print_number n = to_digits (suc n) n String.[]

-- The number whose digits are those of `n` and then those of the text
unfoldable pub number_from : ℕ → String → ℕ
number_from n String.[] = n
number_from n (String.◌∷◌ c s) = number_from (n * 10 + (code c - b'0')) s

unfoldable pub is_decimal : ℕ → Bool
is_decimal n = between b'0' b'9' n

-- A cursor's text, cut at its first colon
pub data Cut : Type 0 where
  no_colon : Cut
  cut : String → String → Cut

unfoldable pub extend : Char → Cut → Cut
extend c no_colon = no_colon
extend c (cut before after) = cut (String.◌∷◌ c before) after

-- `indexOf(':')` and the two `slice`s
unfoldable pub cut_at_colon : String → Cut
unfolding extend
cut_at_colon String.[] = no_colon
cut_at_colon (String.◌∷◌ c s) =
    let rest = cut_at_colon s in if code c == b':' then cut String.[] s else extend c rest

-- The time and the record's id
abbrev pub Position : Type 0
Position = ℕ × String

unfoldable pub decode_cut : Cut → Option Position
unfolding is_decimal number_from
decode_cut no_colon = none
decode_cut (cut raw id) =
    if is_empty raw || not (all_chars is_decimal raw) || is_empty id
    then none
    else some (number_from 0 raw, id)

-- `decodeKeyRecordCursor`
unfoldable pub decode_cursor : String → Option Position
unfolding cut_at_colon decode_cut
decode_cursor cursor = decode_cut (cut_at_colon cursor)

-- `encodeKeyRecordCursor`
unfoldable pub encode_cursor : Position → String
unfolding print_number
encode_cursor (time, id) = print_number time ++ ":" ++ id

code-if :
    (n k : ℕ) (c d : Char)
    → code c ≡ b'0' + k
    → ((n == k) ≡ false → code d ≡ b'0' + n)
    → code (if n == k then c else d) ≡ b'0' + n
code-if n k c d is_k otherwise =
    if_elim (λ e. code e ≡ b'0' + n) (n == k) c d (λ same. ground (arith, same, is_k)) otherwise

code-digit : (n : ℕ) → n < 10 → code (digit n) ≡ b'0' + n
unfolding digit
code-digit n h = code-if n 0 _ _ refl λ h0. code-if n 1 _ _ refl λ h1. code-if n 2 _ _ refl λ h2.
    code-if n 3 _ _ refl λ h3. code-if n 4 _ _ refl λ h4. code-if n 5 _ _ refl λ h5.
      code-if n 6 _ _ refl λ h6. code-if n 7 _ _ refl λ h7. code-if n 8 _ _ refl λ h8. ground arith

pub number_from-to_digits :
    (fuel n : ℕ) (out : String)
    → n < fuel
    → number_from 0 (to_digits fuel n out) ≡ number_from n out
unfolding to_digits number_from
number_from-to_digits zero n out h = absurd (omega arith)
number_from-to_digits (suc fuel) n out h = ground (
  arith,
  code-digit n,
  code-digit (n % 10),
  number_from-to_digits fuel (n / 10) (String.◌∷◌ (digit (n % 10)) out),
)

pub to_digits-are_digits :
    (fuel n : ℕ) (out : String)
    → all_chars is_decimal out ≡ true
    → all_chars is_decimal (to_digits fuel n out) ≡ true
unfolding to_digits all_chars is_decimal
to_digits-are_digits zero n out h = h
to_digits-are_digits (suc fuel) n out h = ground (
  arith,
  code-digit n,
  code-digit (n % 10),
  to_digits-are_digits fuel (n / 10) (String.◌∷◌ (digit (n % 10)) out),
)

pub to_digits-not_empty :
    (fuel n : ℕ) (out : String) → n < fuel → is_empty (to_digits fuel n out) ≡ false
unfolding to_digits is_empty
to_digits-not_empty zero n out h = absurd (omega arith)
to_digits-not_empty (suc fuel) n out h =
    ground (arith, to_digits-not_empty fuel (n / 10) (String.◌∷◌ (digit (n % 10)) out))

cut_digits :
    (digits id : String)
    → all_chars is_decimal digits ≡ true
    → cut_at_colon (digits ++ ":" ++ id) ≡ cut digits id
unfolding cut_at_colon extend all_chars is_decimal
cut_digits String.[] id h = rw (append_empty (":" ++ id), append_one ":" id) refl
cut_digits (String.◌∷◌ c s) id h =
    rw (append_cons c s (":" ++ id)) (ground (arith, cut_digits s id))

-- A cursor is read back as the time and the id that it was made of, if the id is not empty.
pub decode-encode :
    (time : ℕ) (id : String)
    → is_empty id ≡ false
    → decode_cursor (encode_cursor (time, id)) ≡ some (time, id)
unfolding decode_cursor encode_cursor decode_cut print_number all_chars
decode-encode time id h =
    let are_digits = to_digits-are_digits (suc time) time String.[] refl in
    let not_empty = to_digits-not_empty (suc time) time String.[] (omega arith) in
    let value = number_from-to_digits (suc time) time String.[] (omega arith) in
    rw (cut_digits _ id are_digits, are_digits, not_empty, h, value) refl
