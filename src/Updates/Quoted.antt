-- ===== src/Updates/Quoted.antt =====
-- Texts in JSON are read back (apps/mobile/src/features/updates/services/updateManifest.ts).
use Prim.Native.Char.{Char, code}
use Prim.Native.String.{String}
use text.Mathlib.TextEquality.{Char-path}
use purrivacy_app.Prelude.{
  ℕ, zero, suc, ◌+◌, ◌-◌, ◌*◌, ◌/◌, ◌%◌, ◌<◌, ◌≡◌, refl, sym, ap, ap₂, ◌∙◌, Option, none, some,
  List, [], ◌∷◌, arith, ltb, ◌==◌, if◌then◌else◌,
}
use purrivacy_app.Updates.Text.{nth_char}
use purrivacy_app.Updates.Canonical.{hex_digit, quote_char, quote_rest, quote}

-- What the reader of a text in JSON has seen last: nothing, a backslash, `\\u`, `\\u0`, `\\u00`, or that
-- and one digit more
data Seen : Type 0 where
  plain backslash unicode first_zero second_zero : Seen
  first_digit : ℕ → Seen

unfoldable hex_value : ℕ → ℕ
hex_value n = if ltb n 58 then n - 48 else n - 87

unfoldable escaped : ℕ → ℕ
escaped n =
    if n == b'b'
    then 8
    else if n == b't'
    then 9
    else if n == b'n'
    then 10
    else if n == b'f'
    then 12
    else if n == b'r'
    then 13
    else n

unfoldable with_code : ℕ → Option (List ℕ × String) → Option (List ℕ × String)
with_code n none = none
with_code n (some (ns, s)) = some (n ∷ ns, s)

-- The codes up to the closing quote, and what follows it
unfoldable read : Seen → String → Option (List ℕ × String)
unfolding hex_value escaped with_code
read seen String.[] = none
read plain (String.◌∷◌ c s) =
    let next = read plain s in
    let after = read backslash s in
    if code c == 34 then some ([], s) else if code c == 92 then after else with_code (code c) next
read backslash (String.◌∷◌ c s) =
    let next = read plain s in
    let after = read unicode s in
    if code c == b'u' then after else with_code (escaped (code c)) next
read unicode (String.◌∷◌ c s) = read first_zero s
read first_zero (String.◌∷◌ c s) = read second_zero s
read second_zero (String.◌∷◌ c s) = read (first_digit (hex_value (code c))) s
read (first_digit n) (String.◌∷◌ c s) = with_code (n * 16 + hex_value (code c)) (read plain s)

unfoldable codes : String → List ℕ
codes String.[] = []
codes (String.◌∷◌ c s) = code c ∷ codes s

codes_injective : (s t : String) → codes s ≡ codes t → s ≡ t
unfolding codes
codes_injective String.[] String.[] h = refl
codes_injective String.[] (String.◌∷◌ d t) h = absurd (cc h)
codes_injective (String.◌∷◌ c s) String.[] h = absurd (cc h)
codes_injective (String.◌∷◌ c s) (String.◌∷◌ d t) h =
    ap₂ (λ (e : Char) (u : String). String.◌∷◌ e u) (Char-path c d (cc h))
      (codes_injective s t (cc h))

hex_digit_value : (n : ℕ) → n < 16 → hex_value (code (hex_digit n)) ≡ n
unfolding hex_value hex_digit nth_char
hex_digit_value zero h = refl
hex_digit_value (suc zero) h = refl
hex_digit_value (suc (suc zero)) h = refl
hex_digit_value (suc (suc (suc zero))) h = refl
hex_digit_value (suc (suc (suc (suc zero)))) h = refl
hex_digit_value (suc (suc (suc (suc (suc zero))))) h = refl
hex_digit_value (suc (suc (suc (suc (suc (suc zero)))))) h = refl
hex_digit_value (suc (suc (suc (suc (suc (suc (suc zero))))))) h = refl
hex_digit_value (suc (suc (suc (suc (suc (suc (suc (suc zero)))))))) h = refl
hex_digit_value (suc (suc (suc (suc (suc (suc (suc (suc (suc zero))))))))) h = refl
hex_digit_value (suc (suc (suc (suc (suc (suc (suc (suc (suc (suc zero)))))))))) h = refl
hex_digit_value (suc (suc (suc (suc (suc (suc (suc (suc (suc (suc (suc zero))))))))))) h = refl
hex_digit_value (suc (suc (suc (suc (suc (suc (suc (suc (suc (suc (suc (suc zero)))))))))))) h =
    refl
hex_digit_value (suc (suc (suc (suc (suc (suc (suc (suc (suc (suc (suc (suc (suc zero)))))))))))))
      h =
    refl
hex_digit_value
      (suc (suc (suc (suc (suc (suc (suc (suc (suc (suc (suc (suc (suc (suc zero)))))))))))))) h =
    refl
hex_digit_value
      (suc (suc (suc (suc (suc (suc (suc (suc (suc (suc (suc (suc (suc (suc (suc zero)))))))))))))))
      h =
    refl
hex_digit_value
      (suc
        (suc (suc (suc (suc (suc (suc (suc (suc (suc (suc (suc (suc (suc (suc (suc n))))))))))))))))
      h =
    absurd (omega (arith, h))

-- A control character that is written by its code is read back.
read_control :
    (c : Char) (rest : String)
    → code c < 32
    → read backslash (
        String.◌∷◌ "u" (
          String.◌∷◌ "0" (
            String.◌∷◌ "0"
              (String.◌∷◌ (hex_digit (code c / 16)) (String.◌∷◌ (hex_digit (code c % 16)) rest)))))
      ≡ with_code (code c) (read plain rest)
unfolding read
read_control c rest h =
    ap (λ n. with_code n (read plain rest))
      (ap₂ (λ a b. a * 16 + b) (hex_digit_value (code c / 16) (omega (arith, h)))
          (hex_digit_value (code c % 16) (omega arith))
        ∙ omega arith)

read-quote_char :
    (c : Char) (rest : String)
    → read plain (quote_char c rest) ≡ with_code (code c) (read plain rest)
unfolding read quote_char escaped
read-quote_char c rest = ground (arith, read_control c rest)

read-quote_rest : (s rest : String) → read plain (quote_rest s rest) ≡ some (codes s, rest)
unfolding quote_rest codes read with_code
read-quote_rest String.[] rest = refl
read-quote_rest (String.◌∷◌ c s) rest =
    read-quote_char c (quote_rest s rest) ∙ ap (with_code (code c)) (read-quote_rest s rest)

-- Two texts in JSON that agree with what follows them are the same text.
pub quote_cancel :
    (s t rest other : String) → quote s rest ≡ quote t other → (s ≡ t) × (rest ≡ other)
unfolding quote
quote_cancel s t rest other h =
    let tails : quote_rest s rest ≡ quote_rest t other = cc h in
    let both : some (codes s, rest) ≡ some (codes t, other) =
      sym (read-quote_rest s rest) ∙ ap (read plain) tails ∙ read-quote_rest t other in
    (codes_injective s t (cc both), cc both)
