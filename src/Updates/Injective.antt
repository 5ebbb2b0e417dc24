-- ===== src/Updates/Injective.antt =====
-- The signed bytes determine the payload
-- (apps/mobile/src/features/updates/services/updateManifest.ts).
use Prim.Native.Char.{Char, code}
use Prim.Native.String.{String, ◌++◌}
use purrivacy_app.Prelude.{
  ℕ, suc, ◌+◌, ◌-◌, ◌*◌, ◌≡◌, refl, sym, ap, ◌∙◌, true, false, arith, if◌then◌else◌,
}
use purrivacy_app.Server.Append.{append_empty, append_cons}
use purrivacy_app.Server.Text.{all_chars}
use purrivacy_app.UserKeys.Cursor.{
  print_number, number_from, is_decimal, number_from-to_digits, to_digits-are_digits,
}
use purrivacy_app.Updates.Canonical.{Payload, canonicalize}
use purrivacy_app.Updates.Quoted.{quote_cancel}

prefix_cancel : (p s t : String) → p ++ s ≡ p ++ t → s ≡ t
prefix_cancel String.[] s t h = sym (append_empty s) ∙ h ∙ append_empty t
prefix_cancel (String.◌∷◌ c p) s t h =
    let tails : p ++ s ≡ p ++ t = cc (sym (append_cons c p s) ∙ h ∙ append_cons c p t) in
    prefix_cancel p s t tails

-- The number that starts a text, and what follows its digits
unfoldable read_number : ℕ → String → ℕ × String
unfolding is_decimal
read_number n String.[] = (n, String.[])
read_number n (String.◌∷◌ c s) =
    let later = read_number (n * 10 + (code c - b'0')) s in
    if is_decimal (code c) then later else (n, String.◌∷◌ c s)

read_number-digits :
    (n : ℕ) (digits : String) (c : Char) (rest : String)
    → all_chars is_decimal digits ≡ true
    → is_decimal (code c) ≡ false
    → read_number n (digits ++ String.◌∷◌ c rest) ≡ (number_from n digits, String.◌∷◌ c rest)
unfolding read_number number_from all_chars
read_number-digits n String.[] c rest h e = rw (append_empty (String.◌∷◌ c rest), e) refl
read_number-digits n (String.◌∷◌ d s) c rest h e =
    rw (append_cons d s (String.◌∷◌ c rest))
      (ground (arith, h, read_number-digits (n * 10 + (code d - b'0')) s c rest, e))

number_read :
    (n : ℕ) (c : Char) (s : String)
    → is_decimal (code c) ≡ false
    → read_number 0 (print_number n ++ String.◌∷◌ c s) ≡ (n, String.◌∷◌ c s)
unfolding print_number number_from all_chars
number_read n c s e =
    read_number-digits 0 (print_number n) c s (to_digits-are_digits (suc n) n String.[] refl) e
    ∙ ap (λ k. (k, String.◌∷◌ c s)) (number_from-to_digits (suc n) n String.[] (omega arith))

number_cancel :
    (n m : ℕ) (c : Char) (s t : String)
    → is_decimal (code c) ≡ false
    → print_number n ++ String.◌∷◌ c s ≡ print_number m ++ String.◌∷◌ c t
    → (n ≡ m) × (s ≡ t)
unfolding print_number
number_cancel n m c s t e h =
    let both : (n, String.◌∷◌ c s) ≡ (m, String.◌∷◌ c t) =
      sym (number_read n c s e) ∙ ap (read_number 0) h ∙ number_read m c t e in
    (cc both, cc both)

number_field_cancel :
    (n m : ℕ) (name s t : String)
    → print_number n ++ (String.◌∷◌ "," name ++ s) ≡ print_number m ++ (String.◌∷◌ "," name ++ t)
    → (n ≡ m) × (s ≡ t)
unfolding is_decimal
number_field_cancel n m name s t h =
    let (same, rest) = number_cancel n m "," (name ++ s) (name ++ t) refl (
      ap (λ u. print_number n ++ u) (sym (append_cons "," name s))
      ∙ h
      ∙ ap (λ u. print_number m ++ u) (append_cons "," name t)) in
    (same, prefix_cancel name s t rest)

-- Two payloads with the same signed bytes are the same in every field: a valid signature fixes the
-- version, the tag, the name, the URL, the size and the digest of the file, and the date.
pub canonicalize_injective : (p q : Payload) → canonicalize p ≡ canonicalize q → p ≡ q
unfolding canonicalize
canonicalize_injective p q h =
    let a = prefix_cancel "{\"apkAssetName\":" _ _ h in
    let (asset, after_asset) = quote_cancel _ _ _ _ a in
    let b = prefix_cancel ",\"apkSha256\":" _ _ after_asset in
    let (sha, after_sha) = quote_cancel _ _ _ _ b in
    let c = prefix_cancel ",\"apkSizeBytes\":" _ _ after_sha in
    let (size, d) = number_field_cancel p.apk_size_bytes q.apk_size_bytes "\"apkUrl\":" _ _ c in
    let (url, after_url) = quote_cancel _ _ _ _ d in
    let e = prefix_cancel ",\"createdAt\":" _ _ after_url in
    let (created, after_created) = quote_cancel _ _ _ _ e in
    let f = prefix_cancel ",\"tagName\":" _ _ after_created in
    let (tag, after_tag) = quote_cancel _ _ _ _ f in
    let g = prefix_cancel ",\"version\":" _ _ after_tag in
    let (named, done) = quote_cancel _ _ _ _ g in
    λ i. record {
      version = named i;
      tag_name = tag i;
      apk_asset_name = asset i;
      apk_url = url i;
      apk_size_bytes = size i;
      apk_sha256 = sha i;
      created_at = created i;
    }
