-- ===== src/Responses/Queries.antt =====
-- Endpoints with a query (apps/mobile/src/api/request/responseSchema.ts and
-- apps/mobile/src/api/user/userApi.ts).
use Prim.Native.String.{String, ◌++◌}
use purrivacy_app.Prelude.{
  ℕ, ◌≡◌, refl, sym, ap, ◌∙◌, Bool, true, false, not, Option, none, ◌==◌, same_text, same_text_iff,
  Bool-cases, inl, inr, arith,
}
use purrivacy_app.Server.Append.{append_empty, append_cons}
use purrivacy_app.Server.Json.{Json}
use purrivacy_app.Server.Text.{all_chars}
use purrivacy_app.Responses.Registry.{
  exact_contract, dynamic_contract, first_of, contract_of, unchanged, valid, validate_with,
  validate_response,
}
use purrivacy_app.Responses.Process.{cursor_parameter, since_parameter, key_records_endpoint}
use purrivacy_app.UserKeys.Cursor.{print_number}

-- The text has no question mark.
abbrev has_no_query : String → Bool
has_no_query = all_chars (λ n. not (n == b'?'))

query_kept : (s t : String) → has_no_query t ≡ false → has_no_query (s ++ t) ≡ false
unfolding all_chars
query_kept String.[] t h = rw (append_empty t) h
query_kept (String.◌∷◌ c s) t h = rw (append_cons c s t) (ground (arith, query_kept s t h))

query_first : (s t : String) → has_no_query s ≡ false → has_no_query (s ++ t) ≡ false
unfolding all_chars
query_first String.[] t h = absurd (cc h)
query_first (String.◌∷◌ c s) t h = rw (append_cons c s t) (ground (arith, query_first s t))

differs :
    (key known : String)
    → has_no_query key ≡ false
    → has_no_query known ≡ true
    → same_text key known ≡ false
differs key known h k = elim (Bool-cases (same_text key known)) [
  | inl same ↦ absurd (cc (sym h ∙ ap has_no_query ((same_text_iff key known).0 same) ∙ k))
  | inr other ↦ other
]

exact_contract-none : (key : String) → has_no_query key ≡ false → exact_contract key ≡ none
unfolding exact_contract all_chars
exact_contract-none key h =
    rw
      (
        differs key "POST /auth/recovery/challenge" h refl,
        differs key "POST /auth/recovery/token" h refl,
        differs key "POST /mfa/setup" h refl,
        differs key "POST /auth/session/mfa-setup-nonce" h refl,
        differs key "POST /mfa/enable" h refl,
        differs key "POST /mfa/disable" h refl,
        differs key "POST /mfa/session/trust" h refl,
        differs key "POST /mfa/recovery-codes/regenerate" h refl,
        differs key "GET /mfa/recovery-codes/remaining" h refl,
        differs key "POST /auth/session" h refl,
        differs key "POST /auth/session/refresh" h refl,
        differs key "POST /user" h refl,
        differs key "GET /user" h refl,
        differs key "GET /user/key-records" h refl,
        differs key "POST /user/key-records" h refl,
      )
      refl

contract_of-query :
    (endpoint : String)
    → has_no_query ("GET" ++ " " ++ endpoint) ≡ false
    → contract_of endpoint "GET" ≡ none
unfolding contract_of dynamic_contract first_of same_text
contract_of-query endpoint h = rw (exact_contract-none ("GET" ++ " " ++ endpoint) h) refl

-- The answer to a request for a page of key records with a limit, as the app requests all its pages,
-- is returned without any check: its endpoint has a query, and no parser is registered for it.
pub page_requests_are_not_validated :
    (encode : String → String) (limit : ℕ) (cursor : Option String) (since : Option ℕ) (v : Json)
    → validate_response (key_records_endpoint encode limit cursor since) "GET" v
      ≡ valid (unchanged v)
unfolding validate_response validate_with key_records_endpoint all_chars
page_requests_are_not_validated encode limit cursor since v =
    let endpoint = key_records_endpoint encode limit cursor since in
    let rest = print_number limit ++ (cursor_parameter encode cursor ++ since_parameter since) in
    let limited : has_no_query endpoint ≡ false =
      query_first "/user/key-records?limit=" rest refl in
    let asked : has_no_query ("GET" ++ " " ++ endpoint) ≡ false =
      query_kept "GET" (" " ++ endpoint) (query_kept " " endpoint limited) in
    ap (λ c. validate_with c endpoint "GET" v) (contract_of-query endpoint asked)
