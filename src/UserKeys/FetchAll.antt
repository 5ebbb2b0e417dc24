-- ===== src/UserKeys/FetchAll.antt =====
-- The mobile app's loop over pages of key records (apps/mobile/src/api/user/userApi.ts). The request
-- for a page is a parameter: a function from a cursor to the records and the next cursor, or an error.
use purrivacy_app.Prelude.{
  ℕ, zero, suc, ◌-◌, String, Bool, false, ◌||◌, Option, none, some, List, [], ◌∷◌, ◌++◌, length,
  ◌==◌, if◌then◌else◌, same_text,
}
use purrivacy_app.Server.Errors.{Result, ok, ◌>>=◌}

abbrev pub max_pages : ℕ
max_pages = 100

-- `seenCursors.has(cursor)`
unfoldable pub has_seen : String → List String → Bool
has_seen cursor [] = false
has_seen cursor (seen ∷ cursors) = same_text seen cursor || has_seen cursor cursors

module _ {K : Type 0} (get : Option String → Result (List K × Option String)) where
  -- The rounds of the loop, where `left` more may follow this one. `seen` are the cursors so far and
  -- `keys` the records.
  unfoldable pub fetch_rounds : (left : ℕ) → Option String → List String → List K → Result (List K)
  unfolding has_seen
  fetch_rounds zero cursor seen keys = get cursor >>= λ page. ok (keys ++ page.0)
  fetch_rounds (suc left) cursor seen keys = get cursor >>= λ page. elim page.1 [
    | none ↦ ok (keys ++ page.0)
    | some next ↦
        let rest = fetch_rounds left (some next) (next ∷ seen) (keys ++ page.0) in
        if has_seen next seen || length page.0 == 0 then ok (keys ++ page.0) else rest
  ]

  -- `fetchAllKeyRecords`
  unfoldable pub fetch_all_key_records : Result (List K)
  unfolding fetch_rounds
  fetch_all_key_records = fetch_rounds (max_pages - 1) none [] []
