-- ===== src/UserKeys/History.antt =====
-- Requests about a user's keys, one after the other
-- (apps/server/src/features/user/infrastructure/UserKeyRepository.ts).
use purrivacy_app.Prelude.{ℕ, ◌≤◌, String, Option, none, some, List, arith}
use purrivacy_app.Server.Json.{Json}
use purrivacy_app.UserKeys.Repository.{Stored, add_key_record, update_key_record, delete_key_record}
use purrivacy_app.UserKeys.Lists.{initialize_key_records, read_from_db, delete_keys}
use purrivacy_app.UserKeys.Quota.{IsWithinQuota, commit-IsWithinQuota}
use purrivacy_app.UserKeys.Requests.{
  IsPlain, IsPlainOrNone, AllPlain, add_key_record-IsWithinQuota, update_key_record-IsWithinQuota,
  delete_key_record-IsWithinQuota, initialize_key_records-IsWithinQuota,
}
use purrivacy_app.UserKeys.RecordSet.{create_empty}

mutual
  -- A request about one user's keys. The requests of `before` and `later` are handled while it waits
  -- for the database; when it fails before that, they are left out, and stand beside it.
  pub data Request : Type 0 where
    initialize : List (Option String) → Option Json → ℕ → Request
    add : Option String → Option Json → ℕ → Request
    update : String → Option Json → ℕ → (before later : Requests) → Request
    delete : String → ℕ → (before : Requests) → Request
    read : ℕ → Request
    delete_all : Request

  pub data Requests : Type 0 where
    done : Requests
    followed_by : Request → Requests → Requests

unfoldable mutual
  unfolding initialize_key_records add_key_record update_key_record delete_key_record read_from_db
      delete_keys

  -- What a request leaves in the database
  pub run : ℕ → Request → Stored → Stored
  run max (initialize pushed keys now) v = (initialize_key_records max pushed keys now v).1
  run max (add pushed key now) v = (add_key_record max pushed key now v).1
  run max (update id key now before later) v =
      (update_key_record (run_all max before) (run_all max later) id key now v).1
  run max (delete id now before) v = (delete_key_record (run_all max before) id now v).1
  run max (read now) v = (read_from_db now v).1
  run max delete_all v = delete_keys v

  pub run_all : ℕ → Requests → Stored → Stored
  run_all max done v = v
  run_all max (followed_by request requests) v = run_all max requests (run max request v)

abbrev mutual
  -- The ids are ordinary names.
  pub AreOrdinary : Request → Type 0
  AreOrdinary (initialize pushed keys now) = AllPlain pushed
  AreOrdinary (add pushed key now) = IsPlainOrNone pushed
  AreOrdinary (update id key now before later) = IsPlain id × AllOrdinary before × AllOrdinary later
  AreOrdinary (delete id now before) = AllOrdinary before
  AreOrdinary (read now) = Unit
  AreOrdinary delete_all = Unit

  pub AllOrdinary : Requests → Type 0
  AllOrdinary done = Unit
  AllOrdinary (followed_by request requests) = AreOrdinary request × AllOrdinary requests

read-IsWithinQuota :
    (max now : ℕ) (v : Stored) → IsWithinQuota max v → IsWithinQuota max (read_from_db now v).1
unfolding read_from_db create_empty
read-IsWithinQuota max now none within =
    commit-IsWithinQuota max (create_empty now) (tt, tt, omega arith)
read-IsWithinQuota max now (some value) within = within

mutual
  unfolding run delete_keys

  run-IsWithinQuota :
      (max : ℕ) (request : Request) (v : Stored)
      → 1 ≤ max
      → AreOrdinary request
      → IsWithinQuota max v
      → IsWithinQuota max (run max request v)
  run-IsWithinQuota max (initialize pushed keys now) v some_room plain within =
      initialize_key_records-IsWithinQuota max pushed keys now v plain within
  run-IsWithinQuota max (add pushed key now) v some_room plain within =
      add_key_record-IsWithinQuota max pushed key now v some_room plain within
  run-IsWithinQuota max (update id key now before later) v some_room (plain, fine, fine') within =
      update_key_record-IsWithinQuota max (run_all max before) (run_all max later) id key now v
        plain (λ w. run_all-keeps max before w some_room fine)
        (λ w. run_all-keeps max later w some_room fine') within
  run-IsWithinQuota max (delete id now before) v some_room fine within =
      delete_key_record-IsWithinQuota max (run_all max before) id now v
        (λ w. run_all-keeps max before w some_room fine) within
  run-IsWithinQuota max (read now) v some_room plain within = read-IsWithinQuota max now v within
  run-IsWithinQuota max delete_all v some_room plain within = tt

  run_all-keeps :
      (max : ℕ) (requests : Requests) (v : Stored)
      → 1 ≤ max
      → AllOrdinary requests
      → IsWithinQuota max v
      → IsWithinQuota max (run_all max requests v)
  run_all-keeps max done v some_room fine within = within
  run_all-keeps max (followed_by request requests) v some_room (fine, rest) within =
      run_all-keeps max requests (run max request v) some_room rest
        (run-IsWithinQuota max request v some_room fine within)

-- A user's keys that are missing, or readable and within a quota of at least one record, stay so after
-- any requests, also such as run while others wait for the database, if the ids that are added or updated
-- are not names that every object inherits.
pub run_all-IsWithinQuota :
    (max : ℕ) (requests : Requests) (v : Stored)
    → 1 ≤ max
    → AllOrdinary requests
    → IsWithinQuota max v
    → IsWithinQuota max (run_all max requests v)
run_all-IsWithinQuota = run_all-keeps
