-- ===== src/UserKeys/Quota.antt =====
-- The quota of a user's keys
-- (apps/server/src/features/user/infrastructure/UserKeyRepository.ts).
use mathlib.Core.Path.{subst}
use purrivacy_app.Prelude.{
  ℕ, ◌≤◌, String, ◌≡◌, refl, sym, ◌∙◌, inl, inr, false, Option, none, some, [], ◌∷◌, arith, length,
  leb, same_text, if_elim,
}
use purrivacy_app.Prelude.Dict.{
  Dict, insert, remove, IsKeyed, insert-IsKeyed, remove-IsKeyed, length-insert, length-remove_le,
}
use purrivacy_app.Server.Errors.{Result, Result-cases, ok, err, ok_injective}
use purrivacy_app.Server.Json.{Json}
use purrivacy_app.UserKeys.Payload.{EncryptedPayload}
use purrivacy_app.UserKeys.RecordSet.{
  Item, RecordSet, create_empty, sanitize_record_set, encode_record_set,
}
use purrivacy_app.UserKeys.Stored.{IsKey, IsRecordId, AllValid, reread}
use purrivacy_app.UserKeys.Read.{insert-AllValid, sanitize_record_set_sound}
use purrivacy_app.UserKeys.Repository.{
  Stored, settle, transaction, new_item, has_item, is_object_member, add_step, update_step,
  delete_step,
}

-- What is stored is missing, or it is read as at most `max` records.
abbrev pub IsWithinQuota : ℕ → Stored → Type 0
IsWithinQuota max none = Unit {0}
IsWithinQuota max (some value) =
    (s : RecordSet) × (sanitize_record_set (some value) ≡ ok s) × (length s.items ≤ max)

-- A set that may be committed
abbrev pub IsGood : ℕ → RecordSet → Type 0
IsGood max s = AllValid s.items × IsKeyed s.items × (length s.items ≤ max)

pub commit-IsWithinQuota :
    (max : ℕ) (s : RecordSet) → IsGood max s → IsWithinQuota max (some (encode_record_set s))
commit-IsWithinQuota max s (valid, keyed, fits) = (_, reread s valid keyed, fits)

-- Every set that the function of a transaction returns is good.
abbrev pub CommitsGood : ℕ → Result (Option RecordSet) → Type 0
CommitsGood max (ok (some s)) = IsGood max s
CommitsGood max _ = Unit {0}

settle-IsWithinQuota :
    (max : ℕ) (r : Result (Option RecordSet)) (v : Stored)
    → IsWithinQuota max v
    → CommitsGood max r
    → IsWithinQuota max (settle r v).1
unfolding settle
settle-IsWithinQuota max (err e) v within good = within
settle-IsWithinQuota max (ok none) v within good = within
settle-IsWithinQuota max (ok (some s)) v within good = commit-IsWithinQuota max s good

pub transaction-IsWithinQuota :
    (max : ℕ) (step : Stored → Result (Option RecordSet)) (v : Stored)
    → IsWithinQuota max v
    → CommitsGood max (step v)
    → IsWithinQuota max (transaction step v).1
unfolding transaction
transaction-IsWithinQuota max step v within good = settle-IsWithinQuota max (step v) v within good

pub add_step-CommitsGood :
    (max : ℕ) (id : String) (key : EncryptedPayload) (now : ℕ) (v : Stored)
    → 1 ≤ max
    → IsRecordId id
    → IsKey key
    → CommitsGood max (add_step max id key now v)
unfolding add_step new_item
add_step-CommitsGood max id key now none some_room good valid =
    ((good, valid, tt), (refl, tt), some_room)
add_step-CommitsGood max id key now (some value) some_room good valid =
    elim (Result-cases (sanitize_record_set (some value))) [
      | inr (e, failed) ↦ rw failed tt
      | inl (s, read) ↦
          let (sound, again) = sanitize_record_set_sound (some value) s read in
          let next = insert id (new_item key now) s.items in
          rw read (
            if_elim (CommitsGood max) (leb max (length s.items)) _ _ (λ full. tt)
              (λ room. (
                insert-AllValid id (new_item key now) s.items good valid sound.0,
                insert-IsKeyed id (new_item key now) s.items sound.1,
                ground (arith, length-insert id (new_item key now) s.items),
              )))
    ]

pub remove-AllValid :
    (id : String) (items : Dict Item) → AllValid items → AllValid (remove id items)
unfolding remove
remove-AllValid id [] h = tt
remove-AllValid id ((j, item) ∷ items) h =
    if_elim AllValid (same_text j id) _ _ (λ same. remove-AllValid id items h.2)
      (λ differs. (h.0, h.1, remove-AllValid id items h.2))

-- What is read from a value within the quota
read_within :
    (max : ℕ) (value : Json) (s : RecordSet)
    → IsWithinQuota max (some value)
    → sanitize_record_set (some value) ≡ ok s
    → IsGood max s
read_within max value s (t, read, fits) again =
    let (sound, stable) = sanitize_record_set_sound (some value) s again in
    (
      sound.0,
      sound.1,
      subst (λ (r : RecordSet). length r.items ≤ max) (ok_injective (sym read ∙ again)) fits,
    )

pub update_step-CommitsGood :
    (max : ℕ) (id : String) (key : EncryptedPayload) (now : ℕ) (v : Stored)
    → IsWithinQuota max v
    → IsRecordId id
    → is_object_member id ≡ false
    → IsKey key
    → CommitsGood max (update_step id key now v)
unfolding update_step new_item has_item create_empty
update_step-CommitsGood max id key now none within good plain valid = (tt, tt, omega arith)
update_step-CommitsGood max id key now (some value) within good plain valid =
    elim (Result-cases (sanitize_record_set (some value))) [
      | inr (e, failed) ↦ rw failed tt
      | inl (s, read) ↦
          let (all_valid, keyed, fits) = read_within max value s within read in
          rw read (
            if_elim (CommitsGood max) (has_item id s.items) _ _
              (λ found. (
                insert-AllValid id (new_item key now) s.items good valid all_valid,
                insert-IsKeyed id (new_item key now) s.items keyed,
                ground (arith, length-insert id (new_item key now) s.items, found, plain),
              ))
              (λ missing. tt))
    ]

pub delete_step-CommitsGood :
    (max : ℕ) (id : String) (now : ℕ) (v : Stored)
    → IsWithinQuota max v
    → CommitsGood max (delete_step id now v)
unfolding delete_step create_empty
delete_step-CommitsGood max id now none within = (tt, tt, omega arith)
delete_step-CommitsGood max id now (some value) within =
    elim (Result-cases (sanitize_record_set (some value))) [
      | inr (e, failed) ↦ rw failed tt
      | inl (s, read) ↦
          let (all_valid, keyed, fits) = read_within max value s within read in
          rw read (
            if_elim (CommitsGood max) (has_item id s.items) _ _
              (λ found. (
                remove-AllValid id s.items all_valid,
                remove-IsKeyed id s.items keyed,
                omega (arith, length-remove_le id s.items, fits),
              ))
              (λ missing. tt))
    ]
