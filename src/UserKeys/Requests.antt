-- ===== src/UserKeys/Requests.antt =====
-- Sequences of requests about a user's keys
-- (apps/server/src/features/user/infrastructure/UserKeyRepository.ts).
use mathlib.Core.Path.{subst}
use purrivacy_app.Prelude.{
  ℕ, suc, ◌+◌, ◌≤◌, String, ◌≡◌, refl, sym, ap, ◌∙◌, Bool, false, Option, none, some, List, [], ◌∷◌,
  arith, length, same_text, if_elim, inl, inr,
}
use purrivacy_app.Prelude.Dict.{Dict, insert, IsKeyed, insert-IsKeyed, length-insert}
use purrivacy_app.Server.Errors.{Result, Result-cases, ok, err, bind_ok, ok_injective}
use purrivacy_app.Server.Json.{Json, null, bool, num, str, arr, obj, elements}
use purrivacy_app.UserKeys.Payload.{
  EncryptedPayload, max_encrypted_key_data_length, sanitize_encrypted_payload,
  sanitize_encrypted_key_record, sanitize_encrypted_keys, sanitize_each,
}
use purrivacy_app.UserKeys.Accepted.{sanitize_encrypted_payload_sound}
use purrivacy_app.UserKeys.RecordSet.{Item, assert_user_key_record_id, assign}
use purrivacy_app.UserKeys.Stored.{IsKey, AllValid}
use purrivacy_app.UserKeys.Read.{sanitize_encrypted_key_record-IsKey, insert-AllValid, id_sound}
use purrivacy_app.UserKeys.Repository.{
  Stored, Outcome, KeyRecord, attempt, generated_id, new_item, is_object_member, add_step,
  add_key_record, update_step, update_key_record, delete_step, delete_key_record, exists,
}
use purrivacy_app.UserKeys.Lists.{initial_items, initialize_key_records}
use purrivacy_app.UserKeys.Quota.{
  IsWithinQuota, commit-IsWithinQuota, transaction-IsWithinQuota, add_step-CommitsGood,
  update_step-CommitsGood, delete_step-CommitsGood,
}

-- Not a name that every object inherits
abbrev pub IsPlain : String → Type 0
IsPlain id = (is_object_member id ≡ false) × (same_text id "__proto__" ≡ false)

abbrev pub IsPlainOrNone : Option String → Type 0
IsPlainOrNone none = Unit {0}
IsPlainOrNone (some id) = IsPlain id

-- A state that was reached before a throw, and by what follows, is reached.
attempt_elim {ℓ κ ν} :
    {A : Type ℓ} {B : Type κ} (P : Stored → Type ν) (r : Result A) (current : Stored)
    (rest : A → Result B × Stored)
    → P current
    → ((a : A) → r ≡ ok a → P (rest a).1)
    → P (attempt r current rest).1
attempt_elim P (err e) current rest before after = before
attempt_elim P (ok a) current rest before after = after a refl

id_of :
    (pushed : Option String) (id : String)
    → generated_id pushed ≡ ok id
    → IsPlainOrNone pushed
    → IsPlain id
unfolding generated_id
id_of none id h plain = cc
id_of (some j) id h plain = subst IsPlain (ok_injective h) plain

pub add_key_record-IsWithinQuota :
    (max : ℕ) (pushed : Option String) (key : Option Json) (now : ℕ) (v : Stored)
    → 1 ≤ max
    → IsPlainOrNone pushed
    → IsWithinQuota max v
    → IsWithinQuota max (add_key_record max pushed key now v).1
unfolding add_key_record
add_key_record-IsWithinQuota max pushed key now v some_room plain within =
    attempt_elim (IsWithinQuota max) (sanitize_encrypted_key_record key) v _ within λ p good.
      attempt_elim (IsWithinQuota max) (generated_id pushed) v _ within λ id is_id.
        attempt_elim (IsWithinQuota max) (assert_user_key_record_id id) v _ within λ b valid.
          transaction-IsWithinQuota max (add_step max id p now) v within (
            add_step-CommitsGood max id p now v some_room
              (id_sound id b valid, (id_of pushed id is_id plain).1)
              (sanitize_encrypted_key_record-IsKey key good))

pub update_key_record-IsWithinQuota :
    (max : ℕ) (before later : Stored → Stored) (id : String) (key : Option Json) (now : ℕ)
    (v : Stored)
    → IsPlain id
    → ((w : Stored) → IsWithinQuota max w → IsWithinQuota max (before w))
    → ((w : Stored) → IsWithinQuota max w → IsWithinQuota max (later w))
    → IsWithinQuota max v
    → IsWithinQuota max (update_key_record before later id key now v).1
unfolding update_key_record
update_key_record-IsWithinQuota max before later id key now v plain keep keep' within =
    attempt_elim (IsWithinQuota max) (assert_user_key_record_id id) v _ within λ b valid.
      attempt_elim (IsWithinQuota max) (sanitize_encrypted_key_record key) v _ within λ p good.
        if_elim (λ (o : Outcome KeyRecord). IsWithinQuota max o.1) (exists v) _ _
          (λ there. keep' _ (
            transaction-IsWithinQuota max (update_step id p now) (before v) (keep v within) (
              update_step-CommitsGood max id p now (before v) (keep v within)
                (id_sound id b valid, plain.1) plain.0
                (sanitize_encrypted_key_record-IsKey key good))))
          (λ missing. within)

pub delete_key_record-IsWithinQuota :
    (max : ℕ) (before : Stored → Stored) (id : String) (now : ℕ) (v : Stored)
    → ((w : Stored) → IsWithinQuota max w → IsWithinQuota max (before w))
    → IsWithinQuota max v
    → IsWithinQuota max (delete_key_record before id now v).1
unfolding delete_key_record
delete_key_record-IsWithinQuota max before id now v keep within =
    attempt_elim (IsWithinQuota max) (assert_user_key_record_id id) v _ within λ b valid.
      if_elim (λ (o : Outcome Bool). IsWithinQuota max o.1) (exists v) _ _
        (λ there.
          transaction-IsWithinQuota max (delete_step id now) (before v) (keep v within)
            (delete_step-CommitsGood max id now (before v) (keep v within)))
        (λ missing. within)

abbrev AllKeys : List EncryptedPayload → Type 0
AllKeys [] = Unit {0}
AllKeys (key ∷ keys) = IsKey key × AllKeys keys

sanitize_each_sound :
    (values : List Json) (keys : List EncryptedPayload)
    → sanitize_each values ≡ ok keys
    → AllKeys keys × (length keys ≡ length values)
unfolding sanitize_each
sanitize_each_sound [] keys h =
    subst (λ (ks : List EncryptedPayload). AllKeys ks × (length ks ≡ 0)) (ok_injective h) (tt, refl)
sanitize_each_sound (value ∷ values) keys h =
    let (p, p_ok, after_p) =
      bind_ok (sanitize_encrypted_payload max_encrypted_key_data_length (some value)) _ keys h in
    let (ps, ps_ok, done) = bind_ok (sanitize_each values) _ keys after_p in
    let (good, same) = sanitize_each_sound values ps ps_ok in
    subst (λ (ks : List EncryptedPayload). AllKeys ks × (length ks ≡ suc (length values)))
      (ok_injective done)
      (
        (
          (sanitize_encrypted_payload_sound max_encrypted_key_data_length (some value) p p_ok).1,
          good,
        ),
        ap suc same,
      )

sanitize_keys_sound :
    (max : ℕ) (v : Option Json) (keys : List EncryptedPayload)
    → sanitize_encrypted_keys max v ≡ ok keys
    → AllKeys keys × (length keys ≤ max)
unfolding sanitize_encrypted_keys
sanitize_keys_sound max none keys h = cc
sanitize_keys_sound max (some null) keys h = cc
sanitize_keys_sound max (some (bool b)) keys h = cc
sanitize_keys_sound max (some (num n)) keys h = cc
sanitize_keys_sound max (some (str s)) keys h = cc
sanitize_keys_sound max (some (obj ps)) keys h = cc
sanitize_keys_sound max (some (arr values)) keys h =
    elim (Result-cases (sanitize_each (elements values))) [
      | inr (e, bad) ↦ absurd (ground (arith, bad))
      | inl (ps, good) ↦
          let (all_good, same) = sanitize_each_sound (elements values) ps good in
          let e : (ps ≡ keys) × (length (elements values) ≤ max) = ground (arith, good) in
          subst (λ (ks : List EncryptedPayload). AllKeys ks × (length ks ≤ max)) e.0
            (all_good, omega (arith, same, e.1))
    ]

abbrev pub AllPlain : List (Option String) → Type 0
AllPlain [] = Unit {0}
AllPlain (pushed ∷ later) = IsPlainOrNone pushed × AllPlain later

initial_items_sound :
    (pushed : List (Option String)) (keys : List EncryptedPayload) (now : ℕ)
    (items result : Dict Item)
    → AllPlain pushed
    → AllKeys keys
    → AllValid items
    → IsKeyed items
    → initial_items pushed keys now items ≡ ok result
    → AllValid result × IsKeyed result × (length result ≤ length items + length keys)
unfolding initial_items new_item
initial_items_sound pushed [] now items result plain good valid keyed h =
    subst (λ (d : Dict Item). AllValid d × IsKeyed d × (length d ≤ length items + 0))
      (ok_injective h) (valid, keyed, omega arith)
initial_items_sound [] (key ∷ keys) now items result plain good valid keyed h = cc
initial_items_sound (p ∷ pushed) (key ∷ keys) now items result plain good valid keyed h =
    let (id, is_id, after_id) = bind_ok (generated_id p) _ result h in
    let (b, id_ok, done) = bind_ok (assert_user_key_record_id id) _ result after_id in
    let (ordinary, other) = id_of p id is_id plain.0 in
    let item = new_item key now in
    let same : assign id item items ≡ insert id item items = rw other refl in
    let (all_valid, all_keyed, fits) =
      initial_items_sound pushed keys now (insert id item items) result plain.1 good.1
        (insert-AllValid id item items (id_sound id b id_ok, other) good.0 valid)
        (insert-IsKeyed id item items keyed)
        (ap (initial_items pushed keys now) (sym same) ∙ done) in
    (all_valid, all_keyed, ground (arith, fits, length-insert id item items))

pub initialize_key_records-IsWithinQuota :
    (max : ℕ) (pushed : List (Option String)) (keys : Option Json) (now : ℕ) (v : Stored)
    → AllPlain pushed
    → IsWithinQuota max v
    → IsWithinQuota max (initialize_key_records max pushed keys now v).1
unfolding initialize_key_records
initialize_key_records-IsWithinQuota max pushed keys now v plain within =
    attempt_elim (IsWithinQuota max) (sanitize_encrypted_keys max keys) v _ within λ sanitized good.
      attempt_elim (IsWithinQuota max) (initial_items pushed sanitized now []) v _ within
        λ created made.
          let (all_good, few) = sanitize_keys_sound max keys sanitized good in
          let (valid, keyed, fits) =
            initial_items_sound pushed sanitized now [] created plain all_good tt tt made in
          commit-IsWithinQuota max _ (valid, keyed, omega (arith, few, fits))
