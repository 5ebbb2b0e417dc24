-- ===== src/Mfa/SingleUse.antt =====
-- What the acceptance of a recovery code does to the stored codes
-- (apps/server/src/features/mfa/application/mfaRecoveryCodes.ts).
use mathlib.Core.Path.{subst}
use purrivacy_app.Prelude.{
  sym, ap, ◌∙◌, if_elim, ℕ, zero, suc, ◌<◌, String, ◌≡◌, refl, Bool, true, false, Option, none,
  some, List, [], ◌∷◌, map, length, leb, same_text_iff, if◌then◌else◌, arith, Option-cases, inl,
  inr,
}
use purrivacy_app.Server.Documents.{DocumentStore}
use purrivacy_app.Server.Errors.{ok}
use purrivacy_app.Mfa.Types.{MfaSecurity, MfaDb, recovery_code_count, auto_regenerate_threshold}
use purrivacy_app.Mfa.RecoveryCodes.{
  codes_of, index_of, splice, put_codes, consume_at, verify_and_consume_recovery_code,
  get_remaining_mfa_recovery_codes,
}

-- No code occurs twice.
abbrev pub IsDistinct : List String → Type 0
IsDistinct [] = Unit {0}
IsDistinct (c ∷ cs) = (index_of c cs ≡ none) × IsDistinct cs

index_of-splice :
    (code : String) (cs : List String) (i : ℕ)
    → IsDistinct cs
    → index_of code cs ≡ some i
    → index_of code (splice i cs) ≡ none
unfolding index_of splice
index_of-splice code [] i d at = cc
index_of-splice code (c ∷ cs) zero d at = ground (arith, same_text_iff c code)
index_of-splice code (c ∷ cs) (suc i) d at = elim (Option-cases (index_of code cs)) [
  | inl absent ↦ ground (arith, absent)
  | inr (j, found) ↦ ground (arith, found, index_of-splice code cs i d.1)
]

length-map {ℓ} : {A B : Type ℓ} (f : A → B) (xs : List A) → length (map f xs) ≡ length xs
length-map f [] = refl
length-map f (x ∷ xs) = rw (length-map f xs)

module _ (D : DocumentStore) (sha256 : String → String) where
  -- What a call that accepts the code found and wrote.
  pub record Accepts (user_id code : String) (fresh : List String) (db db' : MfaDb D)
      (s : MfaSecurity) : Type 0 where
    pub enabled : D.get user_id db.users ≡ some true
    pub stored : D.get user_id db.security ≡ some s
    pub index : ℕ
    pub found : index_of (sha256 code) (codes_of s) ≡ some index
    pub left : List String
    pub written : D.get user_id db'.security ≡ some (record s { mfa_recovery_codes = some left })
    pub users_kept : db'.users ≡ db.users
    pub which : left ≡ (
        if leb (length (splice index (codes_of s))) auto_regenerate_threshold
        then map sha256 fresh
        else splice index (codes_of s))

  pub accepted :
      (user_id code : String) (fresh : List String) (db : MfaDb D) {codes : Option (List String)}
      → (verify_and_consume_recovery_code D sha256 user_id code fresh db).1 ≡ ok (true, codes)
      → (s : MfaSecurity) × Accepts user_id code fresh db
          (verify_and_consume_recovery_code D sha256 user_id code fresh db).0
          s
  unfolding verify_and_consume_recovery_code consume_at put_codes
  accepted user_id code fresh db {codes} h = elim (Option-cases (D.get user_id db.users)) [
    | inl absent ↦ ground (arith, absent)
    | inr (enabled, user) ↦ elim (Option-cases (D.get user_id db.security)) [
      | inl absent ↦ ground (arith, user, absent)
      | inr (s, stored) ↦ elim (Option-cases (index_of (sha256 code) (codes_of s))) [
        | inl absent ↦ ground (arith, user, stored, absent)
        | inr (i, found) ↦ (
          s,
          record {
            enabled = ground (arith, user);
            stored = stored;
            index = i;
            found = found;
            left =
                if leb (length (splice i (codes_of s))) auto_regenerate_threshold
                then map sha256 fresh
                else splice i (codes_of s);
            written = ground (
              arith,
              user,
              stored,
              found,
              same_text_iff user_id user_id,
              D.get-put user_id user_id (record s { mfa_recovery_codes = some (map sha256 fresh) })
                  db.security,
              D.get-put user_id user_id
                  (record s { mfa_recovery_codes = some (splice i (codes_of s)) }) db.security,
            );
            users_kept = ground (arith, user, stored, found);
            which = refl;
          },
        )
      ]
    ]
  ]

  refused :
      (user_id code : String) (fresh : List String) (db : MfaDb D) (s : MfaSecurity)
      → D.get user_id db.users ≡ some true
      → D.get user_id db.security ≡ some s
      → index_of (sha256 code) (codes_of s) ≡ none
      → (verify_and_consume_recovery_code D sha256 user_id code fresh db).1 ≡ ok (false, none)
  unfolding verify_and_consume_recovery_code consume_at
  refused user_id code fresh db s user stored absent = ground (arith, user, stored, absent)

  -- A recovery code is accepted once: where the stored codes are distinct, and the new codes that the
  -- call may generate do not contain the same code, presenting it again is answered as invalid.
  pub recovery_code_is_single_use :
      (user_id code : String) (fresh fresh' : List String) (db : MfaDb D) (s : MfaSecurity)
      {codes : Option (List String)}
      → (verify_and_consume_recovery_code D sha256 user_id code fresh db).1 ≡ ok (true, codes)
      → D.get user_id db.security ≡ some s
      → IsDistinct (codes_of s)
      → index_of (sha256 code) (map sha256 fresh) ≡ none
      → (verify_and_consume_recovery_code D sha256 user_id code fresh'
          (verify_and_consume_recovery_code D sha256 user_id code fresh db).0).1
        ≡ ok (false, none)
  unfolding codes_of
  recovery_code_is_single_use user_id code fresh fresh' db s {codes} h stored d new =
      let (s', a) = accepted user_id code fresh db h in
      let same : s' ≡ s = cc (a.stored, stored) in
      let distinct : IsDistinct (codes_of s') =
        subst (λ (x : MfaSecurity). IsDistinct (codes_of x)) (sym same) d in
      let gone : index_of (sha256 code) a.left ≡ none =
        subst (λ (l : List String). index_of (sha256 code) l ≡ none) (sym a.which)
          (if_elim (λ (l : List String). index_of (sha256 code) l ≡ none)
            (leb (length (splice a.index (codes_of s'))) auto_regenerate_threshold) _ _ (λ e. new)
            (λ e. index_of-splice (sha256 code) (codes_of s') a.index distinct a.found)) in
      refused user_id code fresh' _ (record s' { mfa_recovery_codes = some a.left })
        (ap (λ (users : D.Collection Bool). D.get user_id users) a.users_kept ∙ a.enabled) a.written
        gone

  -- A user whose code was accepted has more than two codes left, where the call generates ten codes.
  pub recovery_codes_stay :
      (user_id code : String) (fresh : List String) (db : MfaDb D) {codes : Option (List String)}
      → (verify_and_consume_recovery_code D sha256 user_id code fresh db).1 ≡ ok (true, codes)
      → length fresh ≡ recovery_code_count
      → (n : ℕ) × (get_remaining_mfa_recovery_codes D user_id
            (verify_and_consume_recovery_code D sha256 user_id code fresh db).0
          ≡ ok n)
        × (auto_regenerate_threshold < n)
  unfolding get_remaining_mfa_recovery_codes
  recovery_codes_stay user_id code fresh db {codes} h ten =
      let (s, a) = accepted user_id code fresh db h in
      (
        length a.left,
        rw (a.users_kept, a.enabled, a.written) refl,
        ground (arith, a.which, length-map sha256 fresh),
      )
