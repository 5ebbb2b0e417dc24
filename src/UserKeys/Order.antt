-- ===== src/UserKeys/Order.antt =====
-- The order of key records
-- (apps/server/src/features/user/infrastructure/userKeys/userKeyRecordSet.ts).
use Prim.Native.Char.{code}
use Prim.Native.String.{String}
use text.Mathlib.TextEquality.{Char-path}
use purrivacy_app.Prelude.{
  ℕ, ◌≡◌, refl, ap₂, inl, inr, true, false, List, [], ◌∷◌, arith, same_text, same_text_iff, if_elim,
  Bool-cases,
}
use purrivacy_app.UserKeys.Cursor.{Position}
use purrivacy_app.UserKeys.Pages.{
  KeyEntry, text_lt, position_lt, position, filter_since, is_since, place, sort,
}

text_lt_irrefl : (s : String) → text_lt s s ≡ false
unfolding text_lt
text_lt_irrefl String.[] = refl
text_lt_irrefl (String.◌∷◌ c s) = ground (arith, text_lt_irrefl s)

text_lt_trans : (s t u : String) → text_lt s t ≡ true → text_lt t u ≡ true → text_lt s u ≡ true
unfolding text_lt
text_lt_trans s t String.[] h k = cc
text_lt_trans s String.[] (String.◌∷◌ e u) h k = cc
text_lt_trans String.[] (String.◌∷◌ d t) (String.◌∷◌ e u) h k = refl
text_lt_trans (String.◌∷◌ c s) (String.◌∷◌ d t) (String.◌∷◌ e u) h k =
    ground (arith, text_lt_trans s t u)

text_lt_connected : (s t : String) → text_lt s t ≡ false → text_lt t s ≡ false → s ≡ t
unfolding text_lt
text_lt_connected String.[] String.[] h k = refl
text_lt_connected String.[] (String.◌∷◌ d t) h k = cc
text_lt_connected (String.◌∷◌ c s) String.[] h k = cc
text_lt_connected (String.◌∷◌ c s) (String.◌∷◌ d t) h k =
    let e : (code c ≡ code d) × (text_lt s t ≡ false) × (text_lt t s ≡ false) = ground arith in
    ap₂ (λ a b. String.◌∷◌ a b) (Char-path c d e.0) (text_lt_connected s t e.1 e.2)

pub position_lt_irrefl : (p : Position) → position_lt p p ≡ false
unfolding position_lt
position_lt_irrefl (a, i) = ground (arith, text_lt_irrefl i)

pub position_lt_trans :
    (p q r : Position) → position_lt p q ≡ true → position_lt q r ≡ true → position_lt p r ≡ true
unfolding position_lt
position_lt_trans (a, i) (b, j) (c, k) h l = ground (arith, text_lt_trans i j k)

pub position_lt_asym : (p q : Position) → position_lt p q ≡ true → position_lt q p ≡ false
position_lt_asym p q h = elim (Bool-cases (position_lt q p)) [
  | inl back ↦ absurd (cc (position_lt_trans p q p h back, position_lt_irrefl p))
  | inr ahead ↦ ahead
]

position_lt_connected :
    (p q : Position) → position_lt p q ≡ false → same_text p.1 q.1 ≡ false → position_lt q p ≡ true
unfolding position_lt
position_lt_connected (a, i) (b, j) h differ = elim (Bool-cases (text_lt j i)) [
  | inl less ↦ ground arith
  | inr no_less ↦ elim (Bool-cases (text_lt i j)) [
    | inl more ↦ ground arith
    | inr no_more ↦
        absurd (cc ((same_text_iff i j).1 (text_lt_connected i j no_more no_less), differ))
  ]
]

-- The record stands before all of them.
abbrev pub AllAfter : Position → List KeyEntry → Type 0
AllAfter p [] = Unit {0}
AllAfter p (entry ∷ entries) = (position_lt p (position entry) ≡ true) × AllAfter p entries

-- Every record stands before all later ones.
abbrev pub Ascending : List KeyEntry → Type 0
Ascending [] = Unit {0}
Ascending (entry ∷ entries) = AllAfter (position entry) entries × Ascending entries

-- No record has the id.
abbrev pub NotAmong : String → List KeyEntry → Type 0
NotAmong id [] = Unit {0}
NotAmong id (entry ∷ entries) = (same_text entry.record_id id ≡ false) × NotAmong id entries

abbrev pub IsDistinct : List KeyEntry → Type 0
IsDistinct [] = Unit {0}
IsDistinct (entry ∷ entries) = NotAmong entry.record_id entries × IsDistinct entries

AllAfter-trans :
    (p q : Position) (entries : List KeyEntry)
    → position_lt p q ≡ true
    → AllAfter q entries
    → AllAfter p entries
AllAfter-trans p q [] h after = tt
AllAfter-trans p q (entry ∷ entries) h after =
    (position_lt_trans p q (position entry) h after.0, AllAfter-trans p q entries h after.1)

place-AllAfter :
    (p : Position) (entry : KeyEntry) (entries : List KeyEntry)
    → position_lt p (position entry) ≡ true
    → AllAfter p entries
    → AllAfter p (place entry entries)
unfolding place
place-AllAfter p entry [] h after = (h, tt)
place-AllAfter p entry (other ∷ entries) h after =
    if_elim (AllAfter p) (position_lt (position other) (position entry)) _ _
      (λ less. (after.0, place-AllAfter p entry entries h after.1)) (λ greater. (h, after))

place-Ascending :
    (entry : KeyEntry) (entries : List KeyEntry)
    → NotAmong entry.record_id entries
    → Ascending entries
    → Ascending (place entry entries)
unfolding place position
place-Ascending entry [] new sorted = (tt, tt)
place-Ascending entry (other ∷ entries) new sorted =
    if_elim Ascending (position_lt (position other) (position entry)) _ _
      (λ less. (
        place-AllAfter (position other) entry entries less sorted.0,
        place-Ascending entry entries new.1 sorted.1,
      ))
      (λ greater.
        let first = position_lt_connected (position other) (position entry) greater new.0 in
        ((first, AllAfter-trans (position entry) (position other) entries first sorted.0), sorted))

place-NotAmong :
    (id : String) (entry : KeyEntry) (entries : List KeyEntry)
    → same_text entry.record_id id ≡ false
    → NotAmong id entries
    → NotAmong id (place entry entries)
unfolding place
place-NotAmong id entry [] h new = (h, tt)
place-NotAmong id entry (other ∷ entries) h new =
    if_elim (NotAmong id) (position_lt (position other) (position entry)) _ _
      (λ less. (new.0, place-NotAmong id entry entries h new.1)) (λ greater. (h, new))

sort-NotAmong :
    (id : String) (entries : List KeyEntry) → NotAmong id entries → NotAmong id (sort entries)
unfolding sort
sort-NotAmong id [] new = tt
sort-NotAmong id (entry ∷ entries) new =
    place-NotAmong id entry (sort entries) new.0 (sort-NotAmong id entries new.1)

-- Records with distinct ids are sorted by their times and ids.
pub sort-Ascending : (entries : List KeyEntry) → IsDistinct entries → Ascending (sort entries)
unfolding sort
sort-Ascending [] distinct = tt
sort-Ascending (entry ∷ entries) distinct =
    place-Ascending entry (sort entries) (sort-NotAmong entry.record_id entries distinct.0)
      (sort-Ascending entries distinct.1)

filter_since-NotAmong :
    (since : ℕ) (id : String) (entries : List KeyEntry)
    → NotAmong id entries
    → NotAmong id (filter_since since entries)
unfolding filter_since
filter_since-NotAmong since id [] new = tt
filter_since-NotAmong since id (entry ∷ entries) new =
    if_elim (NotAmong id) (is_since since entry.updated_at) _ _
      (λ kept. (new.0, filter_since-NotAmong since id entries new.1))
      (λ left. filter_since-NotAmong since id entries new.1)

pub filter_since-IsDistinct :
    (since : ℕ) (entries : List KeyEntry)
    → IsDistinct entries
    → IsDistinct (filter_since since entries)
unfolding filter_since
filter_since-IsDistinct since [] distinct = tt
filter_since-IsDistinct since (entry ∷ entries) distinct =
    if_elim IsDistinct (is_since since entry.updated_at) _ _
      (λ kept. (
        filter_since-NotAmong since entry.record_id entries distinct.0,
        filter_since-IsDistinct since entries distinct.1,
      ))
      (λ left. filter_since-IsDistinct since entries distinct.1)
