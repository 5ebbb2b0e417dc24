-- ===== src/TotpInput/Edit.antt =====
-- `applyTotpEdit` (apps/mobile/src/features/mfa/domain/totpEdit.ts). The boxes and the text are lists of
-- characters by their codes; a box is `none` where the source has an empty text. The index is a natural
-- number, and texts are ASCII digits after the filter.
use purrivacy_app.Prelude.{
  ℕ, zero, suc, ◌+◌, ◌-◌, Bool, true, false, ◌&&◌, Option, none, some, List, [], ◌∷◌, length, take,
  ltb, leb, ◌==◌, if◌then◌else◌,
}

abbrev pub totp_length : ℕ
totp_length = 6

-- `string[]`, each text empty or one character
abbrev pub Boxes : Type 0
Boxes = List (Option ℕ)

-- `TotpEditResult`
pub record TotpEditResult : Type 0 where
  pub code : Boxes
  pub active_index : ℕ

abbrev pub min : ℕ → ℕ → ℕ
min a b = if leb a b then a else b

-- `clampIndex`
unfoldable pub clamp_index : ℕ → ℕ
clamp_index index = min index (totp_length - 1)

-- `previous.join('')`
unfoldable pub join_boxes : Boxes → List ℕ
join_boxes [] = []
join_boxes (none ∷ boxes) = join_boxes boxes
join_boxes (some c ∷ boxes) = c ∷ join_boxes boxes

-- `replace(/[^0-9]/g, '')`
unfoldable pub only_digits : List ℕ → List ℕ
only_digits [] = []
only_digits (c ∷ text) =
    let rest = only_digits text in if leb b'0' c && leb c b'9' then c ∷ rest else rest

-- `next[findFirstDiffIndex(prev, next)] ?? ''`
unfoldable pub first_difference : List ℕ → List ℕ → Option ℕ
first_difference prev [] = none
first_difference [] (c ∷ next) = some c
first_difference (d ∷ prev) (c ∷ next) = if d == c then first_difference prev next else some c

-- `code[index] = box`; JavaScript fills a gap before the index
unfoldable pub set_box : ℕ → Option ℕ → Boxes → Boxes
set_box zero box [] = box ∷ []
set_box zero box (other ∷ boxes) = box ∷ boxes
set_box (suc n) box [] = none ∷ set_box n box []
set_box (suc n) box (other ∷ boxes) = other ∷ set_box n box boxes

-- `code[index]`
unfoldable pub box_at : ℕ → Boxes → Option ℕ
box_at n [] = none
box_at zero (box ∷ boxes) = box
box_at (suc n) (box ∷ boxes) = box_at n boxes

abbrev pub is_filled : Option ℕ → Bool
is_filled none = false
is_filled (some c) = true

-- `Array(TOTP_LENGTH).fill('')` with the digits from the start
unfoldable pub fill : ℕ → List ℕ → Boxes
fill zero digits = []
fill (suc n) [] = none ∷ fill n []
fill (suc n) (c ∷ digits) = some c ∷ fill n digits

-- The insertion
unfoldable pub insert_digit : Boxes → List ℕ → List ℕ → ℕ → TotpEditResult
unfolding clamp_index set_box first_difference
insert_digit code prev next active =
    let index = clamp_index active in
    record {
      code = set_box index (first_difference prev next) code;
      active_index = min (index + 1) (totp_length - 1);
    }

-- The deletion, at the clamped index
unfoldable pub delete_at : Boxes → ℕ → TotpEditResult
unfolding set_box box_at
delete_at code zero =
    if is_filled (box_at 0 code)
    then record { code = set_box 0 none code; active_index = 0 }
    else record { code = code; active_index = 0 }
delete_at code (suc n) =
    if is_filled (box_at (suc n) code)
    then record { code = set_box (suc n) none code; active_index = suc n }
    else if is_filled (box_at n code)
    then record { code = set_box n none code; active_index = n }
    else record { code = code; active_index = n }

-- The four cases of `applyTotpEdit`
unfoldable pub edit : Boxes → List ℕ → List ℕ → ℕ → TotpEditResult
unfolding insert_digit delete_at clamp_index fill
edit code prev next active =
    if length next == length prev
    then record { code = code; active_index = active }
    else if ltb (length prev + 1) (length next)
    then record { code = fill totp_length next; active_index = min (length next) (totp_length - 1) }
    else if ltb (length prev) (length next)
    then insert_digit code prev next active
    else delete_at code (clamp_index active)

-- `applyTotpEdit`
unfoldable pub apply_totp_edit : Boxes → List ℕ → ℕ → TotpEditResult
unfolding edit join_boxes only_digits
apply_totp_edit previous next_text active =
    edit previous (join_boxes previous) (take totp_length (only_digits next_text)) active
