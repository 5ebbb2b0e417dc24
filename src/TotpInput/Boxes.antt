-- ===== src/TotpInput/Boxes.antt =====
-- The boxes after an edit (apps/mobile/src/features/mfa/domain/totpEdit.ts).
use purrivacy_app.Prelude.{
  ℕ, zero, suc, ◌+◌, ◌≤◌, ◌<◌, ◌≡◌, refl, ◌∙◌, true, false, Option, none, List, [], ◌∷◌, arith,
  length, take, ltb, ◌==◌, if_elim, ap,
}
use purrivacy_app.TotpInput.Edit.{
  totp_length, Boxes, TotpEditResult, clamp_index, join_boxes, only_digits, first_difference,
  set_box, box_at, is_filled, fill, insert_digit, delete_at, edit, apply_totp_edit,
}

length-set_box :
    (n : ℕ) (box : Option ℕ) (boxes : Boxes)
    → n < length boxes
    → length (set_box n box boxes) ≡ length boxes
unfolding set_box
length-set_box n box [] h = absurd (omega (arith, h))
length-set_box zero box (other ∷ boxes) h = refl
length-set_box (suc n) box (other ∷ boxes) h =
    ap suc (length-set_box n box boxes (omega (arith, h)))

length-fill : (n : ℕ) (digits : List ℕ) → length (fill n digits) ≡ n
unfolding fill
length-fill zero digits = refl
length-fill (suc n) [] = ap suc (length-fill n [])
length-fill (suc n) (c ∷ digits) = ap suc (length-fill n digits)

-- Six boxes, and an index of one of them
abbrev pub IsInput : TotpEditResult → Type 0
IsInput result = (length result.code ≡ totp_length) × (result.active_index < totp_length)

delete_at-IsInput :
    (code : Boxes) (n : ℕ)
    → length code ≡ totp_length
    → n < totp_length
    → IsInput (delete_at code n)
unfolding delete_at
delete_at-IsInput code zero six h =
    let cleared = length-set_box 0 none code (omega (arith, six)) ∙ six in
    if_elim IsInput (is_filled (box_at 0 code)) _ _ (λ filled. (cleared, omega arith))
      (λ empty. (six, omega arith))
delete_at-IsInput code (suc n) six h =
    let cleared = length-set_box (suc n) none code (omega (arith, six, h)) ∙ six in
    let before = length-set_box n none code (omega (arith, six, h)) ∙ six in
    if_elim IsInput (is_filled (box_at (suc n) code)) _ _ (λ filled. (cleared, h))
      (λ empty.
        if_elim IsInput (is_filled (box_at n code)) _ _ (λ filled. (before, omega (arith, h)))
          (λ empty'. (six, omega (arith, h))))

clamp_lt : (n : ℕ) → clamp_index n < totp_length
unfolding clamp_index
clamp_lt n = ground arith

insert_digit-IsInput :
    (code : Boxes) (prev next : List ℕ) (active : ℕ)
    → length code ≡ totp_length
    → IsInput (insert_digit code prev next active)
unfolding insert_digit
insert_digit-IsInput code prev next active six = (
  length-set_box (clamp_index active) (first_difference prev next) code
        (omega (arith, six, clamp_lt active))
      ∙ six,
  ground arith,
)

-- After every edit there are six boxes, and the active index is one of theirs, if both held before.
pub apply_totp_edit-IsInput :
    (previous : Boxes) (next_text : List ℕ) (active : ℕ)
    → length previous ≡ totp_length
    → active < totp_length
    → IsInput (apply_totp_edit previous next_text active)
unfolding apply_totp_edit edit
apply_totp_edit-IsInput previous next_text active six h =
    let prev = join_boxes previous in
    let next = take totp_length (only_digits next_text) in
    if_elim IsInput (length next == length prev) _ _ (λ same. (six, h))
      (λ differ.
        if_elim IsInput (ltb (length prev + 1) (length next)) _ _
          (λ many. (length-fill totp_length next, ground arith))
          (λ few.
            if_elim IsInput (ltb (length prev) (length next)) _ _
              (λ longer. insert_digit-IsInput previous prev next active six)
              (λ shorter. delete_at-IsInput previous (clamp_index active) six (clamp_lt active))))

box_at-set_box_other :
    (n j : ℕ) (box : Option ℕ) (boxes : Boxes)
    → n < length boxes
    → (j == n) ≡ false
    → box_at j (set_box n box boxes) ≡ box_at j boxes
unfolding set_box box_at
box_at-set_box_other n j box [] h differ = absurd (omega (arith, h))
box_at-set_box_other zero zero box (other ∷ boxes) h differ = absurd (ground arith)
box_at-set_box_other zero (suc j) box (other ∷ boxes) h differ = refl
box_at-set_box_other (suc n) zero box (other ∷ boxes) h differ = refl
box_at-set_box_other (suc n) (suc j) box (other ∷ boxes) h differ =
    box_at-set_box_other n j box boxes (omega (arith, h)) (ground arith)

delete_at-other :
    (code : Boxes) (n j : ℕ)
    → n < length code
    → (j == n) ≡ false
    → (j + 1 == n) ≡ false
    → box_at j (delete_at code n).code ≡ box_at j code
unfolding delete_at
delete_at-other code zero j h here before =
    if_elim (λ (r : TotpEditResult). box_at j r.code ≡ box_at j code) (is_filled (box_at 0 code)) _
      _ (λ filled. box_at-set_box_other 0 j none code h here) (λ empty. refl)
delete_at-other code (suc n) j h here before =
    if_elim (λ (r : TotpEditResult). box_at j r.code ≡ box_at j code)
      (is_filled (box_at (suc n) code)) _ _
      (λ filled. box_at-set_box_other (suc n) j none code h here)
      (λ empty.
        if_elim (λ (r : TotpEditResult). box_at j r.code ≡ box_at j code)
          (is_filled (box_at n code)) _ _
          (λ filled. box_at-set_box_other n j none code (omega (arith, h)) (ground (arith, before)))
          (λ empty'. refl))

-- An edit of six boxes by which the text grows by one digit at most changes no box but the tapped
-- one and the one before it: no digit is shifted.
pub edit_is_positional :
    (previous : Boxes) (next_text : List ℕ) (active j : ℕ)
    → length previous ≡ totp_length
    → ltb (length (join_boxes previous) + 1) (length (take totp_length (only_digits next_text)))
      ≡ false
    → (j == clamp_index active) ≡ false
    → (j + 1 == clamp_index active) ≡ false
    → box_at j (apply_totp_edit previous next_text active).code ≡ box_at j previous
unfolding apply_totp_edit edit insert_digit
edit_is_positional previous next_text active j six few here before =
    let prev = join_boxes previous in
    let next = take totp_length (only_digits next_text) in
    let inside : clamp_index active < length previous = omega (arith, six, clamp_lt active) in
    rw few (
      if_elim (λ (r : TotpEditResult). box_at j r.code ≡ box_at j previous)
        (length next == length prev) _ _ (λ same. refl)
        (λ differ.
          if_elim (λ (r : TotpEditResult). box_at j r.code ≡ box_at j previous)
            (ltb (length prev) (length next)) _ _
            (λ longer.
              box_at-set_box_other (clamp_index active) j (first_difference prev next) previous
                inside here)
            (λ shorter. delete_at-other previous (clamp_index active) j inside here before)))

length-take_all : (n : ℕ) (text : List ℕ) → n ≤ length text → length (take n text) ≡ n
length-take_all zero text h = refl
length-take_all (suc n) [] h = absurd (omega (arith, h))
length-take_all (suc n) (c ∷ text) h = ap suc (length-take_all n text (omega (arith, h)))

-- When all six boxes are filled and the new text has six digits or more, an edit changes nothing,
-- also in a tapped box.
pub full_input_ignores_typing :
    (previous : Boxes) (next_text : List ℕ) (active : ℕ)
    → length (join_boxes previous) ≡ totp_length
    → totp_length ≤ length (only_digits next_text)
    → apply_totp_edit previous next_text active ≡ record { code = previous; active_index = active }
unfolding apply_totp_edit edit
full_input_ignores_typing previous next_text active full typed =
    let six : (length (take totp_length (only_digits next_text)) == length (join_boxes previous))
        ≡ true =
      ground (arith, length-take_all totp_length (only_digits next_text) typed, full) in
    rw six refl
