-- ===== src/TotpInput/Examples.antt =====
-- Tests and examples on the boxes (apps/mobile/src/features/mfa/domain/totpEdit.test.ts).
use purrivacy_app.Prelude.{◌≡◌, refl, none, some, [], ◌∷◌, arith}
use purrivacy_app.TotpInput.Edit.{Boxes, apply_totp_edit}
use purrivacy_app.TotpInput.Boxes.{IsInput, apply_totp_edit-IsInput}

abbrev with_hole : Boxes
with_hole = some b'1' ∷ none ∷ some b'3' ∷ none ∷ none ∷ none ∷ []

abbrev full : Boxes
full = some b'1' ∷ some b'2' ∷ some b'3' ∷ some b'4' ∷ some b'5' ∷ some b'6' ∷ []

typed_into_hole : apply_totp_edit with_hole (b'1' ∷ b'3' ∷ b'9' ∷ []) 1 ≡ record {
  code = some b'1' ∷ some b'9' ∷ some b'3' ∷ none ∷ none ∷ none ∷ [];
  active_index = 2;
}
unfolding apply_totp_edit
typed_into_hole = refl

apply_totp_edit-IsInput_example : IsInput (apply_totp_edit with_hole (b'1' ∷ []) 2)
apply_totp_edit-IsInput_example = apply_totp_edit-IsInput with_hole (b'1' ∷ []) 2 refl (omega arith)
