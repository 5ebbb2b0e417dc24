-- ===== src/Updates/Ordered.antt =====
-- The order of versions (apps/mobile/src/features/updates/services/updateVersion.ts).
use purrivacy_app.Prelude.{ℕ, String, ◌≡◌, refl, some, List, [], ◌∷◌, arith, ◌∙◌, ap, sym}
use purrivacy_app.Updates.Version.{
  Order, less, same, greater, by_part, compare_parts, parse_version_parts, compare_parsed,
  compare_versions,
}

abbrev flip : Order → Order
flip less = greater
flip same = same
flip greater = less

by_part-flip : (l r : ℕ) (x : Order) → by_part r l (flip x) ≡ flip (by_part l r x)
unfolding by_part
by_part-flip l r x = ground arith

compare_parts-flip : (ls rs : List ℕ) → compare_parts rs ls ≡ flip (compare_parts ls rs)
unfolding compare_parts
compare_parts-flip [] [] = refl
compare_parts-flip [] (r ∷ rs) =
    ap (by_part r 0) (compare_parts-flip [] rs) ∙ by_part-flip 0 r (compare_parts [] rs)
compare_parts-flip (l ∷ ls) [] =
    ap (by_part 0 l) (compare_parts-flip ls []) ∙ by_part-flip l 0 (compare_parts ls [])
compare_parts-flip (l ∷ ls) (r ∷ rs) =
    ap (by_part r l) (compare_parts-flip ls rs) ∙ by_part-flip l r (compare_parts ls rs)

-- How the comparison of a first and a third follows from those with a second
abbrev Follows : Order → Order → Order → Type 0
Follows x y z =
    (x ≡ same → z ≡ y)
    × (y ≡ same → z ≡ x)
    × (x ≡ greater → y ≡ greater → z ≡ greater)
    × (x ≡ less → y ≡ less → z ≡ less)

by_part-Follows :
    (l m r : ℕ) (x y z : Order)
    → Follows x y z
    → Follows (by_part l m x) (by_part m r y) (by_part l r z)
unfolding by_part
by_part-Follows l m r x y z h = ground arith

compare_parts-Follows :
    (ls ms rs : List ℕ) → Follows (compare_parts ls ms) (compare_parts ms rs) (compare_parts ls rs)
unfolding compare_parts
compare_parts-Follows [] [] [] = (λ h. refl, λ h. refl, λ h k. cc, λ h k. cc)
compare_parts-Follows [] [] (r ∷ rs) =
    by_part-Follows 0 0 r same (compare_parts [] rs) (compare_parts [] rs)
      (compare_parts-Follows [] [] rs)
compare_parts-Follows [] (m ∷ ms) [] =
    by_part-Follows 0 m 0 (compare_parts [] ms) (compare_parts ms []) same
      (compare_parts-Follows [] ms [])
compare_parts-Follows [] (m ∷ ms) (r ∷ rs) =
    by_part-Follows 0 m r (compare_parts [] ms) (compare_parts ms rs) (compare_parts [] rs)
      (compare_parts-Follows [] ms rs)
compare_parts-Follows (l ∷ ls) [] [] =
    by_part-Follows l 0 0 (compare_parts ls []) same (compare_parts ls [])
      (compare_parts-Follows ls [] [])
compare_parts-Follows (l ∷ ls) [] (r ∷ rs) =
    by_part-Follows l 0 r (compare_parts ls []) (compare_parts [] rs) (compare_parts ls rs)
      (compare_parts-Follows ls [] rs)
compare_parts-Follows (l ∷ ls) (m ∷ ms) [] =
    by_part-Follows l m 0 (compare_parts ls ms) (compare_parts ms []) (compare_parts ls [])
      (compare_parts-Follows ls ms [])
compare_parts-Follows (l ∷ ls) (m ∷ ms) (r ∷ rs) =
    by_part-Follows l m r (compare_parts ls ms) (compare_parts ms rs) (compare_parts ls rs)
      (compare_parts-Follows ls ms rs)

-- Of three versions whose parts are numbers, if the first is greater than the second and the second
-- than the third, then the first is greater than the third and the third less than the first: updates
-- to greater versions never lead back.
pub greater_versions_are_ordered :
    (a b c : String) (ls ms rs : List ℕ)
    → parse_version_parts a ≡ some ls
    → parse_version_parts b ≡ some ms
    → parse_version_parts c ≡ some rs
    → compare_versions a b ≡ greater
    → compare_versions b c ≡ greater
    → (compare_versions a c ≡ greater) × (compare_versions c a ≡ less)
unfolding compare_versions compare_parsed
greater_versions_are_ordered a b c ls ms rs pa pb pc ab bc =
    let first : compare_parts ls ms ≡ greater = sym (rw (pa, pb) refl) ∙ ab in
    let second : compare_parts ms rs ≡ greater = sym (rw (pb, pc) refl) ∙ bc in
    let third = (compare_parts-Follows ls ms rs).2 first second in
    (rw (pa, pc) third, rw (pc, pa) (compare_parts-flip ls rs ∙ ap flip third))
