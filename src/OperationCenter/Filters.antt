-- ===== src/OperationCenter/Filters.antt =====
-- Filtering the records of the operation center
-- (apps/mobile/src/app/state/operationCenterState.ts).
use Prim.Native.String.{String}
use purrivacy_app.Prelude.{
  ℕ, zero, suc, ◌≤◌, ◌≡◌, refl, ap, ◌∙◌, Bool, false, ◌&&◌, [], ◌∷◌, arith, length, take,
  same_text_iff, if_elim,
}
use purrivacy_app.OperationCenter.State.{
  OperationRecord, Operations, is_running, is_finished, has_id, filter_operations,
}

-- No two records have the same id.
abbrev pub HaveDistinctIds : Operations → Type 0
HaveDistinctIds [] = Unit {0}
HaveDistinctIds (op ∷ operations) = (has_id op.id operations ≡ false) × HaveDistinctIds operations

abbrev pub finished : Operations → Operations
finished operations = filter_operations is_finished operations

abbrev pub still_running : Operations → Operations
still_running operations = filter_operations (λ op. is_running op.status) operations

pub take_few :
    (n : ℕ) (operations : Operations) → length operations ≤ n → take n operations ≡ operations
take_few zero [] h = refl
take_few zero (op ∷ operations) h = absurd (omega (arith, h))
take_few (suc n) [] h = refl
take_few (suc n) (op ∷ operations) h =
    ap (λ ops. op ∷ ops) (take_few n operations (omega (arith, h)))

pub length-take_le : (n : ℕ) (operations : Operations) → length (take n operations) ≤ n
length-take_le zero operations = omega arith
length-take_le (suc n) [] = omega arith
length-take_le (suc n) (op ∷ operations) = omega (arith, length-take_le n operations)

abbrev pub AllAgree : (p q : OperationRecord → Bool) → Operations → Type 0
AllAgree p q [] = Unit {0}
AllAgree p q (op ∷ operations) = (p op ≡ q op) × AllAgree p q operations

pub filter_of_agreeing :
    (p q : OperationRecord → Bool) (operations : Operations)
    → AllAgree p q operations
    → filter_operations p operations ≡ filter_operations q operations
unfolding filter_operations
filter_of_agreeing p q [] h = refl
filter_of_agreeing p q (op ∷ operations) h = rw (h.0, filter_of_agreeing p q operations h.1) refl

pub filter-filter :
    (p q : OperationRecord → Bool) (operations : Operations)
    → filter_operations p (filter_operations q operations)
      ≡ filter_operations (λ op. q op && p op) operations
unfolding filter_operations
filter-filter p q [] = refl
filter-filter p q (op ∷ operations) = ground (arith, filter-filter p q operations)

filter_none : (operations : Operations) → filter_operations (λ op. false) operations ≡ []
unfolding filter_operations
filter_none [] = refl
filter_none (op ∷ operations) = filter_none operations

-- Records with other ids are found among the same records without one of them.
AllAgree-other :
    (op : OperationRecord) (kept operations : Operations)
    → has_id op.id operations ≡ false
    → AllAgree (λ other. has_id other.id (op ∷ kept)) (λ other. has_id other.id kept) operations
unfolding has_id
AllAgree-other op kept [] h = tt
AllAgree-other op kept (other ∷ operations) h = (
  ground (arith, same_text_iff op.id other.id, same_text_iff other.id op.id),
  AllAgree-other op kept operations (ground arith),
)

pub filter-kept :
    (n : ℕ) (operations : Operations)
    → HaveDistinctIds operations
    → filter_operations (λ op. has_id op.id (take n operations)) operations ≡ take n operations
unfolding filter_operations has_id
filter-kept zero operations distinct = filter_none operations
filter-kept (suc n) [] distinct = refl
filter-kept (suc n) (op ∷ operations) distinct =
    let rest =
      filter_of_agreeing _ _ operations
        (AllAgree-other op (take n operations) operations distinct.0)
      ∙ filter-kept n operations distinct.1 in
    ground (arith, same_text_iff op.id op.id, rest)

has_id-filter :
    (id : String) (p : OperationRecord → Bool) (operations : Operations)
    → has_id id operations ≡ false
    → has_id id (filter_operations p operations) ≡ false
unfolding has_id filter_operations
has_id-filter id p [] h = refl
has_id-filter id p (op ∷ operations) h = ground (arith, has_id-filter id p operations)

pub filter-HaveDistinctIds :
    (p : OperationRecord → Bool) (operations : Operations)
    → HaveDistinctIds operations
    → HaveDistinctIds (filter_operations p operations)
unfolding filter_operations
filter-HaveDistinctIds p [] distinct = tt
filter-HaveDistinctIds p (op ∷ operations) distinct =
    if_elim HaveDistinctIds (p op) _ _
      (λ kept. (
        has_id-filter op.id p operations distinct.0,
        filter-HaveDistinctIds p operations distinct.1,
      ))
      (λ left. filter-HaveDistinctIds p operations distinct.1)
