-- ===== src/OperationCenter/Pruned.antt =====
-- What stays in the operation center (apps/mobile/src/app/state/operationCenterState.ts).
use mathlib.Core.Path.{subst}
use Prim.Native.String.{String}
use purrivacy_app.Prelude.{
  ◌≤◌, ◌≡◌, refl, sym, ap, ◌∙◌, Bool, true, false, not, ◌&&◌, ◌||◌, List, [], ◌∷◌, arith, length,
  take, leb, same_text, if_elim,
}
use purrivacy_app.OperationCenter.State.{
  OperationRecord, Operations, OperationCenterAction, started, updated, mark_seen, dismiss,
  clear_finished, max_finished_operations, is_running, is_finished, has_id, change_at,
  filter_operations, operation_center_reducer, prune_operations, pruned_operation_center_reducer,
}
use purrivacy_app.OperationCenter.Filters.{
  HaveDistinctIds, finished, still_running, take_few, length-take_le, AllAgree, filter_of_agreeing,
  filter-filter, filter-kept, filter-HaveDistinctIds,
}

finished_test : (b c : Bool) → ((not b || c) && b) ≡ (b && c)
finished_test true true = refl
finished_test true false = refl
finished_test false c = refl

AllAgree-tests :
    (p q : OperationRecord → Bool) (operations : Operations)
    → ((op : OperationRecord) → p op ≡ q op)
    → AllAgree p q operations
AllAgree-tests p q [] h = tt
AllAgree-tests p q (op ∷ operations) h = (h op, AllAgree-tests p q operations h)

-- The finished records after pruning
finished-prune :
    (operations : Operations)
    → HaveDistinctIds operations
    → finished (prune_operations operations) ≡ take max_finished_operations (finished operations)
unfolding prune_operations
finished-prune operations distinct =
    let kept = take max_finished_operations (finished operations) in
    let test : OperationRecord → Bool = λ op. not (is_finished op) || has_id op.id kept in
    if_elim (λ xs. finished xs ≡ kept) (leb (length (finished operations)) max_finished_operations)
      operations (filter_operations test operations)
      (λ few. sym (take_few max_finished_operations (finished operations) (ground arith)))
      (λ many.
        filter-filter is_finished test operations
        ∙ filter_of_agreeing _ _ operations
            (AllAgree-tests _ _ operations λ op. finished_test (is_finished op) (has_id op.id kept))
        ∙ sym (filter-filter (λ op. has_id op.id kept) is_finished operations)
        ∙ filter-kept max_finished_operations (finished operations)
            (filter-HaveDistinctIds is_finished operations distinct))

running_test : (b c : Bool) → ((not (not b) || c) && b) ≡ b
running_test true c = refl
running_test false true = refl
running_test false false = refl

-- The running records after pruning
running-prune :
    (operations : Operations)
    → still_running (prune_operations operations) ≡ still_running operations
unfolding prune_operations
running-prune operations =
    let kept = take max_finished_operations (finished operations) in
    let test : OperationRecord → Bool = λ op. not (is_finished op) || has_id op.id kept in
    if_elim (λ xs. still_running xs ≡ still_running operations)
      (leb (length (finished operations)) max_finished_operations) operations
      (filter_operations test operations) (λ few. refl)
      (λ many.
        filter-filter (λ op. is_running op.status) test operations
        ∙ filter_of_agreeing _ _ operations (
            AllAgree-tests _ _ operations
              λ op. running_test (is_running op.status) (has_id op.id kept)))

-- Pruning keeps every running record, and of the finished ones the ten newest, in their order, if
-- the ids are distinct.
pub prune_keeps :
    (operations : Operations)
    → HaveDistinctIds operations
    → (still_running (prune_operations operations) ≡ still_running operations)
      × (finished (prune_operations operations)
          ≡ take max_finished_operations (finished operations))
prune_keeps operations distinct = (running-prune operations, finished-prune operations distinct)

-- The action changes no id.
abbrev pub KeepsIds : OperationCenterAction → Type 0
KeepsIds (updated id patch) = (op : OperationRecord) → (patch op).id ≡ op.id
KeepsIds _ = Unit {0}

has_id-change_at :
    (j id : String) (change : OperationRecord → OperationRecord) (operations : Operations)
    → ((op : OperationRecord) → (change op).id ≡ op.id)
    → has_id j (change_at id change operations) ≡ has_id j operations
unfolding has_id change_at
has_id-change_at j id change [] keeps = refl
has_id-change_at j id change (op ∷ operations) keeps =
    ground (arith, keeps op, has_id-change_at j id change operations keeps)

change_at-HaveDistinctIds :
    (id : String) (change : OperationRecord → OperationRecord) (operations : Operations)
    → ((op : OperationRecord) → (change op).id ≡ op.id)
    → HaveDistinctIds operations
    → HaveDistinctIds (change_at id change operations)
unfolding change_at
change_at-HaveDistinctIds id change [] keeps distinct = tt
change_at-HaveDistinctIds id change (op ∷ operations) keeps distinct = (
  if_elim (λ (r : OperationRecord). has_id r.id (change_at id change operations) ≡ false)
      (same_text op.id id) _ _
      (λ same.
        ap (λ j. has_id j (change_at id change operations)) (keeps op)
        ∙ has_id-change_at op.id id change operations keeps
        ∙ distinct.0)
      (λ differs. has_id-change_at op.id id change operations keeps ∙ distinct.0),
  change_at-HaveDistinctIds id change operations keeps distinct.1,
)

reducer-HaveDistinctIds :
    (operations : Operations) (action : OperationCenterAction)
    → KeepsIds action
    → HaveDistinctIds operations
    → HaveDistinctIds (operation_center_reducer operations action)
unfolding operation_center_reducer
reducer-HaveDistinctIds operations (started r) keeps distinct =
    if_elim HaveDistinctIds (has_id r.id operations) _ _ (λ there. distinct)
      (λ new. (new, distinct))
reducer-HaveDistinctIds operations (updated id patch) keeps distinct =
    change_at-HaveDistinctIds id patch operations keeps distinct
reducer-HaveDistinctIds operations (mark_seen id) keeps distinct =
    change_at-HaveDistinctIds id (λ op. record op { seen = true }) operations (λ op. refl) distinct
reducer-HaveDistinctIds operations (dismiss id) keeps distinct =
    filter-HaveDistinctIds _ operations distinct
reducer-HaveDistinctIds operations clear_finished keeps distinct =
    filter-HaveDistinctIds _ operations distinct

prune-HaveDistinctIds :
    (operations : Operations)
    → HaveDistinctIds operations
    → HaveDistinctIds (prune_operations operations)
unfolding prune_operations
prune-HaveDistinctIds operations distinct =
    if_elim HaveDistinctIds (leb (length (finished operations)) max_finished_operations) _ _
      (λ few. distinct) (λ many. filter-HaveDistinctIds _ operations distinct)

-- The center's states after a list of actions
abbrev pub run_actions : Operations → List OperationCenterAction → Operations
run_actions operations [] = operations
run_actions operations (action ∷ actions) =
    run_actions (pruned_operation_center_reducer operations action) actions

abbrev pub AllKeepIds : List OperationCenterAction → Type 0
AllKeepIds [] = Unit {0}
AllKeepIds (action ∷ actions) = KeepsIds action × AllKeepIds actions

-- The ids are distinct, and at most ten records are finished.
abbrev pub IsPruned : Operations → Type 0
IsPruned operations =
    HaveDistinctIds operations × (length (finished operations) ≤ max_finished_operations)

-- Actions that change no id keep the ids distinct and the finished records at most ten, if both
-- held before.
pub run_actions-IsPruned :
    (operations : Operations) (actions : List OperationCenterAction)
    → AllKeepIds actions
    → IsPruned operations
    → IsPruned (run_actions operations actions)
unfolding pruned_operation_center_reducer
run_actions-IsPruned operations [] keep pruned = pruned
run_actions-IsPruned operations (action ∷ actions) keep pruned =
    let next = operation_center_reducer operations action in
    let distinct = reducer-HaveDistinctIds operations action keep.0 pruned.0 in
    run_actions-IsPruned (prune_operations next) actions keep.1 (
      prune-HaveDistinctIds next distinct,
      subst (λ (xs : Operations). length xs ≤ max_finished_operations)
          (sym (finished-prune next distinct))
          (length-take_le max_finished_operations (finished next)),
    )
