-- ===== src/OperationCenter/Examples.antt =====
-- Tests and examples on the operation center.
use Prim.Native.String.{String}
use purrivacy_app.Prelude.{refl, false, none, some, List, [], ◌∷◌, arith, same_text}
use purrivacy_app.OperationCenter.State.{
  OperationRecord, Operations, OperationCenterAction, OperationStatus, running, succeeded, generic,
  started, updated, dismiss, has_id, filter_operations,
}
use purrivacy_app.OperationCenter.Filters.{HaveDistinctIds}
use purrivacy_app.OperationCenter.Pruned.{IsPruned, run_actions, run_actions-IsPruned}

abbrev operation : String → OperationStatus → OperationRecord
operation name state = record {
  id = name;
  kind = generic;
  title = "Working";
  detail = none;
  started_at = 1;
  finished_at = none;
  status = state;
  phase = none;
  progress = none;
  result = none;
  result_summary = none;
  error = none;
  seen = false;
}

abbrev two_operations : Operations
two_operations = operation "op-2" running ∷ operation "op-1" succeeded ∷ []

two_operations-HaveDistinctIds : HaveDistinctIds two_operations
unfolding has_id same_text
two_operations-HaveDistinctIds = (refl, (refl, tt))

abbrev three_actions : List OperationCenterAction
three_actions =
    started (operation "op-1" running)
    ∷ updated "op-1" (λ op. record op { status = succeeded; finished_at = some 2 })
    ∷ dismiss "op-1"
    ∷ []

run_actions-IsPruned_example : IsPruned (run_actions [] three_actions)
unfolding filter_operations
run_actions-IsPruned_example =
    run_actions-IsPruned [] three_actions (tt, ((λ op. refl), (tt, tt))) (tt, omega arith)
