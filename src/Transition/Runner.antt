-- ===== src/Transition/Runner.antt =====
-- `executeTransition` (apps/server/src/core/transitions/transitionRunner.ts). `S` is the state that the
-- steps and the progress store act on, `R` the type of their results; `none` is `undefined`. Steps and
-- store are arguments, as they are in the source.
use purrivacy_app.Prelude.{
  String, Bool, true, false, Option, none, some, List, [], ◌∷◌, ◌++◌, same_text, if◌then◌else◌,
}
use purrivacy_app.Prelude.Dict.{Dict, insert}
use purrivacy_app.Server.Errors.{AppError, Result, ok, err}

-- `TransitionStep`
pub record Task (S R : Type 0) : Type 0 where
  pub name : String
  pub run : S → S × Result (Option R)

-- `TransitionProgress`: the results of the completed steps; the times are not read
pub record Progress (R : Type 0) : Type 0 where
  pub steps : Dict (Option R)

-- `TransitionStore`
pub record TransitionStore (S R : Type 0) : Type 0 where
  pub read : S → Result (Option (Progress R))
  pub complete : String → Option R → S → S × Result (Unit {0})
  pub clear : S → S × Result (Unit {0})

pub data Status : Type 0 where
  completed failed : Status

-- `TransitionExecution`
pub record Execution (R : Type 0) : Type 0 where
  pub status : Status
  pub completed_steps : List String
  pub failed_step : Option String
  pub error : Option AppError
  pub results : Dict (Option R)

-- `completedSteps.includes`
unfoldable pub includes : String → List String → Bool
includes name [] = false
includes name (n ∷ ns) = if same_text n name then true else includes name ns

module _ {R : Type 0} where
  -- The loop over the stored progress: names of completed steps and results that are there.
  unfoldable pub stored_results : Dict (Option R) → Dict (Option R) → Dict (Option R)
  stored_results [] results = results
  stored_results ((name, none) ∷ steps) results = stored_results steps results
  stored_results ((name, some r) ∷ steps) results =
      stored_results steps (insert name (some r) results)

  unfoldable pub stored_names : Dict (Option R) → List String
  stored_names [] = []
  stored_names ((name, r) ∷ steps) = name ∷ stored_names steps

  unfoldable pub failed_at : String → AppError → List String → Dict (Option R) → Execution R
  failed_at name e names results = record {
    status = failed;
    completed_steps = names;
    failed_step = some name;
    error = some e;
    results = results;
  }

module _ {S R : Type 0} where
  -- `store.complete`, where there is a store
  unfoldable pub record_step :
      Option (TransitionStore S R) → String → Option R → S → S × Result (Unit {0})
  record_step none name r s = (s, ok tt)
  record_step (some store) name r s = store.complete name r s

  unfoldable pub after_record :
      String
      → List String
      → Dict (Option R)
      → (S → S × Execution R)
      → S × Result (Unit {0})
      → S × Execution R
  unfolding failed_at
  after_record name names results next (s, ok u) = next s
  after_record name names results next (s, err e) = (s, failed_at name e names results)

  -- What follows the step's own run: `next` is the rest of the loop.
  unfoldable pub after_run :
      Option (TransitionStore S R)
      → String
      → List String
      → Dict (Option R)
      → (List String → Dict (Option R) → S → S × Execution R)
      → S × Result (Option R)
      → S × Execution R
  unfolding failed_at after_record record_step
  after_run store name names results next (s, err e) = (s, failed_at name e names results)
  after_run store name names results next (s, ok r) =
      let names' = names ++ (name ∷ []) in
      let results' = insert name r results in
      after_record name names' results' (next names' results') (record_step store name r s)

  -- `store.clear`, whose failure is logged and ignored
  unfoldable pub clear_store : Option (TransitionStore S R) → S → S
  clear_store none s = s
  clear_store (some store) s = (store.clear s).0

  -- The loop over the steps, and the end.
  unfoldable pub run_steps :
      Option (TransitionStore S R)
      → List (Task S R)
      → List String
      → Dict (Option R)
      → S
      → S × Execution R
  unfolding after_run clear_store includes
  run_steps store [] names results s = (
    clear_store store s,
    record {
      status = completed;
      completed_steps = names;
      failed_step = none;
      error = none;
      results = results;
    },
  )
  run_steps store (t ∷ ts) names results s =
      if includes t.name names
      then run_steps store ts names results s
      else after_run store t.name names results (run_steps store ts) (t.run s)

  unfoldable pub read_progress : Option (TransitionStore S R) → S → Result (Option (Progress R))
  read_progress none s = ok none
  read_progress (some store) s = store.read s

  start :
      Option (TransitionStore S R)
      → List (Task S R)
      → S
      → Result (Option (Progress R))
      → S × Result (Execution R)
  unfolding run_steps stored_names stored_results
  start store ts s (err e) = (s, err e)
  start store ts s (ok none) = let (s', x) = run_steps store ts [] [] s in (s', ok x)
  start store ts s (ok (some progress)) =
      let (s', x) =
        run_steps store ts (stored_names progress.steps) (stored_results progress.steps []) s in
      (s', ok x)

  -- `executeTransition`; only a failing `store.read` makes it throw
  unfoldable pub execute_transition :
      Option (TransitionStore S R) → List (Task S R) → S → S × Result (Execution R)
  unfolding start read_progress
  execute_transition store ts s = start store ts s (read_progress store s)
