-- ===== src/Transition/Examples.antt =====
-- The runner's properties at two steps that count in a number
-- (apps/server/src/core/transitions/transitionRunner.ts).
use purrivacy_app.Prelude.{ℕ, ◌+◌, ◌≡◌, refl, String, none, some, List, [], ◌∷◌}
use purrivacy_app.Server.Errors.{ok}
use purrivacy_app.Transition.Runner.{
  Task, TransitionStore, completed, Execution, stored_names, execute_transition,
}
use purrivacy_app.Transition.Resume.{pending, recorded_steps_not_rerun}

abbrev add : String → ℕ → Task ℕ ℕ
add name n = record { name = name; run = λ s. (s + n, ok (some n)) }

abbrev tasks : List (Task ℕ ℕ)
tasks = add "enable" 1 ∷ add "notify" 10 ∷ []

-- A store that has recorded the first step.
abbrev store : TransitionStore ℕ ℕ
store = record {
  read = λ s. ok (some (record { steps = ("enable", some 1) ∷ [] }));
  complete = λ name r s. (s, ok tt);
  clear = λ s. (s, ok tt);
}

abbrev outcome : Execution ℕ
outcome = record {
  status = completed;
  completed_steps = "enable" ∷ "notify" ∷ [];
  failed_step = none;
  error = none;
  results = ("enable", some 1) ∷ ("notify", some 10) ∷ [];
}

recorded_steps_not_rerun_example :
    execute_transition (some store) tasks 0
    ≡ execute_transition (some store) (pending ("enable" ∷ []) tasks) 0
unfolding stored_names
recorded_steps_not_rerun_example =
    recorded_steps_not_rerun store tasks 0 (record { steps = ("enable", some 1) ∷ [] }) refl
