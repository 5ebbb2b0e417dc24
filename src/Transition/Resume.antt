-- ===== src/Transition/Resume.antt =====
-- The steps that a transition runs and those that its progress records
-- (apps/server/src/core/transitions/transitionRunner.ts).
use purrivacy_app.Prelude.{
  String, ◌≡◌, inl, inr, refl, Bool, true, false, Option, none, some, List, [], ◌∷◌, ◌++◌,
  same_text_iff, if◌then◌else◌, if_elim, arith, Bool-cases, ◌∙◌, ap,
}
use purrivacy_app.Prelude.Dict.{Dict, insert}
use purrivacy_app.Server.Errors.{AppError, Result, ok, err, Result-cases}
use purrivacy_app.Transition.Runner.{
  Task, Progress, TransitionStore, completed, failed_at, Execution, includes, stored_names,
  stored_results, record_step, after_record, after_run, run_steps, read_progress,
  execute_transition,
}

includes-append :
    (name : String) (xs ys : List String)
    → includes name (xs ++ ys) ≡ (if includes name xs then true else includes name ys)
unfolding includes
includes-append name [] ys = refl
includes-append name (x ∷ xs) ys = ground (arith, includes-append name xs ys)

includes_last : (name : String) (names : List String) → includes name (names ++ (name ∷ [])) ≡ true
unfolding includes
includes_last name [] = ground (arith, same_text_iff name name)
includes_last name (n ∷ ns) = ground (arith, includes_last name ns)

module _ {S R : Type 0} where
  -- Every name of the tasks is in the list.
  abbrev pub all_included : List (Task S R) → List String → Bool
  all_included [] names = true
  all_included (t ∷ ts) names = if includes t.name names then all_included ts names else false

  after_record_cases {κ} :
      (P : S × Execution R → Type κ) (name : String) (names : List String)
      (results : Dict (Option R)) (next : S → S × Execution R) (y : S × Result (Unit {0}))
      → ((s' : S) (e : AppError) → P (s', failed_at name e names results))
      → ((s' : S) → P (next s'))
      → P (after_record name names results next y)
  unfolding after_record
  after_record_cases P name names results next (s, ok u) fails goes = goes s
  after_record_cases P name names results next (s, err e) fails goes = fails s e

  -- A task that is run fails, or the loop goes on with the task recorded.
  after_run_cases {κ} :
      (P : S × Execution R → Type κ) (store : Option (TransitionStore S R)) (name : String)
      (names : List String) (results : Dict (Option R))
      (next : List String → Dict (Option R) → S → S × Execution R) (x : S × Result (Option R))
      → ((s' : S) (e : AppError) (names' : List String) (results' : Dict (Option R))
          → P (s', failed_at name e names' results'))
      → ((r : Option R) (s' : S) → P (next (names ++ (name ∷ [])) (insert name r results) s'))
      → P (after_run store name names results next x)
  unfolding after_run
  after_run_cases P store name names results next (s, err e) fails goes = fails s e names results
  after_run_cases P store name names results next (s, ok r) fails goes =
      after_record_cases P name (names ++ (name ∷ [])) (insert name r results)
        (next (names ++ (name ∷ [])) (insert name r results)) (record_step store name r s)
        (λ s' e. fails s' e _ _) (goes r)

  -- A completed run has the name among its completed steps.
  abbrev Covers : String → S × Execution R → Type 0
  Covers name x = x.1.status ≡ completed → includes name x.1.completed_steps ≡ true

  abbrev CoversAll : List (Task S R) → S × Execution R → Type 0
  CoversAll ts x = x.1.status ≡ completed → all_included ts x.1.completed_steps ≡ true

  run_steps-Covers :
      (name : String) (store : Option (TransitionStore S R)) (ts : List (Task S R))
      (names : List String) (results : Dict (Option R)) (s : S)
      → includes name names ≡ true
      → Covers name (run_steps store ts names results s)
  unfolding run_steps failed_at
  run_steps-Covers name store [] names results s h = λ done. h
  run_steps-Covers name store (t ∷ ts) names results s h =
      if_elim (Covers name) (includes t.name names) _ _
        (λ e. run_steps-Covers name store ts names results s h)
        (λ e.
          after_run_cases (Covers name) store t.name names results (run_steps store ts) (t.run s)
            (λ s' x n r d. cc)
            (λ r s'.
              run_steps-Covers name store ts (names ++ (t.name ∷ [])) (insert t.name r results) s'
                (ground (arith, includes-append name names (t.name ∷ [])))))

  first-CoversAll :
      (t : Task S R) (ts : List (Task S R)) (x : S × Execution R)
      → Covers t.name x
      → CoversAll ts x
      → CoversAll (t ∷ ts) x
  first-CoversAll t ts x first rest d = rw (first d) (rest d)

  run_steps-CoversAll :
      (store : Option (TransitionStore S R)) (ts : List (Task S R)) (names : List String)
      (results : Dict (Option R)) (s : S)
      → CoversAll ts (run_steps store ts names results s)
  unfolding run_steps failed_at
  run_steps-CoversAll store [] names results s = λ done. refl
  run_steps-CoversAll store (t ∷ ts) names results s =
      if_elim (CoversAll (t ∷ ts)) (includes t.name names) _ _
        (λ e.
          first-CoversAll t ts (run_steps store ts names results s)
            (run_steps-Covers t.name store ts names results s e)
            (run_steps-CoversAll store ts names results s))
        (λ e.
          after_run_cases (CoversAll (t ∷ ts)) store t.name names results (run_steps store ts)
            (t.run s) (λ s' x n r d. cc)
            (λ r s'.
              first-CoversAll t ts
                (run_steps store ts (names ++ (t.name ∷ [])) (insert t.name r results) s')
                (run_steps-Covers t.name store ts (names ++ (t.name ∷ [])) (insert t.name r results)
                  s' (includes_last t.name names))
                (run_steps-CoversAll store ts (names ++ (t.name ∷ [])) (insert t.name r results)
                  s')))

  -- A transition whose execution is reported as completed has every one of its steps among the
  -- completed steps, with or without a progress store, from whatever progress it started.
  pub completed_covers_steps :
      (store : Option (TransitionStore S R)) (ts : List (Task S R)) (s : S) {x : Execution R}
      → (execute_transition store ts s).1 ≡ ok x
      → x.status ≡ completed
      → all_included ts x.completed_steps ≡ true
  unfolding execute_transition
  completed_covers_steps store ts s {x} h done = elim (Result-cases (read_progress store s)) [
    | inr (e, bad) ↦ ground (arith, bad)
    | inl (none, fresh) ↦ ground (arith, fresh, run_steps-CoversAll store ts [] [] s)
    | inl (some p, found) ↦ ground (
      arith,
      found,
      run_steps-CoversAll store ts (stored_names p.steps) (stored_results p.steps []) s,
    )
  ]

  -- The tasks that are not recorded.
  abbrev pub pending : List String → List (Task S R) → List (Task S R)
  pending names [] = []
  pending names (t ∷ ts) = if includes t.name names then pending names ts else t ∷ pending names ts

  after_record_cong :
      (name : String) (names : List String) (results : Dict (Option R))
      (next next' : S → S × Execution R) (y : S × Result (Unit {0}))
      → ((s' : S) → next s' ≡ next' s')
      → after_record name names results next y ≡ after_record name names results next' y
  unfolding after_record
  after_record_cong name names results next next' (s, ok u) eq = eq s
  after_record_cong name names results next next' (s, err e) eq = refl

  after_run_cong :
      (store : Option (TransitionStore S R)) (name : String) (names : List String)
      (results : Dict (Option R)) (next next' : List String → Dict (Option R) → S → S × Execution R)
      (x : S × Result (Option R))
      → ((r : Option R) (s' : S)
          → next (names ++ (name ∷ [])) (insert name r results) s'
            ≡ next' (names ++ (name ∷ [])) (insert name r results) s')
      → after_run store name names results next x ≡ after_run store name names results next' x
  unfolding after_run
  after_run_cong store name names results next next' (s, err e) eq = refl
  after_run_cong store name names results next next' (s, ok r) eq =
      after_record_cong name _ _ _ _ (record_step store name r s) (eq r)

  run_steps-pending :
      (base : List String) (store : Option (TransitionStore S R)) (ts : List (Task S R))
      (names : List String) (results : Dict (Option R)) (s : S)
      → ((name : String) → includes name base ≡ true → includes name names ≡ true)
      → run_steps store ts names results s ≡ run_steps store (pending base ts) names results s
  unfolding run_steps
  run_steps-pending base store [] names results s sub = refl
  run_steps-pending base store (t ∷ ts) names results s sub =
      elim (Bool-cases (includes t.name base)) [
        | inl old ↦ rw (old, sub t.name old) (run_steps-pending base store ts names results s sub)
        | inr new ↦ elim (Bool-cases (includes t.name names)) [
          | inl done ↦ rw (new, done) (run_steps-pending base store ts names results s sub)
          | inr fresh ↦
              rw (new, fresh)
                (after_run_cong store t.name names results (run_steps store ts)
                  (run_steps store (pending base ts)) (t.run s)
                  (λ r s'.
                    run_steps-pending base store ts (names ++ (t.name ∷ []))
                      (insert t.name r results) s'
                      (λ name old. includes-append name names (t.name ∷ []) ∙ rw (sub name old))))
        ]
      ]

  -- A resumed transition runs exactly as if the steps that its stored progress records were not in
  -- its list, so none of them runs again, whatever they would do: same effects and same outcome.
  pub recorded_steps_not_rerun :
      (store : TransitionStore S R) (ts : List (Task S R)) (s : S) (p : Progress R)
      → store.read s ≡ ok (some p)
      → execute_transition (some store) ts s
        ≡ execute_transition (some store) (pending (stored_names p.steps) ts) s
  unfolding execute_transition
  recorded_steps_not_rerun store ts s p found = rw found (
      ap (λ (y : S × Execution R). (y.0, ok y.1))
        (run_steps-pending (stored_names p.steps) (some store) ts (stored_names p.steps)
          (stored_results p.steps []) s (λ name h. h)))
