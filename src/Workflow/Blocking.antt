-- ===== src/Workflow/Blocking.antt =====
-- No step runs before the steps that it depends on.
use agent_learn.Base.{
  ℕ, ◌≤◌, ◌≡◌, refl, sym, ap, subst, ◌∙◌, ◌⊎◌, inl, inr, true, false, some, List, [], ◌∷◌, ◌++◌,
  arith, ◌==◌, ==_iff, max, lookup, insert, lookup-insert, contains, Bool-cases, Option-cases,
  if◌then◌else◌,
}
use mathlib.Core.Option.{some-injective}
use mathlib.Core.List.{append_assoc, append-nil}
use agent_learn.Workflow.{
  WorkflowStep, passes, blocked, StepResult, Options, Trace, run_step, failed_upstream, finish_or,
  latest, start_of, execute_step, execute_all, execute, topological, ids_of,
}

-- Some result tells that the step went well, and when.
abbrev pub Passed : ℕ → ℕ → List StepResult → Type 0
Passed dep ms [] = ⊥
Passed dep ms (r ∷ rs) =
    ((r.id ≡ dep) × ((passes r.status ≡ true) × (r.finished_ms ≡ ms))) ⊎ Passed dep ms rs

Passed-append : (dep ms : ℕ) (xs ys : List StepResult) → Passed dep ms xs → Passed dep ms (xs ++ ys)
Passed-append dep ms [] ys p = absurd p
Passed-append dep ms (x ∷ xs) ys (inl h) = inl h
Passed-append dep ms (x ∷ xs) ys (inr p) = inr (Passed-append dep ms xs ys p)

Passed-last :
    (dep ms : ℕ) (xs : List StepResult) (r : StepResult)
    → r.id ≡ dep
    → passes r.status ≡ true
    → r.finished_ms ≡ ms
    → Passed dep ms (xs ++ r ∷ [])
Passed-last dep ms [] r a b c = inl (a, (b, c))
Passed-last dep ms (x ∷ xs) r a b c = inr (Passed-last dep ms xs r a b c)

-- The steps of the graph among the dependencies have passed, each no later than `start`.
abbrev pub Ready : List ℕ → List StepResult → ℕ → List ℕ → Type 0
Ready steps results start [] = Unit
Ready steps results start (dep ∷ deps) =
    (contains dep steps ≡ true → (ms : ℕ) × (Passed dep ms results × (ms ≤ start)))
    × Ready steps results start deps

-- The results of an order of steps, each against those before it: a step is blocked, or it ran when
-- the steps that it depends on had passed.
abbrev pub Justified : List ℕ → List StepResult → List WorkflowStep → List StepResult → Type 0
Justified steps before [] [] = Unit
Justified steps before [] (r ∷ rs) = ⊥
Justified steps before (step ∷ order) [] = ⊥
Justified steps before (step ∷ order) (r ∷ rs) =
    ((r.id ≡ step.id) × ((r.status ≡ blocked) ⊎ Ready steps before r.started_ms step.depends_on))
    × Justified steps (before ++ r ∷ []) order rs

abbrev Recorded : Trace → Type 0
Recorded t = (dep ms : ℕ) → lookup dep t.finish_at ≡ some ms → Passed dep ms t.results

latest-Ready :
    (steps : List ℕ) (start_ms start : ℕ) (t : Trace) (deps : List ℕ)
    → Recorded t
    → failed_upstream steps t.finish_at deps ≡ false
    → latest start_ms t.finish_at deps ≤ start
    → Ready steps t.results start deps
unfolding failed_upstream latest
latest-Ready steps start_ms start t [] recorded fine late = tt
latest-Ready steps start_ms start t (dep ∷ deps) recorded fine late =
    let rest : failed_upstream steps t.finish_at deps ≡ false = ground (arith, fine) in
    elim (Option-cases (lookup dep t.finish_at)) [
      | inr (ms, e) ↦
          let here : finish_or start_ms dep t.finish_at ≡ ms = rw (e, finish_or) refl in
          let late' : max ms (latest start_ms t.finish_at deps) ≤ start =
            omega (arith, late, here) in
          (
            λ known. (ms, (recorded dep ms e, omega (arith, late'))),
            latest-Ready steps start_ms start t deps recorded rest (omega (arith, late')),
          )
      | inl e ↦ (
        λ known. absurd (ground (arith, fine, e, known)),
        latest-Ready steps start_ms start t deps recorded rest (omega (arith, late)),
      )
    ]

start_of-Ready :
    (steps : List ℕ) (start_ms : ℕ) (t : Trace) (deps : List ℕ)
    → Recorded t
    → failed_upstream steps t.finish_at deps ≡ false
    → Ready steps t.results (start_of start_ms t.finish_at deps) deps
unfolding start_of
start_of-Ready steps start_ms t [] recorded fine = tt
start_of-Ready steps start_ms t (dep ∷ deps) recorded fine =
    latest-Ready steps start_ms (latest start_ms t.finish_at (dep ∷ deps)) t (dep ∷ deps) recorded
      fine (omega arith)

-- A result is recorded when it passes.
Recorded-append :
    (t : Trace) (r : StepResult)
    → Recorded t
    → (dep ms : ℕ)
    → lookup dep (if passes r.status then insert r.id r.finished_ms t.finish_at else t.finish_at)
      ≡ some ms
    → Passed dep ms (t.results ++ r ∷ [])
Recorded-append t r recorded dep ms h = elim (Bool-cases (passes r.status)) [
  | inr e ↦ Passed-append dep ms t.results (r ∷ []) (recorded dep ms (rw e at h))
  | inl e ↦
      let read = sym (lookup-insert r.id dep r.finished_ms t.finish_at) ∙ (rw e at h) in
      elim (Bool-cases (r.id == dep)) [
        | inl same ↦
            Passed-last dep ms t.results r ((==_iff r.id dep).0 same) e
              (some-injective r.finished_ms ms (rw same at read))
        | inr other ↦ Passed-append dep ms t.results (r ∷ []) (recorded dep ms (rw other at read))
      ]
]

-- One step: a result that is justified, after those there were, and a trace that is still recorded.
abbrev Advances : List ℕ → Trace → WorkflowStep → Trace → Type 0
Advances steps t step t' =
    (r : StepResult) × ((t'.results ≡ t.results ++ r ∷ [])
      × (Recorded t'
          × ((r.id ≡ step.id)
              × ((r.status ≡ blocked) ⊎ Ready steps t.results r.started_ms step.depends_on))))

execute_step-Advances :
    (o : Options) (steps : List ℕ) (t : Trace) (step : WorkflowStep)
    → Recorded t
    → Advances steps t step (execute_step o steps t step)
unfolding execute_step run_step
execute_step-Advances o steps t step recorded =
    elim (Bool-cases (failed_upstream steps t.finish_at step.depends_on)) [
      | inl e ↦
          rw (e, execute_step)
            (
              _,
              (
                refl,
                (
                  λ dep ms h. Passed-append dep ms t.results _ (recorded dep ms h),
                  (refl, inl refl),
                ),
              ),
            )
      | inr e ↦
          rw (e, execute_step)
            (
              _,
              (
                refl,
                (
                  Recorded-append t _ recorded,
                  (refl, inr (start_of-Ready steps o.start_ms t step.depends_on recorded e)),
                ),
              ),
            )
    ]

execute_all-Justified :
    (o : Options) (steps : List ℕ) (t : Trace) (order : List WorkflowStep)
    → Recorded t
    → (rs : List StepResult) × (((execute_all o steps t order).results ≡ t.results ++ rs)
        × Justified steps t.results order rs)
unfolding execute_all
execute_all-Justified o steps t [] recorded = ([], (sym (append-nil t.results), tt))
execute_all-Justified o steps t (step ∷ order) recorded =
    let (r, (grown, (recorded', justified))) = execute_step-Advances o steps t step recorded in
    let t' = execute_step o steps t step in
    let (rs, (all, more)) = execute_all-Justified o steps t' order recorded' in
    (
      r ∷ rs,
      (
        all ∙ ap (λ l. l ++ rs) grown ∙ append_assoc t.results (r ∷ []) rs,
        (justified, subst (λ l. Justified steps l order rs) grown more),
      ),
    )

-- For any workflow, options, handlers and injected failures: `execute` has one result for each step of
-- its order, in that order; and each of these results is BLOCKED, or every dependency of its step that
-- is a step of the workflow has an earlier result that is SUCCEEDED or SKIPPED and had finished when
-- the step started. So nothing runs on the output of a step that failed, was blocked or came later.
pub execute-Justified :
    (o : Options) (steps : List WorkflowStep)
    → Justified (ids_of steps) [] (topological steps) (execute o steps).results
unfolding execute lookup
execute-Justified o steps =
    let (rs, (same, justified)) =
      execute_all-Justified o (ids_of steps) _ (topological steps)
        (λ dep ms h. absurd (ground (arith, h))) in
    subst (λ l. Justified (ids_of steps) [] (topological steps) l) (sym same) justified
