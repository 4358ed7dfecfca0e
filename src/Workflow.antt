-- ===== src/Workflow.antt =====
-- dynamic-workflow-router/app/workflow/runtime.py, `WorkflowRuntime`: the layers of a graph of steps,
-- and their execution on a shared blackboard, which is a dictionary. Identifiers of steps and agents
-- are numbers. What an agent takes and produces is a parameter: a handler may answer differently at
-- each attempt, and `none` is its exception. Error texts and notes are left out.
pub mod Attempts
pub mod Blocking
pub mod Exhaust
pub mod Layers
mod Examples
use agent_learn.Base.{
  ℕ, zero, suc, ◌+◌, ◌-◌, Bool, true, false, Option, none, some, List, [], ◌∷◌, ◌++◌, ltb, leb,
  ◌==◌, max, not, if◌then◌else◌, lookup, insert, erase, length, filter, contains,
}

pub record WorkflowStep : Type 0 where
  pub id : ℕ
  pub agent : ℕ
  pub depends_on : List ℕ
  pub optional : Bool

pub data StepStatus : Type 0 where
  pending succeeded failed skipped blocked : StepStatus

pub record StepResult : Type 0 where
  pub id : ℕ
  pub agent : ℕ
  pub status : StepStatus
  pub started_ms : ℕ
  pub finished_ms : ℕ
  pub attempts : ℕ

-- The status lets the steps below go on.
unfoldable pub passes : StepStatus → Bool
passes succeeded = true
passes skipped = true
passes pending = false
passes failed = false
passes blocked = false

abbrev pub Context : Type 0
Context = List (ℕ × ℕ)

-- `context.update(produced)`.
unfoldable pub update : Context → Context → Context
update context [] = context
update context ((key, value) ∷ produced) = update (insert key value context) produced

-- `RuntimeOptions`, with what the pool and the skills provide: the latency of an agent, and what a
-- handler answers, by step, attempt and blackboard.
pub record Options : Type 0 where
  pub max_retries : ℕ
  pub start_ms : ℕ
  pub fail_steps : List (ℕ × ℕ)
  pub initial_context : Context
  pub latency_of : ℕ → ℕ
  pub handler : ℕ → ℕ → Context → Option Context

-- `failure_budget.get(step_id, 0)`.
abbrev pub budget_of : ℕ → List (ℕ × ℕ) → ℕ
budget_of id budget = elim (lookup id budget) [ none ↦ 0 | some n ↦ n ]

-- The loop of `_run_step` once `tried` attempts were made and `left` remain: the number of attempts
-- at the end, the budget, and what was produced.
unfoldable pub attempt :
    Options → ℕ → Context → ℕ → ℕ → List (ℕ × ℕ) → ℕ × List (ℕ × ℕ) × Option Context
attempt o id context zero tried budget = (tried, budget, none)
attempt o id context (suc left) tried budget =
    let n = budget_of id budget in
    let produced = o.handler id (tried + 1) context in
    elim (ltb 0 n) [
      | true ↦ attempt o id context left (tried + 1) (insert id (n - 1) budget)
      | false ↦ elim produced [
        | some out ↦ (tried + 1, budget, some out)
        | none ↦ attempt o id context left (tried + 1) budget
      ]
    ]

-- What a run has at hand: the results, the blackboard, `finish_at` and the budget of injected
-- failures.
pub record Trace : Type 0 where
  pub results : List StepResult
  pub context : Context
  pub finish_at : List (ℕ × ℕ)
  pub failure_budget : List (ℕ × ℕ)

abbrev pub ended : WorkflowStep → Option Context → StepStatus
ended step (some produced) = succeeded
ended step none = if step.optional then skipped else failed

abbrev pub updated : Context → Option Context → Context
updated context none = context
updated context (some produced) = update context produced

-- `_run_step`, and the effects of its result on the trace.
unfoldable pub run_step : Options → Trace → WorkflowStep → ℕ → Trace
run_step o t step start =
    let tried = attempt o step.id t.context (o.max_retries + 1) 0 t.failure_budget in
    let finished = start + o.latency_of step.agent in
    let status = ended step tried.2 in
    record {
      results =
          t.results
          ++ record {
            id = step.id;
            agent = step.agent;
            status = status;
            started_ms = start;
            finished_ms = finished;
            attempts = tried.0;
          }
            ∷ [];
      context = updated t.context tried.2;
      finish_at = if passes status then insert step.id finished t.finish_at else t.finish_at;
      failure_budget = tried.1;
    }

-- `dep in by_id and finish_at.get(dep) is None`, for some dependency.
unfoldable pub failed_upstream : List ℕ → List (ℕ × ℕ) → List ℕ → Bool
failed_upstream steps finish_at [] = false
failed_upstream steps finish_at (dep ∷ deps) =
    let rest = failed_upstream steps finish_at deps in
    if contains dep steps
    then elim (lookup dep finish_at) [ none ↦ true | some ms ↦ rest ]
    else rest

-- `finish_at.get(dep, start_ms)`, and the latest of these.
abbrev pub finish_or : ℕ → ℕ → List (ℕ × ℕ) → ℕ
finish_or start_ms dep finish_at = elim (lookup dep finish_at) [ none ↦ start_ms | some ms ↦ ms ]

unfoldable pub latest : ℕ → List (ℕ × ℕ) → List ℕ → ℕ
latest start_ms finish_at [] = 0
latest start_ms finish_at (dep ∷ deps) =
    max (finish_or start_ms dep finish_at) (latest start_ms finish_at deps)

unfoldable pub start_of : ℕ → List (ℕ × ℕ) → List ℕ → ℕ
start_of start_ms finish_at [] = start_ms
start_of start_ms finish_at (dep ∷ deps) = latest start_ms finish_at (dep ∷ deps)

abbrev pub stuck : Trace → WorkflowStep → Trace
stuck t step = record t {
  results =
      t.results
      ++ record {
        id = step.id;
        agent = step.agent;
        status = blocked;
        started_ms = 0;
        finished_ms = 0;
        attempts = 1;
      }
        ∷ [];
}

unfoldable pub execute_step : Options → List ℕ → Trace → WorkflowStep → Trace
execute_step o steps t step =
    if failed_upstream steps t.finish_at step.depends_on
    then stuck t step
    else run_step o t step (start_of o.start_ms t.finish_at step.depends_on)

unfoldable pub execute_all : Options → List ℕ → Trace → List WorkflowStep → Trace
execute_all o steps t [] = t
execute_all o steps t (step ∷ order) = execute_all o steps (execute_step o steps t step) order

-- `sorted`, and the identifiers without a dependency.
unfoldable pub place : ℕ → List ℕ → List ℕ
place x [] = x ∷ []
place x (y ∷ ys) = let rest = place x ys in if leb x y then x ∷ y ∷ ys else y ∷ rest

unfoldable pub sorted : List ℕ → List ℕ
sorted [] = []
sorted (x ∷ xs) = place x (sorted xs)

unfoldable pub free : List (ℕ × List ℕ) → List ℕ
free [] = []
free ((id, []) ∷ remaining) = id ∷ free remaining
free ((id, dep ∷ deps) ∷ remaining) = free remaining

unfoldable pub remaining_of : List WorkflowStep → List (ℕ × List ℕ) → List (ℕ × List ℕ)
remaining_of [] remaining = remaining
remaining_of (step ∷ steps) remaining =
    remaining_of steps (insert step.id step.depends_on remaining)

unfoldable pub pop_all : List ℕ → List (ℕ × List ℕ) → List (ℕ × List ℕ)
pop_all [] remaining = remaining
pop_all (id ∷ ids) remaining = pop_all ids (erase id remaining)

-- `deps.difference_update(ready)`, for all that remain.
unfoldable pub resolve : List ℕ → List (ℕ × List ℕ) → List (ℕ × List ℕ)
resolve ready [] = []
resolve ready ((id, deps) ∷ remaining) =
    (id, filter (λ dep. not (contains dep ready)) deps) ∷ resolve ready remaining

-- The loop of `_groups`, a unit of fuel for each round.
unfoldable pub groups_from : ℕ → List (ℕ × List ℕ) → List (List ℕ)
groups_from zero remaining = []
groups_from (suc fuel) remaining =
    let ready = sorted (free remaining) in
    let rest = groups_from fuel (resolve ready (pop_all ready remaining)) in
    elim (free remaining) [ [] ↦ [] | id ∷ ids ↦ ready ∷ rest ]

unfoldable pub groups : List WorkflowStep → List (List ℕ)
groups steps = let remaining = remaining_of steps [] in groups_from (length remaining) remaining

-- `{step.id: step for step in steps}`.
unfoldable pub step_map : List WorkflowStep → List (ℕ × WorkflowStep) → List (ℕ × WorkflowStep)
step_map [] dict = dict
step_map (step ∷ steps) dict = step_map steps (insert step.id step dict)

-- `by_id[sid]` of each; there is no other identifier in the graph.
unfoldable pub steps_at : List (ℕ × WorkflowStep) → List ℕ → List WorkflowStep
steps_at by_id [] = []
steps_at by_id (id ∷ ids) =
    let rest = steps_at by_id ids in
    elim (lookup id by_id) [ none ↦ rest | some step ↦ step ∷ rest ]

-- The loop of `_topological`.
unfoldable pub order_from : ℕ → List (ℕ × WorkflowStep) → List (ℕ × List ℕ) → List WorkflowStep
order_from zero by_id remaining = []
order_from (suc fuel) by_id remaining =
    let ready = sorted (free remaining) in
    let rest = order_from fuel by_id (resolve ready (pop_all ready remaining)) in
    elim (free remaining) [ [] ↦ [] | id ∷ ids ↦ steps_at by_id ready ++ rest ]

unfoldable pub topological : List WorkflowStep → List WorkflowStep
topological steps =
    let remaining = remaining_of steps [] in
    order_from (length remaining) (step_map steps []) remaining

abbrev pub ids_of : List WorkflowStep → List ℕ
ids_of [] = []
ids_of (step ∷ steps) = step.id ∷ ids_of steps

unfoldable pub execute : Options → List WorkflowStep → Trace
execute o steps =
    execute_all o (ids_of steps)
      (record {
        results = [];
        context = o.initial_context;
        finish_at = [];
        failure_budget = o.fail_steps;
      })
      (topological steps)
