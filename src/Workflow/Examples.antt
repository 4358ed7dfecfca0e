-- ===== src/Workflow/Examples.antt =====
-- The theorems on the workflows at a graph of four steps: 2 and 3 need 1, and 4 needs 2 and 3. Step 2
-- is optional and always raises; step 3 is made to fail once.
use agent_learn.Base.{◌+◌, true, false, none, some, List, lookup, [], ◌∷◌, ◌==◌, if◌then◌else◌}
use agent_learn.Workflow.{
  WorkflowStep, Options, attempt, execute, topological, groups, remaining_of,
}
use agent_learn.Workflow.Exhaust.{Blocked, concat}
use agent_learn.Base.{All}
use agent_learn.Workflow.Attempts.{Tried, attempt-outcome}
use agent_learn.Workflow.Blocking.{Justified, execute-Justified}
use agent_learn.Workflow.Layers.{Layered, needs_of, groups-Layered}

abbrev steps : List WorkflowStep
steps =
    record { id = 4; agent = 40; depends_on = 2 ∷ 3 ∷ []; optional = false }
    ∷ record { id = 2; agent = 20; depends_on = 1 ∷ []; optional = true }
    ∷ record { id = 3; agent = 30; depends_on = 1 ∷ []; optional = false }
    ∷ record { id = 1; agent = 10; depends_on = []; optional = false }
    ∷ []

abbrev options : Options
options = record {
  max_retries = 1;
  start_ms = 1000;
  fail_steps = (3, 1) ∷ [];
  initial_context = (7, 70) ∷ [];
  latency_of = λ agent. agent + 5;
  handler = λ id n context. if id == 2 then none else some ((id, n) ∷ []);
}

attempt-outcome_example :
    Tried options 3 ((7, 70) ∷ []) 1 0 2 (attempt options 3 ((7, 70) ∷ []) 2 0 ((3, 1) ∷ []))
unfolding attempt lookup
attempt-outcome_example = attempt-outcome options 3 ((7, 70) ∷ []) ((3, 1) ∷ [])

execute-Justified_example :
    Justified (4 ∷ 2 ∷ 3 ∷ 1 ∷ []) [] (topological steps) (execute options steps).results
execute-Justified_example = execute-Justified options steps

groups-Layered_example :
    Layered (needs_of steps) [] (groups steps)
    × All (Blocked (concat (groups steps))) (remaining_of steps [])
groups-Layered_example = groups-Layered steps
