-- ===== src/Jobs/Examples/Parts.antt =====
-- The queue, the event log, the agent's state and the retry policy at concrete data.
use mathlib.Core.List.{Perm}
use agent_learn.Base.{
  ℕ, ◌+◌, ◌<◌, ◌≡◌, refl, true, false, none, some, List, [], ◌∷◌, ◌++◌, arith, ◌==◌, if◌then◌else◌,
  All, lookup, insert,
}
use agent_learn.Jobs.Status.{running}
use agent_learn.Jobs.Queue.{
  Item, Queue, item, item_lt, publish, depth, get, new, depth_of, heap_push,
}
use agent_learn.Jobs.Queue.Heaps.{Inv, items, NotBefore}
use agent_learn.Jobs.Queue.Order.{get-least}
use agent_learn.Jobs.Queue.Arrival.{new-Inv, publish-last}
use agent_learn.Jobs.Events.{empty, list, append, job_created, job_started}
use agent_learn.Jobs.Events
use agent_learn.Jobs.Events.Numbering.{IsNumbered, next_event, empty-IsNumbered, append-IsNumbered}
use agent_learn.Jobs.Agent.{
  AgentState, drive, next_step, run_tool, tool, from_checkpoint, to_checkpoint,
}
use agent_learn.Jobs.Agent.Resume.{EachOnce, skipped, drive-completes, tool-once}
use agent_learn.Jobs.Examples.{job_in}

abbrev two_queued : Queue
two_queued = publish (publish (new false) 1 3 2) 8 1 2

two_queued-Inv : Inv two_queued
two_queued-Inv =
    (publish-last (publish (new false) 1 3 2) 8 1 2
      (publish-last (new false) 1 3 2 (new-Inv false)).2).2

two_queued-depth : depth two_queued ≡ 2
unfolding depth depth_of publish new insert lookup heap_push
two_queued-depth = refl

two_queued_fair : two_queued.fair ≡ false
unfolding publish new
two_queued_fair = refl

two_queued_nonempty : 0 < depth two_queued
two_queued_nonempty = rw two_queued-depth (omega arith)

get-least_example :
    (x : Item) × (q' : Queue) × (get two_queued ≡ item x q')
    × All (NotBefore x) (items two_queued.heaps)
    × Perm (items two_queued.heaps) (x ∷ items q'.heaps)
    × Inv q'
get-least_example = get-least two_queued two_queued-Inv two_queued_fair two_queued_nonempty

publish-last_example :
    let new_item : Item = record { priority = 1; seq = 3; tenant = 4; job_id = 9 } in
    Perm (items (publish two_queued 9 1 4).heaps) (new_item ∷ items two_queued.heaps)
    × All (λ y. item_lt new_item y ≡ true → 1 < y.priority) (items two_queued.heaps)
    × Inv (publish two_queued 9 1 4)
unfolding publish new
publish-last_example = publish-last two_queued 9 1 4 two_queued-Inv

abbrev payload : Events.Payload
payload = Events.Payload.created 7 2 3

append-IsNumbered_example :
    IsNumbered (append empty 1 job_created payload)
    × ((i : ℕ)
        → list (append empty 1 job_created payload) i
          ≡ list empty i ++ (if 1 == i then next_event empty 1 job_created payload ∷ [] else []))
append-IsNumbered_example = append-IsNumbered empty 1 job_created payload empty-IsNumbered

abbrev half_done : AgentState
half_done = record {
  job_id = 1;
  query = 11;
  current_step = some 20;
  completed_steps = 20 ∷ [];
  tool_records = [];
  values = 5;
  finished = false;
}

abbrev plan : List ℕ
plan = 20 ∷ 21 ∷ 22 ∷ []

abbrev execute : ℕ → AgentState → ℕ
execute step s = step + s.values

drive-completes_example :
    (ran : List ℕ) × (end : AgentState) × (drive execute plan 3 half_done ≡ some (ran, end))
    × (next_step plan end ≡ none)
    × (end.completed_steps ≡ 20 ∷ [] ++ ran)
    × EachOnce plan (20 ∷ []) ran
drive-completes_example = drive-completes execute plan 3 half_done (ground arith)

tool-once_example :
    let first = run_tool half_done 6 (some 9) in
    let crashed = run_tool half_done 6 none in
    let resumed = from_checkpoint (job_in running) (some (to_checkpoint first.state)) in
    (tool half_done 6 (some 9) ≡ first)
    × (first.returned ≡ some 9)
    × (first.saved ≡ to_checkpoint crashed.state ∷ to_checkpoint first.state ∷ [])
    × (tool first.state 6 none ≡ skipped first.state 9)
    × (tool resumed 6 none ≡ skipped resumed 9)
    × ((tool (from_checkpoint (job_in running) (some (to_checkpoint crashed.state))) 6 none).ran
        ≡ true)
unfolding lookup
tool-once_example = tool-once (job_in running) half_done 6 9 none refl
