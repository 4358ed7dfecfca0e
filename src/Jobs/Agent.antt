-- ===== src/Jobs/Agent.antt =====
-- app/agent/state.py and `StepContext.tool` of app/agent/context.py: the state of a run, its
-- checkpoints, and tool calls that are made at most once. The values that an agent's step produces
-- (analysis, search result, insights, report) travel together as one number.
pub mod Resume
use agent_learn.Base.{
  ℕ, zero, suc, ◌+◌, ◌*◌, ◌/◌, Bool, true, false, not, Option, none, some, List, [], ◌∷◌, ◌++◌,
  ◌==◌, if◌then◌else◌, contains, lookup, insert, length,
}
use agent_learn.Jobs.Job.{Job}

-- The status of a tool record, and its result once it has one.
pub data ToolRecord : Type 0 where
  running : ToolRecord
  success : ℕ → ToolRecord

pub record AgentState : Type 0 where
  pub job_id : ℕ
  pub query : ℕ
  pub current_step : Option ℕ
  pub completed_steps : List ℕ
  pub tool_records : List (ℕ × ToolRecord)
  pub values : ℕ
  pub finished : Bool

unfoldable pub next_step : List ℕ → AgentState → Option ℕ
next_step [] s = none
next_step (step ∷ steps) s =
    let rest = next_step steps s in if contains step s.completed_steps then rest else some step

-- `xs[-1:]`.
abbrev last_of : List ℕ → Option ℕ
last_of [] = none
last_of (x ∷ []) = some x
last_of (x ∷ y ∷ ys) = last_of (y ∷ ys)

abbrev same_last : Option ℕ → Option ℕ → Bool
same_last none none = true
same_last (some a) (some b) = a == b
same_last _ _ = false

-- `apply`: the values of the step, the step marked as completed, and the end of the run noticed. The
-- values are one number, so the guard on the names of the fields is left out.
unfoldable pub apply : AgentState → ℕ → ℕ → List ℕ → AgentState
apply s step values steps =
    let completed =
      if contains step s.completed_steps
      then s.completed_steps
      else s.completed_steps ++ step ∷ [] in
    record s {
      current_step = some step;
      values = values;
      completed_steps = completed;
      finished = if same_last (last_of completed) (last_of steps) then true else s.finished;
    }

-- In exact arithmetic, where the code divides floats and rounds down.
unfoldable pub progress : AgentState → List ℕ → ℕ
progress s [] = 0
progress s (step ∷ steps) = length s.completed_steps * 100 / length (step ∷ steps)

-- The loop of `_run` seen from the agent's state, while every step succeeds: `execute` gives the
-- values of a step. The steps that ran, and the state at the end; `none` means that the fuel ran out.
unfoldable pub drive : (ℕ → AgentState → ℕ) → List ℕ → ℕ → AgentState → Option (List ℕ × AgentState)
drive execute steps zero s = none
drive execute steps (suc fuel) s = elim (next_step steps s) [
  | none ↦ some ([], s)
  | some step ↦ elim (drive execute steps fuel (apply s step (execute step s) steps)) [
    | none ↦ none
    | some (ran, end) ↦ some (step ∷ ran, end)
  ]
]

-- What `to_checkpoint` writes: no key `finished`.
pub record Checkpoint : Type 0 where
  pub job_id : ℕ
  pub step : Option ℕ
  pub completed_steps : List ℕ
  pub tool_records : List (ℕ × ToolRecord)
  pub query : ℕ
  pub values : ℕ

unfoldable pub to_checkpoint : AgentState → Checkpoint
to_checkpoint s = record {
  job_id = s.job_id;
  step = s.current_step;
  completed_steps = s.completed_steps;
  tool_records = s.tool_records;
  query = s.query;
  values = s.values;
}

-- `initial`; the query is read from the input, and nothing is done yet.
unfoldable pub initial : Job → AgentState
initial job = record {
  job_id = job.id;
  query = job.input;
  current_step = none;
  completed_steps = [];
  tool_records = [];
  values = 0;
  finished = false;
}

unfoldable pub from_checkpoint : Job → Option Checkpoint → AgentState
from_checkpoint job none = initial job
from_checkpoint job (some cp) = record {
  job_id = job.id;
  query = cp.query;
  current_step = cp.step;
  completed_steps = cp.completed_steps;
  tool_records = cp.tool_records;
  values = cp.values;
  finished = false;
}

-- `tool`: the state, the checkpoints saved in between, whether the tool ran, and what came back;
-- `none` is the exception of the tool.
pub record ToolRun : Type 0 where
  pub state : AgentState
  pub saved : List Checkpoint
  pub ran : Bool
  pub returned : Option ℕ

-- A run from the write-ahead record on; `answer` is what the tool gives back, if it does.
unfoldable pub run_tool : AgentState → ℕ → Option ℕ → ToolRun
run_tool s call_id answer =
    let begun : AgentState = record s { tool_records = insert call_id running s.tool_records } in
    elim answer [
      | none ↦ record {
        state = begun;
        saved = to_checkpoint begun ∷ [];
        ran = true;
        returned = none;
      }
      | some v ↦
          let ended : AgentState = record s {
            tool_records = insert call_id (success v) begun.tool_records;
          } in
          record {
            state = ended;
            saved = to_checkpoint begun ∷ to_checkpoint ended ∷ [];
            ran = true;
            returned = some v;
          }
    ]

unfoldable pub tool : AgentState → ℕ → Option ℕ → ToolRun
tool s call_id answer = elim (lookup call_id s.tool_records) [
  | none ↦ run_tool s call_id answer
  | some running ↦ run_tool s call_id answer
  | some (success v) ↦ record { state = s; saved = []; ran = false; returned = some v }
]
