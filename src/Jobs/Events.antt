-- ===== src/Jobs/Events.antt =====
-- app/domain/events.py, and `MemoryEventStore` of app/storage/memory.py.
pub mod Numbering
use Prim.Native.String.{String}
use agent_learn.Base.{ℕ, suc, ◌+◌, Option, none, some, List, [], ◌∷◌, ◌++◌, lookup, insert, length}
use agent_learn.Jobs.Status.{JobStatus}

pub data JobEventType : Type 0 where
  job_created job_started step_started step_completed step_failed : JobEventType
  llm_called llm_completed llm_failed tool_called tool_completed tool_skipped : JobEventType
  checkpoint_saved job_retrying job_requeued job_recovered job_completed : JobEventType
  job_failed job_cancelled job_dead : JobEventType

-- The payload dicts, a constructor for each set of keys.
pub data Payload : Type 0 where
  created : ℕ → ℕ → ℕ → Payload  -- agent, tenant_id, priority
  started : ℕ → ℕ → Payload  -- worker_id, attempt
  at_step : Option ℕ → Payload  -- step
  step_error : Option ℕ → String → Payload  -- step, error
  tool_use : Option ℕ → ℕ → Payload  -- step, tool_call_id (it holds the tool's name)
  retry : ℕ → ℕ → String → Payload  -- attempt, delay, error
  failure : Option ℕ → String → Payload  -- attempt, error
  by_worker : ℕ → Payload  -- worker_id
  because : String → Payload  -- reason, state or from
  recovery : JobStatus → Option ℕ → ℕ → Payload  -- from, previous_worker, stalled_seconds
  waited : ℕ → Payload  -- after_seconds
  outcome : Option ℕ → Payload  -- result
  burial : String → ℕ → String → Payload  -- reason, retry_count, last_error

pub record JobEvent : Type 0 where
  pub job_id : ℕ
  pub event_type : JobEventType
  pub payload : Payload
  pub seq : ℕ

pub record EventStore : Type 0 where
  pub events : List (ℕ × List JobEvent)

unfoldable pub empty : EventStore
empty = record { events = [] }

-- `list`: no events for an unknown job.
unfoldable pub list : EventStore → ℕ → List JobEvent
list es job_id = elim (lookup job_id es.events) [ none ↦ [] | some l ↦ l ]

unfoldable pub append : EventStore → ℕ → JobEventType → Payload → EventStore
append es job_id event_type payload =
    let event : JobEvent = record {
      job_id = job_id;
      event_type = event_type;
      payload = payload;
      seq = length (list es job_id) + 1;
    } in
    record { events = insert job_id (list es job_id ++ event ∷ []) es.events }
