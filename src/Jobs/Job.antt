-- ===== src/Jobs/Job.antt =====
-- app/domain/job.py: the record of a job, its creation, and the times that the metrics read.
-- Identifiers, names and JSON payloads are numbers, since the code carries and compares them only;
-- texts of errors are strings; times and durations are whole milliseconds.
use Prim.Native.String.{String}
use agent_learn.Base.{ℕ, ◌-◌, Bool, false, Option, none, some}
use agent_learn.Jobs.Status.{JobStatus, queued}

pub record Job : Type 0 where
  pub id : ℕ
  pub tenant_id : ℕ
  pub agent_name : ℕ
  pub input : ℕ
  pub status : JobStatus
  pub priority : ℕ
  pub retry_count : ℕ
  pub max_retries : ℕ
  pub current_step : Option ℕ
  pub progress : ℕ
  pub worker_id : Option ℕ
  pub lease_expire_at : Option ℕ
  pub cancel_requested : Bool
  pub queued_at : Option ℕ
  pub started_at : Option ℕ
  pub finished_at : Option ℕ
  pub result : Option ℕ
  pub error : Option String
  pub created_at : ℕ
  pub updated_at : ℕ

-- `Job.create`, with the time and the new identifier as arguments.
unfoldable pub create : ℕ → ℕ → ℕ → ℕ → ℕ → ℕ → ℕ → Job
create now id agent_name input tenant_id priority max_retries = record {
  id = id;
  tenant_id = tenant_id;
  agent_name = agent_name;
  input = input;
  status = queued;
  priority = priority;
  retry_count = 0;
  max_retries = max_retries;
  current_step = none;
  progress = 0;
  worker_id = none;
  lease_expire_at = none;
  cancel_requested = false;
  queued_at = some now;
  started_at = none;
  finished_at = none;
  result = none;
  error = none;
  created_at = now;
  updated_at = now;
}

-- `max(0.0, b - a)`, and `None` if one of the times is missing.
abbrev between : Option ℕ → Option ℕ → Option ℕ
between none b = none
between (some a) none = none
between (some a) (some b) = some (b - a)

unfoldable pub queue_wait_seconds : Job → Option ℕ
queue_wait_seconds j = between j.queued_at j.started_at

unfoldable pub execution_seconds : Job → Option ℕ
execution_seconds j = between j.started_at j.finished_at

unfoldable pub duration_seconds : Job → Option ℕ
duration_seconds j = between (some j.created_at) j.finished_at
