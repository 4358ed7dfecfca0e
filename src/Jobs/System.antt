-- ===== src/Jobs/System.antt =====
-- What the parts of the queue share: the stores, the queue and the checkpoints. Metrics and logging
-- are left out: nothing reads them back. Each operation reads the clock once, as `now`.
use Prim.Native.String.{String, ◌++◌ as str_append}
use text.Mathlib.Text.{◌==◌ as str_eq}
use agent_learn.Base.{ℕ, List, Option, if◌then◌else◌, lookup, insert, erase}
use agent_learn.Jobs.Store.{Store}
use agent_learn.Jobs.Events.{EventStore, JobEventType, Payload}
use agent_learn.Jobs.Events
use agent_learn.Jobs.Queue.{Queue}
use agent_learn.Jobs.Queue
use agent_learn.Jobs.Agent.{Checkpoint}
use agent_learn.Jobs.Job.{Job}

pub record System : Type 0 where
  pub store : Store
  pub events : EventStore
  pub queue : Queue
  pub checkpoints : List (ℕ × Checkpoint)

-- What a method gives back: a value, or `InvalidTransitionError`.
pub data Answer {ℓ} (A : Type ℓ) : Type ℓ where
  value : A → Answer A
  invalid_transition : Answer A

abbrev pub with_store : System → Store → System
with_store sys s = record sys { store = s }

-- `event_store.append`.
abbrev pub emit : System → ℕ → JobEventType → Payload → System
emit sys job_id t p = record sys { events = Events.append sys.events job_id t p }

-- `queue.publish(job.id, priority=job.priority, tenant=job.tenant_id)`.
abbrev pub publish : System → Job → System
publish sys job = record sys { queue = Queue.publish sys.queue job.id job.priority job.tenant_id }

abbrev pub save_checkpoint : System → ℕ → Checkpoint → System
save_checkpoint sys job_id cp = record sys { checkpoints = insert job_id cp sys.checkpoints }

abbrev pub load_checkpoint : System → ℕ → Option Checkpoint
load_checkpoint sys job_id = lookup job_id sys.checkpoints

abbrev pub delete_checkpoint : System → ℕ → System
delete_checkpoint sys job_id = record sys { checkpoints = erase job_id sys.checkpoints }

-- `f"{reason}: {last_error}" if last_error else reason`.
unfoldable pub buried_error : String → String → String
buried_error reason last_error =
    if str_eq last_error "" then reason else str_append reason (str_append ": " last_error)
