-- ===== src/Jobs/Lifecycle.antt =====
-- The queue as a whole: every method of the service, the executor, the dead letter queue and the
-- reaper, by any worker, at any time and in any order, as one step relation.
pub mod Recover
pub mod Evolve
pub mod History
use Prim.Native.String.{String}
use agent_learn.Base.{ℕ, ◌≡◌, Bool, Option, none, List}
use agent_learn.Jobs.Store.{renew_lease}
use agent_learn.Jobs.Store
use agent_learn.Jobs.Agent.{AgentState}
use agent_learn.Jobs.System.{System, with_store}
use agent_learn.Jobs.Retry.{Failure}
use agent_learn.Jobs.Executor.{
  Config, claim, start, step_begin, step_end, step_raise, complete, handle_failure, handle_retry,
  finalize_cancel, crash, delayed_requeue,
}
use agent_learn.Jobs.Dlq.{requeue}
use agent_learn.Jobs.Reaper.{reap_once}
use agent_learn.Jobs.Service

-- A new job has an id that is not in use (`new_job_id` draws it at random).
pub data Step (c : Config) : System → System → Type 0 where
  creates :
      (sys : System) (now id agent input tenant_id priority max_retries : ℕ)
      → Store.get sys.store id ≡ none
      → Step c sys (Service.create c.agents sys now id agent input tenant_id priority max_retries).0
  cancels : (sys : System) (now id : ℕ) → Step c sys (Service.cancel sys now id).0
  claims : (sys : System) (now id w : ℕ) → Step c sys (claim c sys now id w).0
  starts : (sys : System) (now id w : ℕ) → Step c sys (start sys now id w).0
  begins :
      (sys : System) (now id w : ℕ) (steps : List ℕ) (s : AgentState) (step : ℕ)
      → Step c sys (step_begin sys now id w steps s step)
  ends :
      (sys : System) (now id w : ℕ) (steps : List ℕ) (s : AgentState) (step values : ℕ)
      → Step c sys (step_end sys now id w steps s step values).0
  raises : (sys : System) (id step : ℕ) (error : String) → Step c sys (step_raise sys id step error)
  completes : (sys : System) (now id : ℕ) (s : AgentState) → Step c sys (complete sys now id s)
  fails :
      (sys : System) (now id : ℕ) (error : String) → Step c sys (handle_failure sys now id error)
  retries :
      (sys : System) (now id : ℕ) (failure : Failure) (error : String) (drawn : ℕ)
      → Step c sys (handle_retry c sys now id failure error drawn).0
  stops : (sys : System) (now id w : ℕ) → Step c sys (finalize_cancel c sys now id w)
  crashes : (sys : System) (now id w : ℕ) → Step c sys (crash sys now id w)
  requeues : (sys : System) (now id delay : ℕ) → Step c sys (delayed_requeue sys now id delay)
  beats :
      (sys : System) (now id w : ℕ)
      → Step c sys (with_store sys (renew_lease sys.store now id w c.lease_duration).0)
  reaps : (sys : System) (now grace : ℕ) → Step c sys (reap_once sys now grace).0
  revives : (sys : System) (now id : ℕ) → Step c sys (requeue sys now id).0

pub data Reach (c : Config) (sys : System) : System → Type 0 where
  here : Reach c sys sys
  next : {t u : System} → Reach c sys t → Step c t u → Reach c sys u
