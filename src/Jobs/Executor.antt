-- ===== src/Jobs/Executor.antt =====
-- app/executor/job_executor.py: the life of a job in a worker. A worker's run is cut at the points
-- where other tasks may act in between: claiming the job, starting it, the two halves of a step, the
-- end, and each way out. `_heartbeat` renews the lease by `Store.renew_lease`.
pub mod Ends
use Prim.Native.String.{String}
use agent_learn.Base.{
  ℕ, suc, ◌+◌, ◌-◌, Bool, true, false, not, ◌&&◌, ◌||◌, Option, none, some, List, [], ◌∷◌, ltb,
  if◌then◌else◌, contains, max,
}
use agent_learn.Jobs.Status.{
  JobStatus, queued, running, retrying, success, failed, cancelled, status_eq,
}
use agent_learn.Jobs.Job.{Job}
use agent_learn.Jobs.Store.{
  Fields, no_fields, Verdict, done, refused, invalid, transition, acquire_lease, expire_lease,
  update_progress, is_cancel_requested,
}
use agent_learn.Jobs.Store
use agent_learn.Jobs.Events.{
  Payload, job_started, step_started, step_completed, step_failed, checkpoint_saved, job_retrying,
  job_requeued, job_completed, job_failed, job_cancelled,
}
use agent_learn.Jobs.Agent.{AgentState, apply, progress, to_checkpoint, from_checkpoint}
use agent_learn.Jobs.Retry.{Failure, should_retry, compute_backoff}
use agent_learn.Jobs.System.{
  System, Answer, value, invalid_transition, with_store, emit, publish, save_checkpoint,
  load_checkpoint, delete_checkpoint,
}
use agent_learn.Jobs.Dlq.{send}

-- What the executor reads of `QueueConfig`, and the names in the agent registry.
pub record Config : Type 0 where
  pub lease_duration : ℕ
  pub backoff_base : ℕ
  pub backoff_max : ℕ
  pub agents : List ℕ

-- `execute` up to the lease: whether the worker goes on to `_run`.
unfoldable pub claim : Config → System → ℕ → ℕ → ℕ → System × Bool
claim c sys now job_id worker_id = elim (Store.get sys.store job_id) [
  | none ↦ (sys, false)
  | some job ↦
      if status_eq job.status cancelled
        || not (status_eq job.status queued || status_eq job.status retrying)
      then (sys, false)
      else (
        with_store sys (acquire_lease sys.store now job_id worker_id c.lease_duration).0,
        (acquire_lease sys.store now job_id worker_id c.lease_duration).1,
      )
]

abbrev pub start_fields : ℕ → ℕ → Job → Fields
start_fields now worker_id job = record no_fields {
  worker_id = some (some worker_id);
  started_at = some (elim job.started_at [ none ↦ some now | some t ↦ some t ]);
  error = some none;
}

-- `_run` after its transition to RUNNING.
abbrev pub started : System → ℕ → ℕ → ℕ → Job → Store.Store × Verdict → System × Answer Bool
started sys now job_id worker_id job (store, done) = (
  emit (with_store sys store) job_id job_started (Payload.started worker_id (job.retry_count + 1)),
  value true,
)
started sys now job_id worker_id job (store, refused) =
    (with_store sys (expire_lease store now job_id worker_id).0, value false)
started sys now job_id worker_id job (store, invalid) = (with_store sys store, invalid_transition)

unfoldable pub start : System → ℕ → ℕ → ℕ → System × Answer Bool
start sys now job_id worker_id = elim (Store.get sys.store job_id) [
  | none ↦ (sys, value false)
  | some job ↦
      started sys now job_id worker_id job
        (transition sys.store now job_id job.status running (start_fields now worker_id job))
]

-- A round of the loop before the agent's step, and after a step that gave `values`.
unfoldable pub step_begin : System → ℕ → ℕ → ℕ → List ℕ → AgentState → ℕ → System
step_begin sys now job_id worker_id steps s step =
    let told = emit sys job_id step_started (Payload.at_step (some step)) in
    with_store told
      (update_progress told.store now job_id worker_id (some step) (progress s steps)).0

unfoldable pub step_end : System → ℕ → ℕ → ℕ → List ℕ → AgentState → ℕ → ℕ → System × AgentState
step_end sys now job_id worker_id steps s step values =
    let s' = apply s step values steps in
    let saved = save_checkpoint sys s'.job_id (to_checkpoint s') in
    let told =
      emit (emit saved job_id step_completed (Payload.at_step (some step))) job_id checkpoint_saved
        (Payload.at_step (some step)) in
    (
      with_store told
          (update_progress told.store now job_id worker_id (some step) (progress s' steps)).0,
      s',
    )

-- The step raised: the event, before the exception goes on.
unfoldable pub step_raise : System → ℕ → ℕ → String → System
step_raise sys job_id step error =
    emit sys job_id step_failed (Payload.step_error (some step) error)

abbrev pub success_fields : ℕ → ℕ → Fields
success_fields now result = record no_fields {
  result = some (some result);
  finished_at = some (some now);
  worker_id = some none;
  lease_expire_at = some none;
  progress = some 100;
  cancel_requested = some false;
  error = some none;
}

-- The end of `_run`. The answer of the transition is not looked at.
unfoldable pub complete : System → ℕ → ℕ → AgentState → System
complete sys now job_id s =
    let moved =
      with_store sys
        (transition sys.store now job_id running success (success_fields now s.values)).0 in
    delete_checkpoint (emit moved job_id job_completed (Payload.outcome (some s.values))) job_id

abbrev pub failure_fields : ℕ → String → Fields
failure_fields now error = record no_fields {
  error = some (some error);
  worker_id = some none;
  lease_expire_at = some none;
  finished_at = some (some now);
}

-- `_handle_failure`.
unfoldable pub handle_failure : System → ℕ → ℕ → String → System
handle_failure sys now job_id error =
    emit
      (with_store sys (transition sys.store now job_id running failed (failure_fields now error)).0)
      job_id job_failed (Payload.failure none error)

abbrev pub retry_fields : Config → ℕ → ℕ → ℕ → String → Fields
retry_fields c now new_retry delay error = record no_fields {
  retry_count = some new_retry;
  error = some (some error);
  worker_id = some none;
  lease_expire_at = some (some (now + max c.lease_duration delay));
}

-- What `_handle_retry` did: nothing, a delayed requeue to come, or no further attempt.
pub data Retried : Type 0 where
  ignored : Retried
  due : ℕ → Retried
  over : Retried

abbrev pub backing_off : System → ℕ → ℕ → ℕ → String → Store.Store × Verdict → System × Retried
backing_off sys job_id new_retry delay error (store, done) = (
  emit (with_store sys store) job_id job_retrying (Payload.retry new_retry delay error),
  due delay,
)
backing_off sys job_id new_retry delay error (store, refused) = (with_store sys store, ignored)
backing_off sys job_id new_retry delay error (store, invalid) = (with_store sys store, ignored)

-- Retries used up: FAILED, then the dead letter queue.
unfoldable pub exhaust : System → ℕ → ℕ → ℕ → String → System
exhaust sys now job_id new_retry error =
    let moved =
      with_store sys
        (transition sys.store now job_id running failed
          (record (failure_fields now error) { retry_count = some new_retry })).0 in
    (send (emit moved job_id job_failed (Payload.failure (some new_retry) error)) now job_id
      "max_retries_exceeded" error).0

-- `_handle_retry`; `drawn` is the random part of the delay.
unfoldable pub handle_retry : Config → System → ℕ → ℕ → Failure → String → ℕ → System × Retried
handle_retry c sys now job_id failure error drawn = elim (Store.get sys.store job_id) [
  | none ↦ (sys, ignored)
  | some job ↦
      if not (should_retry failure)
      then (handle_failure sys now job_id error, over)
      else let new_retry = job.retry_count + 1 in
        let delay = compute_backoff job.retry_count c.backoff_base c.backoff_max drawn in
        if ltb new_retry job.max_retries
        then backing_off sys job_id new_retry delay error (
            transition sys.store now job_id running retrying
              (retry_fields c now new_retry delay error))
        else (exhaust sys now job_id new_retry error, over)
]

abbrev pub stop_fields : ℕ → Fields
stop_fields now = record no_fields {
  worker_id = some none;
  lease_expire_at = some none;
  cancel_requested = some false;
  finished_at = some (some now);
  error = some (some "cancelled");
}

-- The checkpoint that `_finalize_cancel` saves; an unknown agent is an exception that it swallows.
unfoldable pub resave : Config → System → ℕ → System
resave c sys job_id = elim (Store.get sys.store job_id) [
  | none ↦ sys
  | some job ↦
      if contains job.agent_name c.agents
      then save_checkpoint sys job.id
          (to_checkpoint (from_checkpoint job (load_checkpoint sys job_id)))
      else sys
]

-- `_finalize_cancel`.
unfoldable pub finalize_cancel : Config → System → ℕ → ℕ → ℕ → System
finalize_cancel c sys now job_id worker_id =
    let told = emit (resave c sys job_id) job_id job_cancelled (Payload.by_worker worker_id) in
    with_store told (transition told.store now job_id running cancelled (stop_fields now)).0

-- The way out on a crash: the lease runs out at once.
unfoldable pub crash : System → ℕ → ℕ → ℕ → System
crash sys now job_id worker_id = with_store sys (expire_lease sys.store now job_id worker_id).0

abbrev pub requeue_fields : ℕ → Fields
requeue_fields now = record no_fields {
  queued_at = some (some now);
  worker_id = some none;
  lease_expire_at = some none;
  cancel_requested = some false;
}

abbrev pub requeue_after : System → ℕ → ℕ → Store.Store × Verdict → System
requeue_after sys job_id delay (store, done) = elim (Store.get store job_id) [
  | none ↦ with_store sys store
  | some fresh ↦
      publish (emit (with_store sys store) job_id job_requeued (Payload.waited delay)) fresh
]
requeue_after sys job_id delay (store, refused) = with_store sys store
requeue_after sys job_id delay (store, invalid) = with_store sys store

-- `_delayed_requeue`, once the delay is over.
unfoldable pub delayed_requeue : System → ℕ → ℕ → ℕ → System
delayed_requeue sys now job_id delay = elim (Store.get sys.store job_id) [
  | none ↦ sys
  | some job ↦
      if is_cancel_requested sys.store job_id
      then emit
          (with_store sys (transition sys.store now job_id retrying cancelled (stop_fields now)).0)
          job_id job_cancelled (Payload.because "cancelled_while_retrying")
      else requeue_after sys job_id delay
          (transition sys.store now job_id retrying queued (requeue_fields now))
]
