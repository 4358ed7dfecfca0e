-- ===== src/Jobs/Executor/Ends.antt =====
-- The ways a run ends.
use Prim.Native.String.{String}
use agent_learn.Base.{
  ℕ, ◌+◌, ◌≤◌, ◌<◌, ◌≡◌, refl, ap, ◌∙◌, ◌≢◌, inr, none, some, arith, lt→ltb, le→ltb_false, max,
  lookup-erase, ==_refl,
}
use agent_learn.Jobs.Status.{running, retrying, success, failed, dead, can_transition}
use agent_learn.Jobs.Job.{Job}
use agent_learn.Jobs.Store.{
  Store, Fields, done, refused, invalid, stored_at, transition, set_fields,
}
use agent_learn.Jobs.Store
use agent_learn.Jobs.Store.Transition.{
  get-stored_at_self, transition-stale, transition-done, updated,
}
use agent_learn.Jobs.Events.{Payload, job_failed, job_retrying, job_completed, job_dead}
use agent_learn.Jobs.Events
use agent_learn.Jobs.Agent.{AgentState}
use agent_learn.Jobs.Retry.{retryable, should_retry, compute_backoff}
use agent_learn.Jobs.System.{System, with_store, emit, load_checkpoint}
use agent_learn.Jobs.Dlq.{send}
use agent_learn.Jobs.Dlq.Burial.{dead_job, send-outcome}
use agent_learn.Jobs.Executor.{
  Config, complete, success_fields, handle_retry, exhaust, retry_fields, failure_fields, due, over,
}

-- `complete` looks neither at the worker that calls it nor at the answer of its transition. While the
-- job is RUNNING it succeeds, whichever worker holds the lease. In any other status the job stays as
-- it is, and yet a JOB_COMPLETED event is logged and the checkpoint of the job is deleted.
pub complete-unfenced :
    (sys : System) (now id : ℕ) (s : AgentState) (j : Job)
    → Store.get sys.store id ≡ some j
    → (j.status ≡ running
        → Store.get (complete sys now id s).store id
          ≡ some (updated now success (success_fields now s.values) j))
      × (j.status ≢ running → (complete sys now id s).store ≡ sys.store)
      × ((complete sys now id s).events
          ≡ Events.append sys.events id job_completed (Payload.outcome (some s.values)))
      × (load_checkpoint (complete sys now id s) id ≡ none)
unfolding complete can_transition
complete-unfenced sys now id s j at = (
  λ h.
      ap (λ t. Store.get t.0 id)
        (transition-done sys.store now id running success (success_fields now s.values) j at h refl)
      ∙ get-stored_at_self sys.store id _,
  λ h.
      ap (λ t. t.0)
        (transition-stale sys.store now id running success (success_fields now s.values) j at
          (ground arith)),
  refl,
  lookup-erase id id sys.checkpoints ∙ rw (==_refl id),
)

module _ (c : Config) (sys : System) (now id : ℕ) (error : String) (drawn : ℕ) (j : Job)
    (at : Store.get sys.store id ≡ some j) (h : j.status ≡ running) where
  abbrev new_retry : ℕ
  new_retry = j.retry_count + 1

  abbrev delay : ℕ
  delay = compute_backoff j.retry_count c.backoff_base c.backoff_max drawn

  handle_retry-again :
      new_retry < j.max_retries
      → handle_retry c sys now id retryable error drawn ≡ (
        emit
            (with_store sys (
              stored_at sys.store id
                (updated now retrying (retry_fields c now new_retry delay error) j)))
            id
            job_retrying
            (Payload.retry new_retry delay error),
        due delay,
      )
  unfolding handle_retry should_retry can_transition
  handle_retry-again left =
      rw (at, handle_retry)
        (rw (lt→ltb new_retry j.max_retries left) (
          rw (
            transition-done sys.store now id running retrying
              (retry_fields c now new_retry delay error) j at h refl)))

  -- The job after FAILED.
  abbrev failed_job : Job
  failed_job =
      updated now failed (record (failure_fields now error) { retry_count = some new_retry }) j

  abbrev failed_system : System
  failed_system =
      emit (with_store sys (stored_at sys.store id failed_job)) id job_failed
        (Payload.failure (some new_retry) error)

  exhaust-failed :
      exhaust sys now id new_retry error
      ≡ (send failed_system now id "max_retries_exceeded" error).0
  unfolding exhaust can_transition
  exhaust-failed =
      ap
        (λ t.
          (send (emit (with_store sys t.0) id job_failed (Payload.failure (some new_retry) error))
            now id "max_retries_exceeded" error).0)
        (transition-done sys.store now id running failed
          (record (failure_fields now error) { retry_count = some new_retry }) j at h refl)

  handle_retry-last :
      j.max_retries ≤ new_retry
      → handle_retry c sys now id retryable error drawn ≡ (exhaust sys now id new_retry error, over)
  unfolding handle_retry should_retry
  handle_retry-last used = rw (at, handle_retry) (rw (le→ltb_false new_retry j.max_retries used))

-- What becomes of a RUNNING job whose step raised a retryable error. While the count of retries stays
-- below the job's limit it is RETRYING under the increased count, no worker holds it and its lease
-- covers the delay, and a requeue is due after that delay. At the limit it is DEAD under the increased
-- count, and no requeue is due.
pub handle_retry-outcome :
    (c : Config) (sys : System) (now id : ℕ) (error : String) (drawn : ℕ) (j : Job)
    → Store.get sys.store id ≡ some j
    → j.status ≡ running
    → let r = handle_retry c sys now id retryable error drawn in
      let d = compute_backoff j.retry_count c.backoff_base c.backoff_max drawn in
      (j.retry_count + 1 < j.max_retries
        → (j' : Job) × (Store.get r.0.store id ≡ some j')
          × (j'.status ≡ retrying)
          × (j'.retry_count ≡ j.retry_count + 1)
          × (j'.worker_id ≡ none)
          × (j'.lease_expire_at ≡ some (now + max c.lease_duration d))
          × (r.1 ≡ due d))
      × (j.max_retries ≤ j.retry_count + 1
          → (j' : Job) × (Store.get r.0.store id ≡ some j')
            × (j'.status ≡ dead)
            × (j'.retry_count ≡ j.retry_count + 1)
            × (r.1 ≡ over))
unfolding set_fields
handle_retry-outcome c sys now id error drawn j at h = (
  λ left.
      let e = handle_retry-again c sys now id error drawn j at h left in
      (
        updated now retrying
            (retry_fields c now (j.retry_count + 1)
              (compute_backoff j.retry_count c.backoff_base c.backoff_max drawn) error)
            j,
        ap (λ r. Store.get r.0.store id) e ∙ get-stored_at_self sys.store id _,
        refl,
        refl,
        refl,
        refl,
        ap (λ r. r.1) e,
      ),
  λ used.
      let e = handle_retry-last c sys now id error drawn j at h used in
      let f = failed_job c sys now id error drawn j at h in
      let fs = failed_system c sys now id error drawn j at h in
      let there : Store.get fs.store id ≡ some f = get-stored_at_self sys.store id f in
      let gone = (send-outcome fs now id "max_retries_exceeded" error f there).0 (inr refl) in
      (
        dead_job now "max_retries_exceeded" error f,
        ap (λ r. Store.get r.0.store id) e
            ∙ ap (λ t. Store.get t.store id) (exhaust-failed c sys now id error drawn j at h)
            ∙ ap (λ r. Store.get r.0.store id) gone
            ∙ get-stored_at_self fs.store id _,
        refl,
        refl,
        ap (λ r. r.1) e,
      ),
)
