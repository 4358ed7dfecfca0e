-- ===== src/Jobs/Dlq.antt =====
-- app/dlq/manager.py: the dead letter queue.
pub mod Burial
use Prim.Native.String.{String}
use agent_learn.Base.{ℕ, Bool, true, false, not, Option, none, some, List, [], ◌∷◌, if◌then◌else◌}
use agent_learn.Jobs.Status.{JobStatus, queued, running, retrying, failed, dead, status_eq}
use agent_learn.Jobs.Job.{Job}
use agent_learn.Jobs.Store.{Fields, no_fields, Verdict, done, refused, invalid, transition}
use agent_learn.Jobs.Store
use agent_learn.Jobs.Events.{Payload, job_dead, job_requeued}
use agent_learn.Jobs.System.{
  System, Answer, value, invalid_transition, with_store, emit, publish, buried_error,
}

-- The loop of `send` over the statuses that a job may be buried from.
unfoldable pub bury_from : System → ℕ → ℕ → Fields → List JobStatus → System × Answer Bool
bury_from sys now job_id fields [] = (sys, value false)
bury_from sys now job_id fields (from ∷ rest) =
    let tried = transition sys.store now job_id from dead fields in
    elim tried.1 [
      | done ↦ (with_store sys tried.0, value true)
      | refused ↦ bury_from (with_store sys tried.0) now job_id fields rest
      | invalid ↦ (with_store sys tried.0, invalid_transition)
    ]

-- The keyword arguments of the transition to DEAD.
abbrev pub burial_fields : ℕ → String → String → Fields
burial_fields now reason last_error = record no_fields {
  error = some (some (buried_error reason last_error));
  finished_at = some (some now);
  worker_id = some none;
  lease_expire_at = some none;
}

-- `send` after its loop; `retry_count` is read from the job.
abbrev pub buried : ℕ → ℕ → String → String → System × Answer Bool → System × Answer (Unit {0})
buried job_id retry_count reason last_error (sys, value true) =
    (emit sys job_id job_dead (Payload.burial reason retry_count last_error), value tt)
buried job_id retry_count reason last_error (sys, value false) = (sys, value tt)
buried job_id retry_count reason last_error (sys, invalid_transition) = (sys, invalid_transition)

unfoldable pub send : System → ℕ → ℕ → String → String → System × Answer (Unit {0})
send sys now job_id reason last_error = elim (Store.get sys.store job_id) [
  | none ↦ (sys, value tt)
  | some job ↦ buried job_id job.retry_count reason last_error (
      bury_from sys now job_id (burial_fields now reason last_error)
        (retrying ∷ failed ∷ running ∷ []))
]

-- The keyword arguments of the transition back to QUEUED.
abbrev pub requeue_fields : ℕ → Fields
requeue_fields now = record no_fields {
  retry_count = some 0;
  error = some none;
  worker_id = some none;
  lease_expire_at = some none;
  cancel_requested = some false;
  current_step = some none;
  progress = some 0;
  queued_at = some (some now);
}

-- `requeue` after its transition, which answers by a Boolean or raises.
abbrev pub requeued : System → ℕ → Job → Store.Store × Verdict → System × Answer Bool
requeued sys job_id job (store, done) = (
  publish (emit (with_store sys store) job_id job_requeued (Payload.because "dlq")) job,
  value true,
)
requeued sys job_id job (store, refused) = (with_store sys store, value false)
requeued sys job_id job (store, invalid) = (with_store sys store, invalid_transition)

unfoldable pub requeue : System → ℕ → ℕ → System × Answer Bool
requeue sys now job_id = elim (Store.get sys.store job_id) [
  | none ↦ (sys, value false)
  | some job ↦
      if not (status_eq job.status dead)
      then (sys, value false)
      else requeued sys job_id job
          (transition sys.store now job_id dead queued (requeue_fields now))
]
