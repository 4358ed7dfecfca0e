-- ===== src/Jobs/Reaper.antt =====
-- app/worker/reaper.py, `Reaper.reap_once`: jobs whose lease ran out go back to the queue.
pub mod Recovery
use Prim.Native.String.{String}
use text.Mathlib.Text.{◌==◌ as str_eq}
use agent_learn.Base.{
  ℕ, suc, ◌+◌, ◌-◌, Bool, true, false, not, ◌||◌, Option, none, some, List, [], ◌∷◌, if◌then◌else◌,
}
use agent_learn.Jobs.Status.{JobStatus, queued, running, retrying, cancelled, status_eq}
use agent_learn.Jobs.Job.{Job}
use agent_learn.Jobs.Store.{
  Fields, no_fields, Verdict, done, refused, invalid, transition, find_recoverable,
  is_cancel_requested,
}
use agent_learn.Jobs.Store
use agent_learn.Jobs.Events.{Payload, job_cancelled, job_recovered}
use agent_learn.Jobs.System.{System, Answer, value, invalid_transition, with_store, emit, publish}

-- `job.error or "recovered: lease expired"`: an empty text counts as none.
abbrev given_error : Option String → String
given_error none = "recovered: lease expired"
given_error (some e) = if str_eq e "" then "recovered: lease expired" else e

abbrev pub cancel_fields : ℕ → Fields
cancel_fields now = record no_fields {
  worker_id = some none;
  lease_expire_at = some none;
  cancel_requested = some false;
  finished_at = some (some now);
  error = some (some "cancelled");
}

abbrev pub recovery_fields : ℕ → Job → Fields
recovery_fields now job = record no_fields {
  worker_id = some none;
  lease_expire_at = some none;
  queued_at = some (some now);
  cancel_requested = some false;
  error = some (some (given_error job.error));
}

-- The event of a recovery. The job is the stored object, so its fields are read after the
-- transition has written them.
abbrev pub announce : System → ℕ → ℕ → System
announce sys now job_id = elim (Store.get sys.store job_id) [
  | none ↦ sys
  | some job ↦
      publish
        (emit sys job_id job_recovered
          (Payload.recovery job.status job.worker_id (now - job.updated_at)))
        job
]

-- Whether a job went back to the queue; a raise ends the sweep.
abbrev pub recovered : System → ℕ → ℕ → Store.Store × Verdict → System × Answer Bool
recovered sys now job_id (store, done) = (announce (with_store sys store) now job_id, value true)
recovered sys now job_id (store, refused) = (with_store sys store, value false)
recovered sys now job_id (store, invalid) = (with_store sys store, invalid_transition)

abbrev pub dropped : System → ℕ → Store.Store × Verdict → System × Answer Bool
dropped sys job_id (store, invalid) = (with_store sys store, invalid_transition)
dropped sys job_id (store, done) = (
  emit (with_store sys store) job_id job_cancelled (Payload.because "cancelled_during_recovery"),
  value false,
)
dropped sys job_id (store, refused) = (
  emit (with_store sys store) job_id job_cancelled (Payload.because "cancelled_during_recovery"),
  value false,
)

-- One round of the loop.
unfoldable pub reap_job : System → ℕ → ℕ → System × Answer Bool
reap_job sys now job_id = elim (Store.get sys.store job_id) [
  | none ↦ (sys, value false)
  | some job ↦
      if not (status_eq job.status running || status_eq job.status retrying)
      then (sys, value false)
      else if is_cancel_requested sys.store job_id
      then dropped sys job_id
          (transition sys.store now job_id job.status cancelled (cancel_fields now))
      else recovered sys now job_id
          (transition sys.store now job_id job.status queued (recovery_fields now job))
]

unfoldable pub reap_all : System → ℕ → List Job → System × Answer ℕ
reap_all sys now [] = (sys, value 0)
reap_all sys now (job ∷ jobs) =
    let first = reap_job sys now job.id in
    let rest = reap_all first.0 now jobs in
    elim first.1 [
      | value true ↦ (
        rest.0,
        elim rest.1 [ value n ↦ value (suc n) | invalid_transition ↦ invalid_transition ],
      )
      | value false ↦ rest
      | invalid_transition ↦ (first.0, invalid_transition)
    ]

unfoldable pub reap_once : System → ℕ → ℕ → System × Answer ℕ
reap_once sys now grace = reap_all sys now (find_recoverable sys.store now grace)
