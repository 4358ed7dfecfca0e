-- ===== src/Jobs/Examples/Whole.antt =====
-- The dead letter queue, the reaper, the executor and a history at concrete data.
use agent_learn.Base.{
  ◌+◌, ◌≤◌, ◌<◌, ◌≡◌, refl, ◌≢◌, ◌⊎◌, inr, true, false, none, some, [], ◌∷◌, max,
}
use agent_learn.Jobs.Status.{
  JobStatus, queued, running, retrying, success, failed, dead, is_terminal,
}
use agent_learn.Jobs.Job.{Job}
use agent_learn.Jobs.Store.{stored_at, is_cancel_requested}
use agent_learn.Jobs.Store
use agent_learn.Jobs.Store.Transition.{updated}
use agent_learn.Jobs.Store.Evolution.{SameOrder}
use agent_learn.Jobs.Queue
use agent_learn.Jobs.Events.{Payload, job_dead, job_recovered, job_cancelled, job_completed}
use agent_learn.Jobs.Events
use agent_learn.Jobs.Agent.{initial}
use agent_learn.Jobs.System.{
  System, value, invalid_transition, with_store, emit, publish, load_checkpoint,
}
use agent_learn.Jobs.Retry.{retryable, compute_backoff}
use agent_learn.Jobs.Dlq.{send}
use agent_learn.Jobs.Dlq.Burial.{dead_job, send-outcome}
use agent_learn.Jobs.Reaper.{reap_job}
use agent_learn.Jobs.Reaper.Recovery.{recovered_job, cancelled_job, reap_job-outcome}
use agent_learn.Jobs.Executor.{Config, success_fields, complete, handle_retry, due, over, crash}
use agent_learn.Jobs.Executor.Ends.{complete-unfenced, handle_retry-outcome}
use agent_learn.Jobs.Lifecycle.{here, next, crashes, reaps}
use agent_learn.Jobs.Reaper.{reap_once}
use agent_learn.Jobs.Lifecycle.History.{Unrevived, Reach-keeps}
use agent_learn.Jobs.Status.Ends.{Ended}
use agent_learn.Jobs.Examples.{job_in, store_in, get-store_in}

abbrev system_in : JobStatus → System
system_in status = record {
  store = store_in status;
  events = Events.empty;
  queue = Queue.new false;
  checkpoints = [];
}

abbrev config : Config
config = record { lease_duration = 300; backoff_base = 10; backoff_max = 600; agents = 7 ∷ [] }

send-outcome_example :
    ((running ≡ retrying) ⊎ (running ≡ failed)
      → send (system_in running) 500 1 "gone" "boom" ≡ (
        emit
            (with_store
              (system_in running)
              (stored_at (store_in running) 1 (dead_job 500 "gone" "boom" (job_in running))))
            1
            job_dead
            (Payload.burial "gone" 0 "boom"),
        value tt,
      ))
    × (running ≡ running
        → send (system_in running) 500 1 "gone" "boom" ≡ (system_in running, invalid_transition))
    × ((running ≢ retrying)
        → (running ≢ failed)
        → (running ≢ running)
        → send (system_in running) 500 1 "gone" "boom" ≡ (system_in running, value tt))
send-outcome_example =
    send-outcome (system_in running) 500 1 "gone" "boom" (job_in running) (get-store_in running)

reap_job-outcome_example :
    (is_cancel_requested (store_in retrying) 1 ≡ false
      → reap_job (system_in retrying) 900 1 ≡ (
        publish
            (emit
              (with_store
                (system_in retrying)
                (stored_at (store_in retrying) 1 (recovered_job 900 (job_in retrying))))
              1
              job_recovered
              (Payload.recovery queued none 0))
            (job_in retrying),
        value true,
      ))
    × (is_cancel_requested (store_in retrying) 1 ≡ true
        → reap_job (system_in retrying) 900 1 ≡ (
          emit
              (with_store
                (system_in retrying)
                (stored_at (store_in retrying) 1 (cancelled_job 900 (job_in retrying))))
              1
              job_cancelled
              (Payload.because "cancelled_during_recovery"),
          value false,
        ))
reap_job-outcome_example =
    reap_job-outcome (system_in retrying) 900 1 (job_in retrying) (get-store_in retrying) (inr refl)

complete-unfenced_example :
    let s = initial (job_in queued) in
    (queued ≡ running
      → Store.get (complete (system_in queued) 900 1 s).store 1
        ≡ some (updated 900 success (success_fields 900 s.values) (job_in queued)))
    × (queued ≢ running → (complete (system_in queued) 900 1 s).store ≡ store_in queued)
    × ((complete (system_in queued) 900 1 s).events
        ≡ Events.append Events.empty 1 job_completed (Payload.outcome (some s.values)))
    × (load_checkpoint (complete (system_in queued) 900 1 s) 1 ≡ none)
complete-unfenced_example =
    complete-unfenced (system_in queued) 900 1 (initial (job_in queued)) (job_in queued)
      (get-store_in queued)

handle_retry-outcome_example :
    let r = handle_retry config (system_in running) 900 1 retryable "boom" 4 in
    let d = compute_backoff 0 10 600 4 in
    (0 + 1 < 2
      → (j' : Job) × (Store.get r.0.store 1 ≡ some j')
        × (j'.status ≡ retrying)
        × (j'.retry_count ≡ 0 + 1)
        × (j'.worker_id ≡ none)
        × (j'.lease_expire_at ≡ some (900 + max 300 d))
        × (r.1 ≡ due d))
    × (2 ≤ 0 + 1
        → (j' : Job) × (Store.get r.0.store 1 ≡ some j')
          × (j'.status ≡ dead)
          × (j'.retry_count ≡ 0 + 1)
          × (r.1 ≡ over))
handle_retry-outcome_example =
    handle_retry-outcome config (system_in running) 900 1 "boom" 4 (job_in running)
      (get-store_in running) refl

-- The worker crashes, and the reaper comes by.
abbrev crashed : System
crashed = crash (system_in running) 500 1 5

Reach-keeps_example :
    (j' : Job) × (Store.get (reap_once crashed 900 0).0.store 1 ≡ some j')
    × SameOrder (job_in running) j'
    × (is_terminal running ≡ true → j'.status ≡ running)
    × (Unrevived {c = config}
          (next (next here (crashes (system_in running) 500 1 5)) (reaps crashed 900 0))
        → Ended running j'.status)
Reach-keeps_example =
    Reach-keeps config (system_in running) (reap_once crashed 900 0).0
      (next (next here (crashes (system_in running) 500 1 5)) (reaps crashed 900 0)) 1
      (job_in running) (get-store_in running)
