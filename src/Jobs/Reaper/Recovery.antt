-- ===== src/Jobs/Reaper/Recovery.antt =====
-- What one round of the reaper does with a job whose lease ran out.
use agent_learn.Base.{
  ℕ, ◌-◌, ◌≡◌, refl, ap, ◌∙◌, ◌⊎◌, true, false, not, ◌||◌, none, some, arith, if◌then◌else◌,
}
use agent_learn.Jobs.Status.{queued, running, retrying, cancelled, status_eq, can_transition}
use agent_learn.Jobs.Job.{Job}
use agent_learn.Jobs.Store.{
  Store, Fields, done, refused, invalid, stored_at, transition, is_cancel_requested, set_fields,
}
use agent_learn.Jobs.Store
use agent_learn.Jobs.Store.Transition.{get-stored_at_self, transition-done, updated}
use agent_learn.Jobs.Events.{Payload, job_cancelled, job_recovered}
use agent_learn.Jobs.System.{System, value, with_store, emit, publish}
use agent_learn.Jobs.Reaper.{reap_job, recovered, dropped, announce, recovery_fields, cancel_fields}

abbrev InFlight : Job → Type 0
InFlight j = (j.status ≡ running) ⊎ (j.status ≡ retrying)

-- The job as the reaper puts it back.
abbrev pub recovered_job : ℕ → Job → Job
recovered_job now j = updated now queued (recovery_fields now j) j

abbrev pub cancelled_job : ℕ → Job → Job
cancelled_job now j = updated now cancelled (cancel_fields now) j

InFlight-live :
    (j : Job) → InFlight j → not (status_eq j.status running || status_eq j.status retrying) ≡ false
InFlight-live j h = ground arith

InFlight-may :
    (j : Job)
    → InFlight j
    → (can_transition j.status queued ≡ true) × (can_transition j.status cancelled ≡ true)
unfolding can_transition
InFlight-may j h = ground arith

module _ (sys : System) (now id : ℕ) (j : Job) (at : Store.get sys.store id ≡ some j)
    (h : InFlight j) where
  announce-put :
      (j' : Job)
      → announce (with_store sys (stored_at sys.store id j')) now id
        ≡ publish
            (emit
              (with_store sys (stored_at sys.store id j'))
              id
              job_recovered
              (Payload.recovery j'.status j'.worker_id (now - j'.updated_at)))
            j'
  announce-put j' = rw (get-stored_at_self sys.store id j', announce)

  reap_job-round : reap_job sys now id ≡ (
      if is_cancel_requested sys.store id
      then dropped sys id (transition sys.store now id j.status cancelled (cancel_fields now))
      else recovered sys now id
          (transition sys.store now id j.status queued (recovery_fields now j)))
  unfolding reap_job
  reap_job-round = rw (at, reap_job) (rw (InFlight-live j h))

-- A job in flight goes back to the queue, with no worker and no lease, and is published under its
-- own priority and tenant; a job whose cancellation was requested is cancelled instead. The event of
-- a recovery is meant to tell from which status and from which worker the job came. It is made after
-- the transition from the same object, and so it always names the status QUEUED, no worker, and a
-- stall of no time.
pub reap_job-outcome :
    (sys : System) (now id : ℕ) (j : Job)
    → Store.get sys.store id ≡ some j
    → InFlight j
    → (is_cancel_requested sys.store id ≡ false
        → reap_job sys now id ≡ (
          publish
              (emit
                (with_store sys (stored_at sys.store id (recovered_job now j)))
                id
                job_recovered
                (Payload.recovery queued none 0))
              j,
          value true,
        ))
      × (is_cancel_requested sys.store id ≡ true
          → reap_job sys now id ≡ (
            emit
                (with_store sys (stored_at sys.store id (cancelled_job now j)))
                id
                job_cancelled
                (Payload.because "cancelled_during_recovery"),
            value false,
          ))
unfolding set_fields
reap_job-outcome sys now id j at h = (
  λ go.
      reap_job-round sys now id j at h
      ∙ rw
          (
            go,
            transition-done sys.store now id j.status queued (recovery_fields now j) j at refl
                (InFlight-may j h).0,
          )
          (ap (λ a. (a, value true))
            (announce-put sys now id j at h (recovered_job now j) ∙ no_stall)),
  λ stop.
      reap_job-round sys now id j at h
      ∙ rw (
        stop,
        transition-done sys.store now id j.status cancelled (cancel_fields now) j at refl
            (InFlight-may j h).1,
      ),
)
  where
    back : Job → ℕ → System
    back j' stall =
        publish
          (emit (with_store sys (stored_at sys.store id (recovered_job now j))) id job_recovered
            (Payload.recovery queued none stall))
          j'

    no_stall : back (recovered_job now j) (now - now) ≡ back j 0
    no_stall = ap (back j) (omega arith)
