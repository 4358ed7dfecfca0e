-- ===== src/Jobs/Service.antt =====
-- app/service.py, `JobService`: what the API calls.
use agent_learn.Base.{ℕ, true, not, ◌||◌, none, some, List, if◌then◌else◌, contains}
use agent_learn.Jobs.Status.{queued, running, retrying, cancelled, status_eq}
use agent_learn.Jobs.Job.{Job}
use agent_learn.Jobs.Job
use agent_learn.Jobs.Store.{
  Fields, no_fields, Verdict, done, refused, invalid, transition, set_cancel_requested,
}
use agent_learn.Jobs.Store
use agent_learn.Jobs.Events.{Payload, JobEvent, job_created, job_cancelled}
use agent_learn.Jobs.Events
use agent_learn.Jobs.Queue
use agent_learn.Jobs.System.{System, with_store, emit, publish}

pub data Reply {ℓ} (A : Type ℓ) : Type ℓ where
  ok : A → Reply A
  agent_not_found job_not_found : Reply A

-- `create`, with the time and the new id as arguments.
unfoldable pub create : List ℕ → System → ℕ → ℕ → ℕ → ℕ → ℕ → ℕ → ℕ → System × Reply Job
create agents sys now id agent input tenant_id priority max_retries =
    if not (contains agent agents)
    then (sys, agent_not_found)
    else let job = Job.create now id agent input tenant_id priority max_retries in
      let stored = with_store sys (Store.create sys.store job) in
      (publish (emit stored id job_created (Payload.created agent tenant_id priority)) job, ok job)

unfoldable pub get : System → ℕ → Reply Job
get sys job_id = elim (Store.get sys.store job_id) [ none ↦ job_not_found | some job ↦ ok job ]

abbrev pub cancel_fields : ℕ → Fields
cancel_fields now = record no_fields {
  finished_at = some (some now);
  error = some (some "cancelled");
}

abbrev pub announced : System → ℕ → Store.Store × Verdict → System
announced sys job_id (store, done) =
    emit (with_store sys store) job_id job_cancelled (Payload.because "queued")
announced sys job_id (store, refused) = with_store sys store
announced sys job_id (store, invalid) = with_store sys store

unfoldable pub cancel_job : System → ℕ → ℕ → Job → System
cancel_job sys now job_id job =
    if status_eq job.status queued
    then announced sys job_id (transition sys.store now job_id queued cancelled (cancel_fields now))
    else if status_eq job.status running || status_eq job.status retrying
    then with_store sys (set_cancel_requested sys.store job_id true).0
    else sys

unfoldable pub cancel : System → ℕ → ℕ → System × Reply Job
unfolding get
cancel sys now job_id = elim (Store.get sys.store job_id) [
  | none ↦ (sys, job_not_found)
  | some job ↦ (cancel_job sys now job_id job, get (cancel_job sys now job_id job) job_id)
]

unfoldable pub events : System → ℕ → Reply (List JobEvent)
events sys job_id = elim (Store.get sys.store job_id) [
  | none ↦ job_not_found
  | some job ↦ ok (Events.list sys.events job_id)
]

unfoldable pub queue_depth : System → ℕ
queue_depth sys = Queue.depth sys.queue
