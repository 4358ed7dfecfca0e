-- ===== src/Jobs/Examples.antt =====
-- The theorems on the job queue at a concrete job: job 1 of tenant 2, in each of its statuses.
mod Parts
mod Whole
use Prim.Native.String.{String}
use agent_learn.Base.{
  ℕ, suc, ◌+◌, ◌*◌, ◌^◌, ◌≤◌, ◌<◌, ◌≡◌, refl, ◌≢◌, ◌↔◌, ◌⊎◌, inl, inr, Bool, true, false, Option,
  none, some, List, [], ◌∷◌, ◌++◌, arith, ◌==◌, if◌then◌else◌, All, contains, lookup, insert, min,
  max,
}
use agent_learn.Jobs.Status.{
  JobStatus, queued, running, retrying, success, failed, cancelled, dead, can_transition,
  is_terminal,
}
use agent_learn.Jobs.Status.Graph.{◌⟶*◌, can_transition-terminal}
use agent_learn.Jobs.Job.{Job}
use agent_learn.Jobs.Store.{
  Store, Verdict, done, invalid, refused, no_fields, acquire_lease, stored_at, transition,
  is_cancel_requested,
}
use agent_learn.Jobs.Store
use agent_learn.Jobs.Store.Transition.{updated, transition-outcome}
use agent_learn.Jobs.Store.Lease.{
  Free, Attempt, Intruder, run_attempts, renews, acquires, releases, acquire_lease-exclusive,
}

abbrev pub job_in : JobStatus → Job
job_in status = record {
  id = 1;
  tenant_id = 2;
  agent_name = 7;
  input = 11;
  status = status;
  priority = 3;
  retry_count = 0;
  max_retries = 2;
  current_step = none;
  progress = 0;
  worker_id = some 5;
  lease_expire_at = some 400;
  cancel_requested = false;
  queued_at = some 100;
  started_at = some 200;
  finished_at = none;
  result = none;
  error = none;
  created_at = 100;
  updated_at = 200;
}

abbrev pub store_in : JobStatus → Store
store_in status = record { jobs = (1, job_in status) ∷ []; cancelled = [] }

pub get-store_in : (status : JobStatus) → Store.get (store_in status) 1 ≡ some (job_in status)
unfolding Store.get lookup
get-store_in status = refl

transition-outcome_example :
    let answer = transition (store_in running) 300 1 running success no_fields in
    let Expected = (j : Job) × (Store.get (store_in running) 1 ≡ some j) × (j.status ≡ running) in
    ((answer.1 ≡ done) ↔ (Expected × (can_transition running success ≡ true)))
    × ((answer.1 ≡ invalid) ↔ (Expected × (can_transition running success ≡ false)))
    × (answer.1 ≢ done → answer.0 ≡ store_in running)
    × ((j : Job)
        → Store.get (store_in running) 1 ≡ some j
        → answer.1 ≡ done
        → (i : ℕ)
        → Store.get answer.0 i ≡ (
            if 1 == i
            then some (updated 300 success no_fields j)
            else Store.get (store_in running) i))
transition-outcome_example = transition-outcome (store_in running) 300 1 running success no_fields

acquire_lease-exclusive_example :
    (((acquire_lease (store_in queued) 500 1 9 60).1 ≡ true)
      ↔ ((j : Job) × (Store.get (store_in queued) 1 ≡ some j) × Free 500 9 j))
    × ((rest : List Attempt)
        → (acquire_lease (store_in queued) 500 1 9 60).1 ≡ true
        → All (Intruder 9 560) rest
        → run_attempts (acquire_lease (store_in queued) 500 1 9 60).0 1 rest
          ≡ ((acquire_lease (store_in queued) 500 1 9 60).0, false))
acquire_lease-exclusive_example = acquire_lease-exclusive (store_in queued) 500 1 9 60
