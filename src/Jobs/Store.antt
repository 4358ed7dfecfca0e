-- ===== src/Jobs/Store.antt =====
-- app/storage/memory.py, `MemoryJobStore`: jobs by their id, and the set of cancelled ids. Each
-- method runs under the store's lock, so it is one function; `now` is what `time.time()` returns.
-- `get` hands out the stored object itself: a later read of a field of it is a lookup at that time.
pub mod Transition
pub mod Lease
pub mod Evolution
use Prim.Native.String.{String}
use agent_learn.Base.{
  ℕ, ◌+◌, ◌-◌, Bool, true, false, not, ◌&&◌, ◌||◌, Option, none, some, List, [], ◌∷◌, ltb, ◌==◌,
  if◌then◌else◌, filter, contains, lookup, insert, map,
}
use agent_learn.Jobs.Status.{JobStatus, running, retrying, dead, status_eq, can_transition}
use agent_learn.Jobs.Job.{Job}

pub record Store : Type 0 where
  pub jobs : List (ℕ × Job)
  pub cancelled : List ℕ

unfoldable pub empty : Store
empty = record { jobs = []; cancelled = [] }

-- The keyword arguments of `transition`: `some v` where the call passes the field.
pub record Fields : Type 0 where
  pub retry_count : Option ℕ
  pub current_step : Option (Option ℕ)
  pub progress : Option ℕ
  pub worker_id : Option (Option ℕ)
  pub lease_expire_at : Option (Option ℕ)
  pub cancel_requested : Option Bool
  pub queued_at : Option (Option ℕ)
  pub started_at : Option (Option ℕ)
  pub finished_at : Option (Option ℕ)
  pub result : Option (Option ℕ)
  pub error : Option (Option String)

abbrev pub no_fields : Fields
no_fields = record {
  retry_count = none;
  current_step = none;
  progress = none;
  worker_id = none;
  lease_expire_at = none;
  cancel_requested = none;
  queued_at = none;
  started_at = none;
  finished_at = none;
  result = none;
  error = none;
}

abbrev pub given {ℓ} : {A : Type ℓ} → Option A → A → A
given none old = old
given (some new) old = new

-- `for k, v in fields.items(): setattr(job, k, v)`.
unfoldable pub set_fields : Fields → Job → Job
set_fields f j = record j {
  retry_count = given f.retry_count j.retry_count;
  current_step = given f.current_step j.current_step;
  progress = given f.progress j.progress;
  worker_id = given f.worker_id j.worker_id;
  lease_expire_at = given f.lease_expire_at j.lease_expire_at;
  cancel_requested = given f.cancel_requested j.cancel_requested;
  queued_at = given f.queued_at j.queued_at;
  started_at = given f.started_at j.started_at;
  finished_at = given f.finished_at j.finished_at;
  result = given f.result j.result;
  error = given f.error j.error;
}

unfoldable pub put : Store → Job → Store
put s j = record s { jobs = insert j.id j s.jobs }

unfoldable pub create : Store → Job → Store
unfolding put
create s j = put s j

unfoldable pub get : Store → ℕ → Option Job
get s job_id = lookup job_id s.jobs

unfoldable pub update : Store → Job → Store
unfolding put
update s j = put s j

-- What `transition` answers: the Boolean, or the exception of the state machine.
pub data Verdict : Type 0 where
  done refused invalid : Verdict

unfoldable pub stored_at : Store → ℕ → Job → Store
stored_at s job_id j = record s { jobs = insert job_id j s.jobs }

unfoldable pub transition : Store → ℕ → ℕ → JobStatus → JobStatus → Fields → Store × Verdict
transition s now job_id from to fields = elim (get s job_id) [
  | none ↦ (s, refused)
  | some job ↦
      if not (status_eq job.status from)
      then (s, refused)
      else if not (can_transition from to)
      then (s, invalid)
      else (
        stored_at s job_id (record (set_fields fields job) { status = to; updated_at = now }),
        done,
      )
]

-- `x == worker_id` for an optional owner.
abbrev pub owned_by : Option ℕ → ℕ → Bool
owned_by none w = false
owned_by (some v) w = v == w

abbrev pub after : Option ℕ → ℕ → Bool
after none now = false
after (some t) now = ltb now t

abbrev pub with_lease : Option ℕ → Option ℕ → ℕ → Job → Job
with_lease worker deadline now job = record job {
  worker_id = worker;
  lease_expire_at = deadline;
  updated_at = now;
}

unfoldable pub acquire_lease : Store → ℕ → ℕ → ℕ → ℕ → Store × Bool
acquire_lease s now job_id worker_id duration = elim (get s job_id) [
  | none ↦ (s, false)
  | some job ↦
      if after job.lease_expire_at now && not (owned_by job.worker_id worker_id)
      then (s, false)
      else (stored_at s job_id (with_lease (some worker_id) (some (now + duration)) now job), true)
]

-- The three methods below and `update_progress` share this guard.
unfoldable pub as_owner : Store → ℕ → ℕ → (Job → Job) → Store × Bool
as_owner s job_id worker_id change = elim (get s job_id) [
  | none ↦ (s, false)
  | some job ↦
      if owned_by job.worker_id worker_id
      then (stored_at s job_id (change job), true)
      else (s, false)
]

unfoldable pub renew_lease : Store → ℕ → ℕ → ℕ → ℕ → Store × Bool
unfolding as_owner
renew_lease s now job_id worker_id duration =
    as_owner s job_id worker_id λ job. with_lease job.worker_id (some (now + duration)) now job

unfoldable pub release_lease : Store → ℕ → ℕ → ℕ → Store × Bool
unfolding as_owner
release_lease s now job_id worker_id =
    as_owner s job_id worker_id λ job. with_lease none none now job

-- One second before now.
unfoldable pub expire_lease : Store → ℕ → ℕ → ℕ → Store × Bool
unfolding as_owner
expire_lease s now job_id worker_id =
    as_owner s job_id worker_id λ job. with_lease job.worker_id (some (now - 1000)) now job

abbrev or_keep {ℓ} : {A : Type ℓ} → Option A → Option A → Option A
or_keep none old = old
or_keep (some new) old = some new

abbrev pub with_progress : Option ℕ → ℕ → ℕ → Job → Job
with_progress step progress now job = record job {
  current_step = or_keep step job.current_step;
  progress = progress;
  updated_at = now;
}

unfoldable pub update_progress : Store → ℕ → ℕ → ℕ → Option ℕ → ℕ → Store × Bool
unfolding as_owner
update_progress s now job_id worker_id step progress =
    as_owner s job_id worker_id λ job. with_progress step progress now job

-- The test of `find_recoverable` on one job.
unfoldable pub recoverable : ℕ → ℕ → Job → Bool
recoverable now grace job =
    (status_eq job.status running || status_eq job.status retrying)
    && elim job.lease_expire_at [ none ↦ false | some t ↦ ltb (t + grace) now ]

abbrev pub values {ℓ} : {A : Type ℓ} → List (ℕ × A) → List A
values [] = []
values ((k, v) ∷ m) = v ∷ values m

unfoldable pub find_recoverable : Store → ℕ → ℕ → List Job
find_recoverable s now grace = filter (recoverable now grace) (values s.jobs)

abbrev remove : ℕ → List ℕ → List ℕ
remove x [] = []
remove x (y ∷ ys) = let rest = remove x ys in if y == x then rest else y ∷ rest

-- `_cancelled.add` and `_cancelled.discard`.
unfoldable pub set_cancel_requested : Store → ℕ → Bool → Store × Bool
set_cancel_requested s job_id value = elim (get s job_id) [
  | none ↦ (s, false)
  | some _ ↦
      if value
      then (
        record s {
          cancelled = if contains job_id s.cancelled then s.cancelled else job_id ∷ s.cancelled;
        },
        true,
      )
      else (record s { cancelled = remove job_id s.cancelled }, true)
]

unfoldable pub is_cancel_requested : Store → ℕ → Bool
is_cancel_requested s job_id = contains job_id s.cancelled

unfoldable pub list_dead : Store → List Job
list_dead s = filter (λ j. status_eq j.status dead) (values s.jobs)

-- One round of the loop of `count_by_status`, and the loop.
unfoldable pub count_status : JobStatus → List (JobStatus × ℕ) → List (JobStatus × ℕ)
count_status s [] = (s, 1) ∷ []
count_status s ((t, n) ∷ counts) =
    if status_eq t s then (t, n + 1) ∷ counts else (t, n) ∷ count_status s counts

unfoldable pub count_jobs : List Job → List (JobStatus × ℕ) → List (JobStatus × ℕ)
unfolding count_status
count_jobs [] counts = counts
count_jobs (j ∷ js) counts = count_jobs js (count_status j.status counts)

unfoldable pub count_by_status : Store → List (JobStatus × ℕ)
unfolding count_jobs
count_by_status s = count_jobs (values s.jobs) []
