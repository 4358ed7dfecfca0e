-- ===== src/Jobs/Store/Lease.antt =====
-- Who may hold the lease of a job.
use agent_learn.Base.{
  ℕ, ◌+◌, ◌<◌, ◌≡◌, refl, ◌≢◌, ◌∙◌, ◌⊎◌, inl, inr, ◌↔◌, Bool, true, false, not, ◌&&◌, ◌||◌, Option,
  some, List, [], ◌∷◌, arith, if◌then◌else◌, ==_refl, Option-cases, All,
}
use agent_learn.Jobs.Job.{Job}
use agent_learn.Jobs.Store.{
  Store, get, stored_at, owned_by, after, with_lease, acquire_lease, as_owner, renew_lease,
  release_lease, expire_lease, update_progress,
}
use agent_learn.Jobs.Store.Transition.{get-stored_at}

-- The lease of the job is not live, or it is the worker's own.
abbrev pub Free : ℕ → ℕ → Job → Type 0
Free now w j = (after j.lease_expire_at now ≡ false) ⊎ (owned_by j.worker_id w ≡ true)

module _ (s : Store) (now job_id w d : ℕ) where
  acquire_some :
      (j : Job)
      → get s job_id ≡ some j
      → acquire_lease s now job_id w d ≡ (
          if after j.lease_expire_at now && not (owned_by j.worker_id w)
          then (s, false)
          else (stored_at s job_id (with_lease (some w) (some (now + d)) now j), true))
  unfolding acquire_lease
  acquire_some j e = rw (e, acquire_lease)

  granted-Free :
      (acquire_lease s now job_id w d).1 ≡ true
      → (j : Job) × (get s job_id ≡ some j)
        × Free now w j
        × ((acquire_lease s now job_id w d).0
            ≡ stored_at s job_id (with_lease (some w) (some (now + d)) now j))
  unfolding acquire_lease
  granted-Free h = elim (Option-cases (get s job_id)) [
    | inl e ↦ absurd (ground arith)
    | inr (j, e) ↦ (j, e, ground arith, ground arith)
  ]

  Free-granted :
      (j : Job) → get s job_id ≡ some j → Free now w j → (acquire_lease s now job_id w d).1 ≡ true
  Free-granted j e f = ground (arith, acquire_some j e)

-- One call on the lease of a job, by some worker at some time.
pub data LeaseCall : Type 0 where
  acquires renews : ℕ → LeaseCall
  releases expires : LeaseCall
  progresses : Option ℕ → ℕ → LeaseCall

pub record Attempt : Type 0 where
  pub worker : ℕ
  pub time : ℕ
  pub call : LeaseCall

attempt_call : Store → ℕ → ℕ → ℕ → LeaseCall → Store × Bool
attempt_call s job_id w t (acquires d) = acquire_lease s t job_id w d
attempt_call s job_id w t (renews d) = renew_lease s t job_id w d
attempt_call s job_id w t releases = release_lease s t job_id w
attempt_call s job_id w t expires = expire_lease s t job_id w
attempt_call s job_id w t (progresses step p) = update_progress s t job_id w step p

-- The store after a list of attempts, and whether one of them was granted.
pub run_attempts : Store → ℕ → List Attempt → Store × Bool
run_attempts s job_id [] = (s, false)
run_attempts s job_id (a ∷ rest) =
    let (s', granted) = attempt_call s job_id a.worker a.time a.call in
    let (s'', later) = run_attempts s' job_id rest in (s'', granted || later)

abbrev pub Intruder : ℕ → ℕ → Attempt → Type 0
Intruder w deadline a = (a.worker ≢ w) × (a.time < deadline)

module _ (s : Store) (job_id w deadline : ℕ) (j : Job) (at : get s job_id ≡ some j)
    (holder : j.worker_id ≡ some w) (lease : j.lease_expire_at ≡ some deadline) where
  not_owner : (v : ℕ) → v ≢ w → (change : Job → Job) → as_owner s job_id v change ≡ (s, false)
  unfolding as_owner
  not_owner v h change = ground arith

  intruder_refused :
      (v t : ℕ) (call : LeaseCall)
      → v ≢ w
      → t < deadline
      → attempt_call s job_id v t call ≡ (s, false)
  unfolding attempt_call renew_lease release_lease expire_lease update_progress
  intruder_refused v t (acquires d) h lt = ground (arith, acquire_some s t job_id v d j at)
  intruder_refused v t (renews d) h lt = not_owner v h _
  intruder_refused v t releases h lt = not_owner v h _
  intruder_refused v t expires h lt = not_owner v h _
  intruder_refused v t (progresses step p) h lt = not_owner v h _

  intruders_refused :
      (rest : List Attempt)
      → All (Intruder w deadline) rest
      → run_attempts s job_id rest ≡ (s, false)
  unfolding run_attempts
  intruders_refused [] all = refl
  intruders_refused (a ∷ rest) all =
      rw (intruder_refused a.worker a.time a.call all.0.0 all.0.1) (intruders_refused rest all.1)

-- A worker gets the lease exactly when the job exists and its lease is its own or is not live; so a
-- live lease without an owner keeps everybody out. Once it has the lease, each call of another worker
-- before the deadline to acquire, renew, release or expire the lease or to report progress is refused
-- and changes nothing, over any sequence of these five calls. The end of a job by `transition`, which
-- looks at no lease, is not among them.
pub acquire_lease-exclusive :
    (s : Store) (now job_id w d : ℕ)
    → (((acquire_lease s now job_id w d).1 ≡ true)
        ↔ ((j : Job) × (get s job_id ≡ some j) × Free now w j))
      × ((rest : List Attempt)
          → (acquire_lease s now job_id w d).1 ≡ true
          → All (Intruder w (now + d)) rest
          → run_attempts (acquire_lease s now job_id w d).0 job_id rest
            ≡ ((acquire_lease s now job_id w d).0, false))
acquire_lease-exclusive s now job_id w d = (
  (
    λ h. let (j, e, f, _) = granted-Free s now job_id w d h in (j, e, f),
    λ (j, e, f). Free-granted s now job_id w d j e f,
  ),
  λ rest h all.
      let (j, e, _, made) = granted-Free s now job_id w d h in
      let new = with_lease (some w) (some (now + d)) now j in
      intruders_refused (acquire_lease s now job_id w d).0 job_id w (now + d) new
        (rw made (get-stored_at s job_id job_id new ∙ rw (==_refl job_id))) refl refl rest all,
)
