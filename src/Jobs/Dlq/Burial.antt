-- ===== src/Jobs/Dlq/Burial.antt =====
-- What `send` does from each status, and what `requeue` undoes.
use Prim.Native.String.{String}
use agent_learn.Base.{
  ℕ, ◌≡◌, refl, ap, ◌∙◌, ◌≢◌, Bool, ◌⊎◌, inl, inr, true, false, some, List, [], ◌∷◌, arith,
}
use agent_learn.Jobs.Status.{JobStatus, running, retrying, failed, dead, status_eq, can_transition}
use agent_learn.Jobs.Job.{Job}
use agent_learn.Jobs.Store.{Store, Fields, done, refused, invalid, stored_at, transition}
use agent_learn.Jobs.Store
use agent_learn.Jobs.Store.Transition.{
  transition-stale, transition-invalid, transition-done, updated,
}
use agent_learn.Jobs.Events.{Payload, job_dead}
use agent_learn.Jobs.System.{System, Answer, value, invalid_transition, with_store, emit}
use agent_learn.Jobs.Dlq.{bury_from, burial_fields, buried, send}

ne→eq_false : (a b : JobStatus) → a ≢ b → status_eq a b ≡ false
ne→eq_false a b h = ground arith

-- The job as the dead letter queue keeps it.
abbrev pub dead_job : ℕ → String → String → Job → Job
dead_job now reason last_error j = updated now dead (burial_fields now reason last_error) j

module _ (sys : System) (now id : ℕ) (fields : Fields) (j : Job)
    (at : Store.get sys.store id ≡ some j) where
  bury_hit :
      (from : JobStatus) (rest : List JobStatus)
      → j.status ≡ from
      → can_transition from dead ≡ true
      → bury_from sys now id fields (from ∷ rest)
        ≡ (with_store sys (stored_at sys.store id (updated now dead fields j)), value true)
  unfolding bury_from
  bury_hit from rest h ok =
      let e = transition-done sys.store now id from dead fields j at h ok in
      rw (e, bury_from) (rw e)

  bury_illegal :
      (from : JobStatus) (rest : List JobStatus)
      → j.status ≡ from
      → can_transition from dead ≡ false
      → bury_from sys now id fields (from ∷ rest) ≡ (sys, invalid_transition)
  unfolding bury_from
  bury_illegal from rest h bad =
      let e = transition-invalid sys.store now id from dead fields j at h bad in
      rw (e, bury_from) (rw e)

  bury_miss :
      (from : JobStatus) (rest : List JobStatus)
      → status_eq j.status from ≡ false
      → bury_from sys now id fields (from ∷ rest) ≡ bury_from sys now id fields rest
  unfolding bury_from
  bury_miss from rest other =
      let e = transition-stale sys.store now id from dead fields j at other in
      rw (e, bury_from) (rw e)

  bury_end : bury_from sys now id fields [] ≡ (sys, value false)
  unfolding bury_from
  bury_end = refl

module _ (sys : System) (now id : ℕ) (reason last_error : String) (j : Job)
    (at : Store.get sys.store id ≡ some j) where
  abbrev fields : Fields
  fields = burial_fields now reason last_error

  send-bury :
      send sys now id reason last_error
      ≡ buried id j.retry_count reason last_error
          (bury_from sys now id fields (retrying ∷ failed ∷ running ∷ []))
  unfolding send
  send-bury = rw (at, send)

  -- The outcome when the job goes to the dead letter queue.
  abbrev burial : System × Answer (Unit {0})
  burial = (
    emit (with_store sys (stored_at sys.store id (dead_job now reason last_error j))) id job_dead
        (Payload.burial reason j.retry_count last_error),
    value tt,
  )

  abbrev end_of : System × Answer Bool → System × Answer (Unit {0})
  end_of = buried id j.retry_count reason last_error

  send-retrying : j.status ≡ retrying → send sys now id reason last_error ≡ burial
  unfolding can_transition
  send-retrying h =
      send-bury
      ∙ ap end_of (bury_hit sys now id fields j at retrying (failed ∷ running ∷ []) h refl)

  send-failed : j.status ≡ failed → send sys now id reason last_error ≡ burial
  unfolding can_transition
  send-failed h =
      send-bury
      ∙ ap end_of (
          bury_miss sys now id fields j at retrying (failed ∷ running ∷ []) (rw h)
          ∙ bury_hit sys now id fields j at failed (running ∷ []) h refl)

  send-running : j.status ≡ running → send sys now id reason last_error ≡ (sys, invalid_transition)
  unfolding can_transition
  send-running h =
      send-bury
      ∙ ap end_of (
          bury_miss sys now id fields j at retrying (failed ∷ running ∷ []) (rw h)
          ∙ bury_miss sys now id fields j at failed (running ∷ []) (rw h)
          ∙ bury_illegal sys now id fields j at running [] h refl)

  send-other :
      status_eq j.status retrying ≡ false
      → status_eq j.status failed ≡ false
      → status_eq j.status running ≡ false
      → send sys now id reason last_error ≡ (sys, value tt)
  send-other r f u =
      send-bury
      ∙ ap end_of (
          bury_miss sys now id fields j at retrying (failed ∷ running ∷ []) r
          ∙ bury_miss sys now id fields j at failed (running ∷ []) f
          ∙ bury_miss sys now id fields j at running [] u
          ∙ bury_end sys now id fields j at)

-- What `send` does to a stored job. From RETRYING or FAILED it makes the job DEAD, with no worker and
-- no lease and with the reason as its error, and appends one JOB_DEAD event. From RUNNING it raises
-- and changes nothing, and from any other status it does nothing.
pub send-outcome :
    (sys : System) (now id : ℕ) (reason last_error : String) (j : Job)
    → Store.get sys.store id ≡ some j
    → ((j.status ≡ retrying) ⊎ (j.status ≡ failed)
        → send sys now id reason last_error ≡ (
          emit
              (with_store sys (stored_at sys.store id (dead_job now reason last_error j)))
              id
              job_dead
              (Payload.burial reason j.retry_count last_error),
          value tt,
        ))
      × (j.status ≡ running → send sys now id reason last_error ≡ (sys, invalid_transition))
      × ((j.status ≢ retrying)
          → (j.status ≢ failed)
          → (j.status ≢ running)
          → send sys now id reason last_error ≡ (sys, value tt))
send-outcome sys now id reason last_error j at = (
  elim [
    | inl h ↦ send-retrying sys now id reason last_error j at h
    | inr h ↦ send-failed sys now id reason last_error j at h
  ],
  send-running sys now id reason last_error j at,
  λ r f u.
      send-other sys now id reason last_error j at (ne→eq_false j.status retrying r)
        (ne→eq_false j.status failed f) (ne→eq_false j.status running u),
)
