-- ===== src/Jobs/Lifecycle/Evolve.antt =====
-- Every step of the queue lets each job go only along the arrows of the table.
use Prim.Native.String.{String}
use agent_learn.Base.{
  ℕ, ◌+◌, ◌≡◌, refl, subst, inl, inr, not, ltb, some, List, arith, Bool-cases, Option-cases,
}
use agent_learn.Jobs.Status.{queued, running, retrying, success, failed, cancelled}
use agent_learn.Jobs.Job.{Job}
use agent_learn.Jobs.Store.{
  Store, Fields, Verdict, done, refused, invalid, stored_at, transition, renew_lease,
  is_cancel_requested, set_cancel_requested, acquire_lease, expire_lease,
}
use agent_learn.Jobs.Store
use agent_learn.Jobs.Store.Evolution.{
  Evolves, Evolves-refl, Evolves-trans, transition-Evolves, acquire_lease-Evolves,
  expire_lease-Evolves, update_progress-Evolves,
}
use agent_learn.Jobs.Agent.{AgentState, apply, progress}
use agent_learn.Jobs.System.{System}
use agent_learn.Jobs.Retry.{Failure, should_retry, compute_backoff}
use agent_learn.Jobs.Executor.{
  Config, claim, start, started, step_begin, step_end, complete, handle_failure, handle_retry,
  backing_off, exhaust, finalize_cancel, resave, delayed_requeue, requeue_after, start_fields,
  success_fields, retry_fields, failure_fields, stop_fields, requeue_fields,
}
use agent_learn.Jobs.Lifecycle.Recover.{if-Evolves, store_of, send-Evolves}

pub claim-Evolves :
    (c : Config) (sys : System) (now id w : ℕ) → Evolves sys.store (claim c sys now id w).0.store
unfolding claim
claim-Evolves c sys now id w = elim (Option-cases (Store.get sys.store id)) [
  | inl e ↦ rw (e, claim) (Evolves-refl sys.store)
  | inr (j, e) ↦
      rw (e, claim)
        (if-Evolves store_of sys.store _ _ _ (Evolves-refl sys.store)
          (acquire_lease-Evolves sys.store now id w c.lease_duration))
]

started-Evolves :
    (sys : System) (now id w : ℕ) (j : Job) (s : Store) (v : Verdict)
    → Evolves sys.store s
    → Evolves sys.store (started sys now id w j (s, v)).0.store
started-Evolves sys now id w j s done p = p
started-Evolves sys now id w j s refused p =
    Evolves-trans sys.store s (expire_lease s now id w).0 p (expire_lease-Evolves s now id w)
started-Evolves sys now id w j s invalid p = p

pub start-Evolves : (sys : System) (now id w : ℕ) → Evolves sys.store (start sys now id w).0.store
unfolding start
start-Evolves sys now id w = elim (Option-cases (Store.get sys.store id)) [
  | inl e ↦ rw (e, start) (Evolves-refl sys.store)
  | inr (j, e) ↦
      rw (e, start)
        (started-Evolves sys now id w j
          (transition sys.store now id j.status running (start_fields now w j)).0
          (transition sys.store now id j.status running (start_fields now w j)).1
          (transition-Evolves sys.store now id j.status running (start_fields now w j) refl))
]

pub step_begin-Evolves :
    (sys : System) (now id w : ℕ) (steps : List ℕ) (s : AgentState) (step : ℕ)
    → Evolves sys.store (step_begin sys now id w steps s step).store
unfolding step_begin
step_begin-Evolves sys now id w steps s step =
    update_progress-Evolves sys.store now id w (some step) (progress s steps)

pub step_end-Evolves :
    (sys : System) (now id w : ℕ) (steps : List ℕ) (s : AgentState) (step v : ℕ)
    → Evolves sys.store (step_end sys now id w steps s step v).0.store
unfolding step_end
step_end-Evolves sys now id w steps s step v =
    update_progress-Evolves sys.store now id w (some step) (progress (apply s step v steps) steps)

pub complete-Evolves :
    (sys : System) (now id : ℕ) (s : AgentState) → Evolves sys.store (complete sys now id s).store
unfolding complete
complete-Evolves sys now id s =
    transition-Evolves sys.store now id running success (success_fields now s.values) refl

pub fail-Evolves :
    (sys : System) (now id : ℕ) (error : String)
    → Evolves sys.store (handle_failure sys now id error).store
unfolding handle_failure
fail-Evolves sys now id error =
    transition-Evolves sys.store now id running failed (failure_fields now error) refl

exhaust-Evolves :
    (sys : System) (now id n : ℕ) (error : String)
    → Evolves sys.store (exhaust sys now id n error).store
unfolding exhaust
exhaust-Evolves sys now id n error =
    Evolves-trans sys.store
      (transition sys.store now id running failed
        (record (failure_fields now error) { retry_count = some n })).0
      _
      (transition-Evolves sys.store now id running failed
        (record (failure_fields now error) { retry_count = some n }) refl)
      (send-Evolves _ now id "max_retries_exceeded" error)

backing_off-Evolves :
    (sys : System) (id n delay : ℕ) (error : String) (s : Store) (v : Verdict)
    → Evolves sys.store s
    → Evolves sys.store (backing_off sys id n delay error (s, v)).0.store
backing_off-Evolves sys id n delay error s done p = p
backing_off-Evolves sys id n delay error s refused p = p
backing_off-Evolves sys id n delay error s invalid p = p

pub retry-Evolves :
    (c : Config) (sys : System) (now id : ℕ) (failure : Failure) (error : String) (drawn : ℕ)
    → Evolves sys.store (handle_retry c sys now id failure error drawn).0.store
unfolding handle_retry
retry-Evolves c sys now id failure error drawn = elim (Option-cases (Store.get sys.store id)) [
  | inl e ↦ rw (e, handle_retry) (Evolves-refl sys.store)
  | inr (j, e) ↦
      let n = j.retry_count + 1 in
      let delay = compute_backoff j.retry_count c.backoff_base c.backoff_max drawn in
      let fields = retry_fields c now n delay error in
      let t = transition sys.store now id running retrying fields in
      rw (e, handle_retry)
        (elim (Bool-cases (not (should_retry failure))) [
          | inl final ↦ rw final (fail-Evolves sys now id error)
          | inr again ↦ rw again (elim (Bool-cases (ltb n j.max_retries)) [
            | inl left ↦ rw left (
                backing_off-Evolves sys id n delay error t.0 t.1
                  (transition-Evolves sys.store now id running retrying fields refl))
            | inr used ↦ rw used (exhaust-Evolves sys now id n error)
          ])
        ])
]

resave-store : (c : Config) (sys : System) (id : ℕ) → (resave c sys id).store ≡ sys.store
unfolding resave
resave-store c sys id = ground arith

pub stop-Evolves :
    (c : Config) (sys : System) (now id w : ℕ)
    → Evolves sys.store (finalize_cancel c sys now id w).store
unfolding finalize_cancel
stop-Evolves c sys now id w =
    subst (λ s. Evolves s (finalize_cancel c sys now id w).store) (resave-store c sys id)
      (transition-Evolves (resave c sys id).store now id running cancelled (stop_fields now) refl)

requeue_after-Evolves :
    (sys : System) (id delay : ℕ) (s : Store) (v : Verdict)
    → Evolves sys.store s
    → Evolves sys.store (requeue_after sys id delay (s, v)).store
requeue_after-Evolves sys id delay s done p = elim (Option-cases (Store.get s id)) [
  | inl e ↦ rw (e, requeue_after) p
  | inr (j, e) ↦ rw (e, requeue_after) p
]
requeue_after-Evolves sys id delay s refused p = p
requeue_after-Evolves sys id delay s invalid p = p

pub delayed-Evolves :
    (sys : System) (now id delay : ℕ) → Evolves sys.store (delayed_requeue sys now id delay).store
unfolding delayed_requeue
delayed-Evolves sys now id delay = elim (Option-cases (Store.get sys.store id)) [
  | inl e ↦ rw (e, delayed_requeue) (Evolves-refl sys.store)
  | inr (j, e) ↦
      let t = transition sys.store now id retrying queued (requeue_fields now) in
      rw (e, delayed_requeue)
        (elim (Bool-cases (is_cancel_requested sys.store id)) [
          | inl stop ↦
              rw stop
                (transition-Evolves sys.store now id retrying cancelled (stop_fields now) refl)
          | inr go ↦ rw go (
              requeue_after-Evolves sys id delay t.0 t.1
                (transition-Evolves sys.store now id retrying queued (requeue_fields now) refl))
        ])
]
