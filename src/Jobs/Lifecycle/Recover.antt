-- ===== src/Jobs/Lifecycle/Recover.antt =====
-- The dead letter queue and the reaper let each job go only along the arrows of the table.
use Prim.Native.String.{String}
use agent_learn.Base.{
  ℕ, ◌≡◌, refl, arith, inl, inr, Bool, true, false, not, ◌||◌, List, [], ◌∷◌, if◌then◌else◌,
  Bool-cases, Option-cases,
}
use agent_learn.Jobs.Status.{
  JobStatus, queued, running, retrying, failed, cancelled, dead, status_eq,
}
use agent_learn.Jobs.Status.Graph.{◌⟶*◌, here, via, allowed_edge}
use agent_learn.Jobs.Status.Ends.{is_dead}
use agent_learn.Jobs.Job.{Job}
use agent_learn.Jobs.Store.{
  Store, Fields, Verdict, done, refused, invalid, transition, is_cancel_requested, find_recoverable,
}
use agent_learn.Jobs.Store
use agent_learn.Jobs.Store.Evolution.{
  EvolvesBy, EvolvesBy-refl, transition-EvolvesBy, Evolves, Evolves-refl, Evolves-trans,
  transition-Evolves,
}
use agent_learn.Jobs.System.{System, Answer, value, invalid_transition}
use agent_learn.Jobs.Dlq.{requeue, requeued, send, bury_from, buried, burial_fields}
use agent_learn.Jobs.Dlq
use agent_learn.Jobs.Reaper.{
  reap_once, reap_all, reap_job, recovered, dropped, announce, recovery_fields, cancel_fields,
}

pub if-Evolves :
    {R : JobStatus → JobStatus → Type 0} {A : Type 0} (f : A → Store) (s : Store) (b : Bool)
    (x y : A)
    → EvolvesBy R s (f x)
    → EvolvesBy R s (f y)
    → EvolvesBy R s (f (if b then x else y))
if-Evolves f s true x y p q = p
if-Evolves f s false x y p q = q

verdict-Evolves :
    {A : Type 0} (f : A → Store) (s : Store) (v : Verdict) (x y z : A)
    → Evolves s (f x)
    → Evolves s (f y)
    → Evolves s (f z)
    → Evolves s (f (elim v [ done ↦ x | refused ↦ y | invalid ↦ z ]))
verdict-Evolves f s done x y z p q r = p
verdict-Evolves f s refused x y z p q r = q
verdict-Evolves f s invalid x y z p q r = r

abbrev pub store_of : {A : Type 0} → System × A → Store
store_of r = r.0.store

bury_from-Evolves :
    (sys : System) (now id : ℕ) (fields : Fields) (statuses : List JobStatus)
    → Evolves sys.store (bury_from sys now id fields statuses).0.store
unfolding bury_from
bury_from-Evolves sys now id fields [] = Evolves-refl sys.store
bury_from-Evolves sys now id fields (s ∷ rest) =
    let t = transition sys.store now id s dead fields in
    let moved = transition-Evolves sys.store now id s dead fields refl in
    verdict-Evolves store_of sys.store t.1 _ _ _ moved
      (Evolves-trans sys.store t.0 _ moved
        (bury_from-Evolves (record sys { store = t.0 }) now id fields rest))
      moved

buried-Evolves :
    (s : Store) (id n : ℕ) (reason error : String) (sys : System) (a : Answer Bool)
    → Evolves s sys.store
    → Evolves s (buried id n reason error (sys, a)).0.store
buried-Evolves s id n reason error sys (value true) p = p
buried-Evolves s id n reason error sys (value false) p = p
buried-Evolves s id n reason error sys invalid_transition p = p

pub send-Evolves :
    (sys : System) (now id : ℕ) (reason error : String)
    → Evolves sys.store (send sys now id reason error).0.store
unfolding send
send-Evolves sys now id reason error = elim (Option-cases (Store.get sys.store id)) [
  | inl e ↦ rw (e, send) (Evolves-refl sys.store)
  | inr (j, e) ↦
      let b =
        bury_from sys now id (burial_fields now reason error) (retrying ∷ failed ∷ running ∷ []) in
      rw (e, send)
        (buried-Evolves sys.store id j.retry_count reason error b.0 b.1 (
          bury_from-Evolves sys now id (burial_fields now reason error)
            (retrying ∷ failed ∷ running ∷ [])))
]

requeued-Evolves :
    {R : JobStatus → JobStatus → Type 0} (sys : System) (id : ℕ) (j : Job) (s : Store) (v : Verdict)
    → EvolvesBy R sys.store s
    → EvolvesBy R sys.store (requeued sys id j (s, v)).0.store
requeued-Evolves sys id j s done p = p
requeued-Evolves sys id j s refused p = p
requeued-Evolves sys id j s invalid p = p

-- The requeue of a dead job is the one step that lets a job leave `dead`.
pub requeue-Evolves :
    (sys : System) (now id : ℕ) → EvolvesBy ◌⟶*◌ sys.store (requeue sys now id).0.store
unfolding requeue
requeue-Evolves sys now id = elim (Option-cases (Store.get sys.store id)) [
  | inl e ↦ rw (e, requeue) (EvolvesBy-refl (λ a. here) sys.store)
  | inr (j, e) ↦
      let t = transition sys.store now id dead queued (Dlq.requeue_fields now) in
      rw (e, requeue)
        (if-Evolves store_of sys.store _ _ _ (EvolvesBy-refl (λ a. here) sys.store) (
          requeued-Evolves sys id j t.0 t.1 (
            transition-EvolvesBy (λ a. here) sys.store now id dead queued (Dlq.requeue_fields now)
              (λ good. via (allowed_edge dead queued good) here))))
]

announce-store : (sys : System) (now id : ℕ) → (announce sys now id).store ≡ sys.store
announce-store sys now id = elim (Option-cases (Store.get sys.store id)) [
  | inl e ↦ rw (e, announce)
  | inr (j, e) ↦ rw (e, announce)
]

recovered-Evolves :
    (sys : System) (now id : ℕ) (s : Store) (v : Verdict)
    → Evolves sys.store s
    → Evolves sys.store (recovered sys now id (s, v)).0.store
recovered-Evolves sys now id s done p = rw (announce-store (record sys { store = s }) now id) p
recovered-Evolves sys now id s refused p = p
recovered-Evolves sys now id s invalid p = p

dropped-Evolves :
    (sys : System) (id : ℕ) (s : Store) (v : Verdict)
    → Evolves sys.store s
    → Evolves sys.store (dropped sys id (s, v)).0.store
dropped-Evolves sys id s done p = p
dropped-Evolves sys id s refused p = p
dropped-Evolves sys id s invalid p = p

live_not_dead :
    (s : JobStatus) → not (status_eq s running || status_eq s retrying) ≡ false → is_dead s ≡ false
live_not_dead s h = ground (arith, h)

reap_job-Evolves : (sys : System) (now id : ℕ) → Evolves sys.store (reap_job sys now id).0.store
unfolding reap_job
reap_job-Evolves sys now id = elim (Option-cases (Store.get sys.store id)) [
  | inl e ↦ rw (e, reap_job) (Evolves-refl sys.store)
  | inr (j, e) ↦
      let d = transition sys.store now id j.status cancelled (cancel_fields now) in
      let r = transition sys.store now id j.status queued (recovery_fields now j) in
      rw (e, reap_job)
        (elim (Bool-cases (not (status_eq j.status running || status_eq j.status retrying))) [
          | inl idle ↦ rw idle (Evolves-refl sys.store)
          | inr live ↦ rw live (elim (Bool-cases (is_cancel_requested sys.store id)) [
            | inl stop ↦ rw stop (
                dropped-Evolves sys id d.0 d.1
                  (transition-Evolves sys.store now id j.status cancelled (cancel_fields now) refl))
            | inr go ↦ rw go (
                recovered-Evolves sys now id r.0 r.1 (
                  transition-Evolves sys.store now id j.status queued (recovery_fields now j)
                    (live_not_dead j.status live)))
          ])
        ])
]

answer-Evolves :
    {A : Type 0} (f : A → Store) (s : Store) (a : Answer Bool) (x y z : A)
    → Evolves s (f x)
    → Evolves s (f y)
    → Evolves s (f z)
    → Evolves s (f (elim a [ value true ↦ x | value false ↦ y | invalid_transition ↦ z ]))
answer-Evolves f s (value true) x y z p q r = p
answer-Evolves f s (value false) x y z p q r = q
answer-Evolves f s invalid_transition x y z p q r = r

reap_all-Evolves :
    (sys : System) (now : ℕ) (jobs : List Job) → Evolves sys.store (reap_all sys now jobs).0.store
unfolding reap_all
reap_all-Evolves sys now [] = Evolves-refl sys.store
reap_all-Evolves sys now (j ∷ jobs) =
    let first = reap_job sys now j.id in
    let once = reap_job-Evolves sys now j.id in
    let all =
      Evolves-trans sys.store first.0.store (reap_all first.0 now jobs).0.store once
        (reap_all-Evolves first.0 now jobs) in
    answer-Evolves store_of sys.store first.1 _ _ _ all all once

pub reap_once-Evolves :
    (sys : System) (now grace : ℕ) → Evolves sys.store (reap_once sys now grace).0.store
unfolding reap_once
reap_once-Evolves sys now grace = reap_all-Evolves sys now (find_recoverable sys.store now grace)
