-- ===== src/Jobs/Lifecycle/History.antt =====
-- Histories of the queue: what no sequence of its operations can do to a job.
use agent_learn.Base.{
  ℕ, ◌≡◌, ◌∙◌, refl, sym, subst, Bool, false, inl, inr, true, not, ◌||◌, none, some, List, arith,
  ◌==◌, ==_iff, Bool-cases, Option-cases, contains, lookup-insert,
}
use agent_learn.Jobs.Status.{queued, running, retrying, cancelled, status_eq, is_terminal}
use agent_learn.Jobs.Status.Graph.{◌⟶*◌, terminal_absorbs}
use agent_learn.Jobs.Status.Ends.{with_revivals, Ended, Ended-stays}
use agent_learn.Jobs.Status.Graph
use agent_learn.Jobs.Status.Ends
use mathlib.Core.Bool.{true≢false}
use mathlib.Core.Option.{some-injective}
use agent_learn.Jobs.Job.{Job}
use agent_learn.Jobs.Job
use agent_learn.Jobs.Store.{
  Store, Verdict, done, refused, invalid, transition, set_cancel_requested,
}
use agent_learn.Jobs.Store
use agent_learn.Jobs.Store.Evolution.{
  SameOrder, Later-refl, EvolvesBy, EvolvesBy-refl, EvolvesBy-trans, path_trans, Evolves,
  Evolves-refl, Evolves-trans, transition-Evolves, renew_lease-Evolves, expire_lease-Evolves,
  set_cancel_requested-Evolves,
}
use agent_learn.Jobs.System.{System}
use agent_learn.Jobs.Executor.{Config, crash, step_raise}
use agent_learn.Jobs.Service
use agent_learn.Jobs.Lifecycle.{
  Step, Reach, here, next, creates, cancels, claims, starts, begins, ends, raises, completes, fails,
  retries, stops, crashes, requeues, beats, reaps, revives,
}
use agent_learn.Jobs.Lifecycle.Recover.{requeue-Evolves, reap_once-Evolves}
use agent_learn.Jobs.Lifecycle.Evolve.{
  claim-Evolves, start-Evolves, step_begin-Evolves, step_end-Evolves, complete-Evolves,
  fail-Evolves, retry-Evolves, stop-Evolves, delayed-Evolves,
}

put-Evolves : (s : Store) (j : Job) → Store.get s j.id ≡ none → Evolves s (Store.create s j)
unfolding Store.get Store.create Store.put
put-Evolves s j free k old e = elim (Bool-cases (j.id == k)) [
  | inl hit ↦ absurd (ground (arith, (==_iff j.id k).0 hit))
  | inr miss ↦ (old, lookup-insert j.id k j s.jobs ∙ rw miss e, Later-refl (λ a. Ends.still) old)
]

create-Evolves :
    (agents : List ℕ) (sys : System) (now id agent input tenant priority max_retries : ℕ)
    → Store.get sys.store id ≡ none
    → Evolves sys.store
        (Service.create agents sys now id agent input tenant priority max_retries).0.store
unfolding Service.create Job.create
create-Evolves agents sys now id agent input tenant priority max_retries free =
    elim (Bool-cases (not (contains agent agents))) [
      | inl unknown ↦ rw unknown (Evolves-refl sys.store)
      | inr known ↦
          rw known
            (put-Evolves sys.store (Job.create now id agent input tenant priority max_retries) free)
    ]

announced-Evolves :
    (sys : System) (id : ℕ) (s : Store) (v : Verdict)
    → Evolves sys.store s
    → Evolves sys.store (Service.announced sys id (s, v)).store
announced-Evolves sys id s done p = p
announced-Evolves sys id s refused p = p
announced-Evolves sys id s invalid p = p

cancel_job-Evolves :
    (sys : System) (now id : ℕ) (j : Job)
    → Evolves sys.store (Service.cancel_job sys now id j).store
unfolding Service.cancel_job
cancel_job-Evolves sys now id j = elim (Bool-cases (status_eq j.status queued)) [
  | inl waiting ↦
      let t = transition sys.store now id queued cancelled (Service.cancel_fields now) in
      rw waiting (
        announced-Evolves sys id t.0 t.1
          (transition-Evolves sys.store now id queued cancelled (Service.cancel_fields now) refl))
  | inr begun ↦
      rw begun (elim (Bool-cases (status_eq j.status running || status_eq j.status retrying)) [
        | inl live ↦ rw live (set_cancel_requested-Evolves sys.store id true)
        | inr over ↦ rw over (Evolves-refl sys.store)
      ])
]

cancel-Evolves : (sys : System) (now id : ℕ) → Evolves sys.store (Service.cancel sys now id).0.store
unfolding Service.cancel
cancel-Evolves sys now id = elim (Option-cases (Store.get sys.store id)) [
  | inl e ↦ rw (e, Service.cancel) (Evolves-refl sys.store)
  | inr (j, e) ↦ rw (e, Service.cancel) (cancel_job-Evolves sys now id j)
]

crash-Evolves : (sys : System) (now id w : ℕ) → Evolves sys.store (crash sys now id w).store
unfolding crash
crash-Evolves sys now id w = expire_lease-Evolves sys.store now id w

-- Whether a step is the requeue of a dead job.
abbrev revives_one : {c : Config} {sys sys' : System} → Step c sys sys' → Bool
revives_one (revives sys now id) = true
revives_one (creates sys now id agent input tenant priority max_retries free) = false
revives_one (cancels sys now id) = false
revives_one (claims sys now id w) = false
revives_one (starts sys now id w) = false
revives_one (begins sys now id w steps s step) = false
revives_one (ends sys now id w steps s step v) = false
revives_one (raises sys id step error) = false
revives_one (completes sys now id s) = false
revives_one (fails sys now id error) = false
revives_one (retries sys now id failure error drawn) = false
revives_one (stops sys now id w) = false
revives_one (crashes sys now id w) = false
revives_one (requeues sys now id delay) = false
revives_one (beats sys now id w) = false
revives_one (reaps sys now grace) = false

-- No step of a history is one.
abbrev pub Unrevived : {c : Config} {sys sys' : System} → Reach c sys sys' → Type 0
Unrevived here = Unit
Unrevived (next r st) = Unrevived r × (revives_one st ≡ false)

Step-Evolves :
    {c : Config} {sys sys' : System}
    → (st : Step c sys sys') → revives_one st ≡ false
    → Evolves sys.store sys'.store
Step-Evolves {c} (creates sys now id agent input tenant priority max_retries free) calm =
    create-Evolves c.agents sys now id agent input tenant priority max_retries free
Step-Evolves (cancels sys now id) calm = cancel-Evolves sys now id
Step-Evolves {c} (claims sys now id w) calm = claim-Evolves c sys now id w
Step-Evolves (starts sys now id w) calm = start-Evolves sys now id w
Step-Evolves (begins sys now id w steps s step) calm = step_begin-Evolves sys now id w steps s step
Step-Evolves (ends sys now id w steps s step v) calm = step_end-Evolves sys now id w steps s step v
Step-Evolves (raises sys id step error) calm = unfold step_raise in Evolves-refl sys.store
Step-Evolves (completes sys now id s) calm = complete-Evolves sys now id s
Step-Evolves (fails sys now id error) calm = fail-Evolves sys now id error
Step-Evolves {c} (retries sys now id failure error drawn) calm =
    retry-Evolves c sys now id failure error drawn
Step-Evolves {c} (stops sys now id w) calm = stop-Evolves c sys now id w
Step-Evolves (crashes sys now id w) calm = crash-Evolves sys now id w
Step-Evolves (requeues sys now id delay) calm = delayed-Evolves sys now id delay
Step-Evolves {c} (beats sys now id w) calm = renew_lease-Evolves sys.store now id w c.lease_duration
Step-Evolves (reaps sys now grace) calm = reap_once-Evolves sys now grace
Step-Evolves (revives sys now id) calm = absurd (true≢false calm)

loosen : (s s' : Store) → Evolves s s' → EvolvesBy ◌⟶*◌ s s'
loosen s s' f k j e =
    let (j', e', later) = f k j e in
    (j', e', record { path = with_revivals later.path; order = later.order })

-- Any step at all.
Step-path : {c : Config} {sys sys' : System} → Step c sys sys' → EvolvesBy ◌⟶*◌ sys.store sys'.store
Step-path (revives sys now id) = requeue-Evolves sys now id
Step-path {c} {sys' = sys'} (creates sys now id agent input tenant priority max_retries free) =
    loosen sys.store sys'.store
      (Step-Evolves {c = c} (creates sys now id agent input tenant priority max_retries free) refl)
Step-path {c} {sys' = sys'} (cancels sys now id) =
    loosen sys.store sys'.store (Step-Evolves {c = c} (cancels sys now id) refl)
Step-path {c} {sys' = sys'} (claims sys now id w) =
    loosen sys.store sys'.store (Step-Evolves {c = c} (claims sys now id w) refl)
Step-path {c} {sys' = sys'} (starts sys now id w) =
    loosen sys.store sys'.store (Step-Evolves {c = c} (starts sys now id w) refl)
Step-path {c} {sys' = sys'} (begins sys now id w steps s step) =
    loosen sys.store sys'.store (Step-Evolves {c = c} (begins sys now id w steps s step) refl)
Step-path {c} {sys' = sys'} (ends sys now id w steps s step v) =
    loosen sys.store sys'.store (Step-Evolves {c = c} (ends sys now id w steps s step v) refl)
Step-path {c} {sys' = sys'} (raises sys id step error) =
    loosen sys.store sys'.store (Step-Evolves {c = c} (raises sys id step error) refl)
Step-path {c} {sys' = sys'} (completes sys now id s) =
    loosen sys.store sys'.store (Step-Evolves {c = c} (completes sys now id s) refl)
Step-path {c} {sys' = sys'} (fails sys now id error) =
    loosen sys.store sys'.store (Step-Evolves {c = c} (fails sys now id error) refl)
Step-path {c} {sys' = sys'} (retries sys now id failure error drawn) =
    loosen sys.store sys'.store (Step-Evolves {c = c} (retries sys now id failure error drawn) refl)
Step-path {c} {sys' = sys'} (stops sys now id w) =
    loosen sys.store sys'.store (Step-Evolves {c = c} (stops sys now id w) refl)
Step-path {c} {sys' = sys'} (crashes sys now id w) =
    loosen sys.store sys'.store (Step-Evolves {c = c} (crashes sys now id w) refl)
Step-path {c} {sys' = sys'} (requeues sys now id delay) =
    loosen sys.store sys'.store (Step-Evolves {c = c} (requeues sys now id delay) refl)
Step-path {c} {sys' = sys'} (beats sys now id w) =
    loosen sys.store sys'.store (Step-Evolves {c = c} (beats sys now id w) refl)
Step-path {c} {sys' = sys'} (reaps sys now grace) =
    loosen sys.store sys'.store (Step-Evolves {c = c} (reaps sys now grace) refl)

Reach-Evolves :
    {c : Config} {sys sys' : System} (r : Reach c sys sys')
    → Unrevived r
    → Evolves sys.store sys'.store
Reach-Evolves {sys = sys} here calm = Evolves-refl sys.store
Reach-Evolves {sys = sys} (next {t = t} {u = u} r st) calm =
    Evolves-trans sys.store t.store u.store (Reach-Evolves r calm.0) (Step-Evolves st calm.1)

Reach-path :
    {c : Config} {sys sys' : System} → Reach c sys sys' → EvolvesBy ◌⟶*◌ sys.store sys'.store
Reach-path {sys = sys} here = EvolvesBy-refl (λ a. Graph.here) sys.store
Reach-path {sys = sys} (next {t = t} {u = u} r st) =
    EvolvesBy-trans (λ a b c p q. path_trans p q) sys.store t.store u.store (Reach-path r)
      (Step-path st)

-- After any sequence of operations of the service, the workers, the reaper and the dead letter
-- queue, a stored job is still stored, and what its creation fixed is unchanged. If it had succeeded
-- or was cancelled, it still has that status. If no step of the sequence is a requeue from the dead
-- letter queue, a dead job is still dead too, and a failed one has failed or is dead: no worker,
-- retry or recovery brings back a job that has ended.
pub Reach-keeps :
    (c : Config) (sys sys' : System) (r : Reach c sys sys') (id : ℕ) (j : Job)
    → Store.get sys.store id ≡ some j
    → (j' : Job) × (Store.get sys'.store id ≡ some j')
      × SameOrder j j'
      × (is_terminal j.status ≡ true → j'.status ≡ j.status)
      × (Unrevived r → Ended j.status j'.status)
Reach-keeps c sys sys' r id j e =
    let (j', e', later) = Reach-path r id j e in
    (
      j',
      e',
      later.order,
      λ h. terminal_absorbs h later.path,
      λ calm.
          let (k, f, evolved) = Reach-Evolves r calm id j e in
          let same : k ≡ j' = some-injective k j' (sym f ∙ e') in
          subst (λ x. Ended j.status x.status) same (Ended-stays j.status k.status evolved.path),
    )
