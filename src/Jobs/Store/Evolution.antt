-- ===== src/Jobs/Store/Evolution.antt =====
-- How a job may change from one store to a later one: the relation that every part of the queue
-- keeps. Its status follows the table, and what the submitter fixed stays.
use agent_learn.Base.{
  ℕ, ◌+◌, ◌-◌, ◌≡◌, refl, sym, subst, false, ◌∙◌, inl, inr, Bool, true, not, ◌&&◌, Option, none,
  some, arith, ◌==◌, ==_iff, Bool-cases, Option-cases,
}
use agent_learn.Jobs.Status.{JobStatus, status_eq, can_transition}
use agent_learn.Jobs.Status.Graph.{◌⟶*◌, here, via, allowed_edge}
use agent_learn.Jobs.Status.Ends.{◌↝*◌, still, onward, revival}
use agent_learn.Jobs.Job.{Job}
use agent_learn.Jobs.Store.{
  Store, Fields, get, set_fields, stored_at, transition, acquire_lease, as_owner, owned_by, after,
  with_lease, with_progress, renew_lease, release_lease, expire_lease, update_progress,
  set_cancel_requested,
}
use agent_learn.Jobs.Store.Transition.{get-stored_at, status_eq→≡}

-- The part of a job that its creation fixes.
pub record SameOrder (j j' : Job) : Type 0 where
  pub same_id : j'.id ≡ j.id
  pub same_tenant : j'.tenant_id ≡ j.tenant_id
  pub same_agent : j'.agent_name ≡ j.agent_name
  pub same_input : j'.input ≡ j.input
  pub same_priority : j'.priority ≡ j.priority
  pub same_max_retries : j'.max_retries ≡ j.max_retries
  pub same_creation : j'.created_at ≡ j.created_at

pub record Later (R : JobStatus → JobStatus → Type 0) (j j' : Job) : Type 0 where
  pub path : R j.status j'.status
  pub order : SameOrder j j'

abbrev pub EvolvesBy : (JobStatus → JobStatus → Type 0) → Store → Store → Type 0
EvolvesBy R s s' =
    (k : ℕ) (j : Job) → get s k ≡ some j → (j' : Job) × (get s' k ≡ some j') × Later R j j'

-- Without a job that leaves the dead letter queue.
abbrev pub Evolves : Store → Store → Type 0
Evolves s s' = EvolvesBy ◌↝*◌ s s'

pub path_trans : {a b c : JobStatus} → a ⟶* b → b ⟶* c → a ⟶* c
path_trans here q = q
path_trans (via e p) q = via e (path_trans p q)

calm_trans : {a b c : JobStatus} → a ↝* b → b ↝* c → a ↝* c
calm_trans still q = q
calm_trans (onward e h p) q = onward e h (calm_trans p q)

SameOrder-refl : (j : Job) → SameOrder j j
SameOrder-refl j = ground arith

SameOrder-trans : (a b c : Job) → SameOrder a b → SameOrder b c → SameOrder a c
SameOrder-trans a b c p q = ground arith

-- What a relation of statuses needs, so that evolving by it composes.
module _ {R : JobStatus → JobStatus → Type 0} (same : (a : JobStatus) → R a a) where
  pub Later-refl : (j : Job) → Later R j j
  Later-refl j = record { path = same j.status; order = SameOrder-refl j }

  pub EvolvesBy-refl : (s : Store) → EvolvesBy R s s
  EvolvesBy-refl s k j e = (j, e, Later-refl j)

  stored_at-EvolvesBy :
      (s : Store) (k : ℕ) (old new : Job)
      → get s k ≡ some old
      → Later R old new
      → EvolvesBy R s (stored_at s k new)
  stored_at-EvolvesBy s k old new e p i j h = elim (Bool-cases (k == i)) [
    | inl hit ↦ (new, get-stored_at s k i new ∙ rw hit, subst (λ o. Later R o new) (same_job hit) p)
    | inr miss ↦ (j, get-stored_at s k i new ∙ rw miss h, Later-refl j)
  ]
    where
      same_job : (k == i) ≡ true → old ≡ j
      same_job hit = ground (arith, (==_iff k i).0 hit)

  pub transition-EvolvesBy :
      (s : Store) (now job_id : ℕ) (from to : JobStatus) (fields : Fields)
      → (can_transition from to ≡ true → R from to)
      → EvolvesBy R s (transition s now job_id from to fields).0
  unfolding transition set_fields
  transition-EvolvesBy s now job_id from to fields arrow = elim (Option-cases (get s job_id)) [
    | inl e ↦ rw (e, transition) (EvolvesBy-refl s)
    | inr (j, e) ↦
        rw (e, transition)
          (elim (Bool-cases (status_eq j.status from)) [
            | inr stale ↦ rw stale (EvolvesBy-refl s)
            | inl fresh ↦ elim (Bool-cases (can_transition from to)) [
              | inr bad ↦ rw (fresh, bad) (EvolvesBy-refl s)
              | inl good ↦
                  rw (fresh, good)
                    (stored_at-EvolvesBy s job_id j _ e (record {
                      path =
                          subst (λ a. R a to) (sym (status_eq→≡ j.status from fresh)) (arrow good);
                      order = ground arith;
                    }))
            ]
          ])
  ]

Later-trans :
    {R : JobStatus → JobStatus → Type 0}
    → ((a b c : JobStatus) → R a b → R b c → R a c)
    → {a b c : Job} → Later R a b
    → Later R b c
    → Later R a c
Later-trans join {a} {b} {c} p q = record {
  path = join a.status b.status c.status p.path q.path;
  order = SameOrder-trans a b c p.order q.order;
}

pub EvolvesBy-trans :
    {R : JobStatus → JobStatus → Type 0}
    → ((a b c : JobStatus) → R a b → R b c → R a c)
    → (s t u : Store) → EvolvesBy R s t
    → EvolvesBy R t u
    → EvolvesBy R s u
EvolvesBy-trans join s t u f g k j e =
    let (j', e', p) = f k j e in let (j'', e'', q) = g k j' e' in (j'', e'', Later-trans join p q)

pub Evolves-refl : (s : Store) → Evolves s s
Evolves-refl s = EvolvesBy-refl (λ a. still) s

pub Evolves-trans : (s t u : Store) → Evolves s t → Evolves t u → Evolves s u
Evolves-trans s t u f g = EvolvesBy-trans (λ a b c p q. calm_trans p q) s t u f g

stored_at-Evolves :
    (s : Store) (k : ℕ) (old new : Job)
    → get s k ≡ some old
    → Later ◌↝*◌ old new
    → Evolves s (stored_at s k new)
stored_at-Evolves s k old new e p = stored_at-EvolvesBy (λ a. still) s k old new e p

-- A change that keeps the status and the order.
keeping : (old new : Job) → new.status ≡ old.status → SameOrder old new → Later ◌↝*◌ old new
keeping old new e o = record { path = rw e still; order = o }

pub transition-Evolves :
    (s : Store) (now job_id : ℕ) (from to : JobStatus) (fields : Fields)
    → revival from to ≡ false
    → Evolves s (transition s now job_id from to fields).0
transition-Evolves s now job_id from to fields calm =
    transition-EvolvesBy (λ a. still) s now job_id from to fields
      (λ good. onward (allowed_edge from to good) calm still)

-- The shared guard of the lease methods: a change that keeps status and order evolves the store.
as_owner-Evolves :
    (s : Store) (job_id w : ℕ) (change : Job → Job)
    → ((j : Job) → Later ◌↝*◌ j (change j))
    → Evolves s (as_owner s job_id w change).0
unfolding as_owner
as_owner-Evolves s job_id w change keep = elim (Option-cases (get s job_id)) [
  | inl e ↦ rw (e, as_owner) (Evolves-refl s)
  | inr (j, e) ↦
      rw (e, as_owner)
        (elim (Bool-cases (owned_by j.worker_id w)) [
          | inl own ↦ rw own (stored_at-Evolves s job_id j (change j) e (keep j))
          | inr other ↦ rw other (Evolves-refl s)
        ])
]

module _ (s : Store) (now job_id w : ℕ) where
  lease-Later :
      (worker deadline : Option ℕ) (j : Job) → Later ◌↝*◌ j (with_lease worker deadline now j)
  lease-Later worker deadline j = keeping j (with_lease worker deadline now j) refl (ground arith)

  pub acquire_lease-Evolves : (d : ℕ) → Evolves s (acquire_lease s now job_id w d).0
  unfolding acquire_lease
  acquire_lease-Evolves d = elim (Option-cases (get s job_id)) [
    | inl e ↦ rw (e, acquire_lease) (Evolves-refl s)
    | inr (j, e) ↦
        rw (e, acquire_lease)
          (elim (Bool-cases (after j.lease_expire_at now && not (owned_by j.worker_id w))) [
            | inl held ↦ rw held (Evolves-refl s)
            | inr free ↦ rw free (
                stored_at-Evolves s job_id j (with_lease (some w) (some (now + d)) now j) e
                  (lease-Later (some w) (some (now + d)) j))
          ])
  ]

  pub renew_lease-Evolves : (d : ℕ) → Evolves s (renew_lease s now job_id w d).0
  unfolding renew_lease
  renew_lease-Evolves d =
      as_owner-Evolves s job_id w (λ j. with_lease j.worker_id (some (now + d)) now j)
        λ j. lease-Later j.worker_id (some (now + d)) j

  release_lease-Evolves : Evolves s (release_lease s now job_id w).0
  unfolding release_lease
  release_lease-Evolves =
      as_owner-Evolves s job_id w (with_lease none none now) (lease-Later none none)

  pub expire_lease-Evolves : Evolves s (expire_lease s now job_id w).0
  unfolding expire_lease
  expire_lease-Evolves =
      as_owner-Evolves s job_id w (λ j. with_lease j.worker_id (some (now - 1000)) now j)
        λ j. lease-Later j.worker_id (some (now - 1000)) j

  pub update_progress-Evolves :
      (step : Option ℕ) (progress : ℕ) → Evolves s (update_progress s now job_id w step progress).0
  unfolding update_progress
  update_progress-Evolves step progress =
      as_owner-Evolves s job_id w (with_progress step progress now)
        λ j. keeping j (with_progress step progress now j) refl (ground arith)

set_cancel_requested-jobs :
    (s : Store) (job_id : ℕ) (v : Bool) → (set_cancel_requested s job_id v).0.jobs ≡ s.jobs
unfolding set_cancel_requested
set_cancel_requested-jobs s job_id v = ground arith

pub set_cancel_requested-Evolves :
    (s : Store) (job_id : ℕ) (v : Bool) → Evolves s (set_cancel_requested s job_id v).0
unfolding get
set_cancel_requested-Evolves s job_id v k j e =
    (j, rw (set_cancel_requested-jobs s job_id v) e, Later-refl (λ a. still) j)
