-- ===== src/Gateway/Scheduler/Sweep.antt =====
-- The sweep against a filter on all queued requests.
use agent_learn.Base.{
  ℕ, ◌+◌, ◌≡◌, refl, sym, ap, inl, inr, Bool, not, List, [], ◌∷◌, ◌++◌, leb, length, filter,
  Bool-cases,
}
use agent_learn.Gateway.Request.{Request}
use agent_learn.Gateway.Scheduler.{Scheduler, sift, sift_all, sweep_expired}

-- All queued requests, tenant by tenant.
unfoldable pub queued : List (ℕ × List Request) → List Request
queued [] = []
queued ((t, q) ∷ queues) = q ++ queued queues

abbrev pub expired : ℕ → Request → Bool
expired now_ms r = leb r.deadline_ms now_ms

filter-append :
    (p : Request → Bool) (xs ys : List Request) → filter p (xs ++ ys) ≡ filter p xs ++ filter p ys
filter-append p [] ys = refl
filter-append p (x ∷ xs) ys = elim (Bool-cases (p x)) [
  | inl e ↦ rw e (ap (λ l. x ∷ l) (filter-append p xs ys))
  | inr e ↦ rw e (filter-append p xs ys)
]

sift-filter :
    (now_ms : ℕ) (q : List Request)
    → ((sift now_ms q).0 ≡ filter (λ r. not (expired now_ms r)) q)
      × ((sift now_ms q).1 ≡ filter (expired now_ms) q)
unfolding sift
sift-filter now_ms [] = (refl, refl)
sift-filter now_ms (r ∷ q) =
    let rest = sift-filter now_ms q in
    elim (Bool-cases (leb r.deadline_ms now_ms)) [
      | inl e ↦ rw e (rest.0, ap (λ l. r ∷ l) rest.1)
      | inr e ↦ rw e (ap (λ l. r ∷ l) rest.0, rest.1)
    ]

sift_all-filter :
    (now_ms : ℕ) (queues : List (ℕ × List Request))
    → (queued (sift_all now_ms queues).0 ≡ filter (λ r. not (expired now_ms r)) (queued queues))
      × ((sift_all now_ms queues).1 ≡ filter (expired now_ms) (queued queues))
unfolding sift_all queued
sift_all-filter now_ms [] = (refl, refl)
sift_all-filter now_ms ((t, q) ∷ queues) =
    let here = sift-filter now_ms q in
    let rest = sift_all-filter now_ms queues in
    (
      rw (here.0, rest.0) (sym (filter-append (λ r. not (expired now_ms r)) q (queued queues))),
      rw (here.1, rest.1) (sym (filter-append (expired now_ms) q (queued queues))),
    )

-- A sweep hands back exactly the queued requests whose deadline has come, leaves exactly the others
-- queued in the order in which they were, and counts what it took.
pub sweep_expired-filter :
    (s : Scheduler) (now_ms : ℕ)
    → ((sweep_expired s now_ms).1 ≡ filter (expired now_ms) (queued s.queues))
      × (queued (sweep_expired s now_ms).0.queues
          ≡ filter (λ r. not (expired now_ms r)) (queued s.queues))
      × ((sweep_expired s now_ms).0.swept
          ≡ s.swept + length (filter (expired now_ms) (queued s.queues)))
unfolding sweep_expired
sweep_expired-filter s now_ms =
    let all = sift_all-filter now_ms s.queues in (all.1, all.0, ap (λ l. s.swept + length l) all.1)
