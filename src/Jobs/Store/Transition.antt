-- ===== src/Jobs/Store/Transition.antt =====
-- What `MemoryJobStore.transition` does on every branch, and how the other methods treat a status.
use agent_learn.Base.{
  ap, ◌≢◌, ◌↔◌, inl, inr, Bool-cases, Option-cases, true, false, ℕ, ◌≡◌, ◌∙◌, ==_refl, ◌≢◌, inl,
  inr, ◌↔◌, true, false, none, some, arith, ◌==◌, if◌then◌else◌, Bool-cases, Option-cases,
  lookup-insert,
}
use agent_learn.Jobs.Status.{JobStatus, status_eq, can_transition}
use agent_learn.Jobs.Job.{Job}
use agent_learn.Jobs.Store.{
  Store, Fields, Verdict, done, refused, invalid, get, set_fields, stored_at, transition,
}

pub get-stored_at :
    (s : Store) (k i : ℕ) (j : Job) → get (stored_at s k j) i ≡ (if k == i then some j else get s i)
unfolding get stored_at
get-stored_at s k i j = lookup-insert k i j s.jobs

pub get-stored_at_self : (s : Store) (k : ℕ) (j : Job) → get (stored_at s k j) k ≡ some j
get-stored_at_self s k j = get-stored_at s k k j ∙ here_it_is
  where
    here_it_is : (if k == k then some j else get s k) ≡ some j
    here_it_is = rw (==_refl k)

pub status_eq→≡ : (a b : JobStatus) → status_eq a b ≡ true → a ≡ b
status_eq→≡ a b h = ground arith

status_eq_refl : (a : JobStatus) → status_eq a a ≡ true
status_eq_refl a = ground arith

-- What a successful call leaves in the store.
abbrev pub updated : ℕ → JobStatus → Fields → Job → Job
updated now to fields job = record (set_fields fields job) { status = to; updated_at = now }

module _ (s : Store) (now job_id : ℕ) (from to : JobStatus) (fields : Fields) where
  abbrev result : Store × Verdict
  result = transition s now job_id from to fields

  transition-missing : get s job_id ≡ none → result ≡ (s, refused)
  unfolding transition
  transition-missing e = rw (e, transition)

  pub transition-stale :
      (j : Job) → get s job_id ≡ some j → status_eq j.status from ≡ false → result ≡ (s, refused)
  unfolding transition
  transition-stale j e h = rw (e, transition) (rw h)

  pub transition-invalid :
      (j : Job)
      → get s job_id ≡ some j
      → j.status ≡ from
      → can_transition from to ≡ false
      → result ≡ (s, invalid)
  unfolding transition
  transition-invalid j e h c = ground (arith, status_eq_refl from)

  pub transition-done :
      (j : Job)
      → get s job_id ≡ some j
      → j.status ≡ from
      → can_transition from to ≡ true
      → result ≡ (stored_at s job_id (updated now to fields j), done)
  unfolding transition
  transition-done j e h c = ground (arith, status_eq_refl from)

module _ (s : Store) (now job_id : ℕ) (from to : JobStatus) (fields : Fields) where
  -- The job is stored, and has the expected status.
  abbrev Expected : Type 0
  Expected = (j : Job) × (get s job_id ≡ some j) × (j.status ≡ from)

  abbrev answer : Store × Verdict
  answer = transition s now job_id from to fields

  data Case : Type 0 where
    absent : answer ≡ (s, refused) → (get s job_id ≡ none) → Case
    stale :
        answer ≡ (s, refused)
        → (j : Job) → get s job_id ≡ some j
        → status_eq j.status from ≡ false
        → Case
    illegal : answer ≡ (s, invalid) → Expected → can_transition from to ≡ false → Case
    moved :
        (j : Job)
        → answer ≡ (stored_at s job_id (updated now to fields j), done)
        → get s job_id ≡ some j
        → j.status ≡ from
        → can_transition from to ≡ true
        → Case

  transition_cases : Case
  transition_cases = elim (Option-cases (get s job_id)) [
    | inl e ↦ absent (transition-missing s now job_id from to fields e) e
    | inr (j, e) ↦ elim (Bool-cases (status_eq j.status from)) [
      | inr other ↦ stale (transition-stale s now job_id from to fields j e other) j e other
      | inl same ↦
          let h = status_eq→≡ j.status from same in
          elim (Bool-cases (can_transition from to)) [
            | inl ok ↦ moved j (transition-done s now job_id from to fields j e h ok) e h ok
            | inr bad ↦
                illegal (transition-invalid s now job_id from to fields j e h bad) (j, e, h) bad
          ]
    ]
  ]

  done_needs : answer.1 ≡ done → Expected × (can_transition from to ≡ true)
  done_needs h = go transition_cases
    where
      go : Case → Expected × (can_transition from to ≡ true)
      go (absent e _) = absurd (ground (arith, e))
      go (stale e _ _ _) = absurd (ground (arith, e))
      go (illegal e _ _) = absurd (ground (arith, e))
      go (moved j e at same ok) = ((j, at, same), ok)

  invalid_needs : answer.1 ≡ invalid → Expected × (can_transition from to ≡ false)
  invalid_needs h = go transition_cases
    where
      go : Case → Expected × (can_transition from to ≡ false)
      go (absent e _) = absurd (ground (arith, e))
      go (stale e _ _ _) = absurd (ground (arith, e))
      go (illegal e x bad) = (x, bad)
      go (moved j e at same ok) = absurd (ground (arith, e))

  unmoved : answer.1 ≢ done → answer.0 ≡ s
  unmoved h = go transition_cases
    where
      go : Case → answer.0 ≡ s
      go (absent e _) = ap (λ r. r.0) e
      go (stale e _ _ _) = ap (λ r. r.0) e
      go (illegal e _ _) = ap (λ r. r.0) e
      go (moved j e at same ok) = absurd (h (ap (λ r. r.1) e))

-- `transition` succeeds exactly when the job is stored with the expected status and the diagram
-- allows the change, and raises exactly when it is stored with the expected status and the diagram
-- forbids it. Unless it succeeds, the store is unchanged. When it succeeds, the job has the new status,
-- the time and the fields that the call passes, and every other job is as it was.
pub transition-outcome :
    (s : Store) (now job_id : ℕ) (from to : JobStatus) (fields : Fields)
    → let answer = transition s now job_id from to fields in
      let Expected = (j : Job) × (get s job_id ≡ some j) × (j.status ≡ from) in
      ((answer.1 ≡ done) ↔ (Expected × (can_transition from to ≡ true)))
      × ((answer.1 ≡ invalid) ↔ (Expected × (can_transition from to ≡ false)))
      × (answer.1 ≢ done → answer.0 ≡ s)
      × ((j : Job)
          → get s job_id ≡ some j
          → answer.1 ≡ done
          → (i : ℕ)
          → get answer.0 i ≡ (if job_id == i then some (updated now to fields j) else get s i))
transition-outcome s now job_id from to fields = (
  (
    done_needs s now job_id from to fields,
    λ ((j, e, h), ok). ap (λ r. r.1) (transition-done s now job_id from to fields j e h ok),
  ),
  (
    invalid_needs s now job_id from to fields,
    λ ((j, e, h), bad). ap (λ r. r.1) (transition-invalid s now job_id from to fields j e h bad),
  ),
  unmoved s now job_id from to fields,
  λ j e d i.
      let ((j', e', h), ok) = done_needs s now job_id from to fields d in
      let same : j' ≡ j = ground (arith, e, e') in
      ap (λ r. get r.0 i) (transition-done s now job_id from to fields j e (rw (← same) h) ok)
      ∙ get-stored_at s job_id i (updated now to fields j),
)
