-- ===== src/Jobs/Events/Numbering.antt =====
-- The event log of a job is append-only and numbered without gaps.
use mathlib.Core.List.{append-nil}
use agent_learn.Base.{
  ℕ, ◌+◌, ◌≡◌, sym, ◌∙◌, ap, inl, inr, Option, none, some, List, [], ◌∷◌, ◌++◌, arith, ◌==◌,
  if◌then◌else◌, ==_iff, Bool-cases, lookup, lookup-insert, length,
}
use agent_learn.Jobs.Events.{JobEvent, JobEventType, Payload, EventStore, empty, list, append}

-- The events of job `k` carry its id and the numbers from `n + 1` on.
abbrev NumberedFrom : ℕ → ℕ → List JobEvent → Type 0
NumberedFrom k n [] = Unit
NumberedFrom k n (e ∷ es) = (e.job_id ≡ k) × (e.seq ≡ n + 1) × NumberedFrom k (n + 1) es

abbrev pub IsNumbered : EventStore → Type 0
IsNumbered es = (k : ℕ) → NumberedFrom k 0 (list es k)

-- The event that `append` makes.
abbrev pub next_event : EventStore → ℕ → JobEventType → Payload → JobEvent
next_event es k t p = record {
  job_id = k;
  event_type = t;
  payload = p;
  seq = length (list es k) + 1;
}

abbrev found : Option (List JobEvent) → List JobEvent
found none = []
found (some l) = l

list-lookup : (es : EventStore) (k : ℕ) → list es k ≡ found (lookup k es.events)
unfolding list
list-lookup es k = ground arith

list-append :
    (es : EventStore) (k i : ℕ) (t : JobEventType) (p : Payload)
    → list (append es k t p) i ≡ list es i ++ (if k == i then next_event es k t p ∷ [] else [])
unfolding append
list-append es k i t p = rw (list-lookup (append es k t p) i) (
    rw (lookup-insert k i (list es k ++ next_event es k t p ∷ []) es.events)
      (elim (Bool-cases (k == i)) [
        | inl hit ↦ rw hit (ap (λ j. list es j ++ next_event es k t p ∷ []) ((==_iff k i).0 hit))
        | inr miss ↦ rw miss (sym (append-nil (list es i) ∙ list-lookup es i))
      ]))

NumberedFrom-snoc :
    (k n : ℕ) (es : List JobEvent) (e : JobEvent)
    → NumberedFrom k n es
    → e.job_id ≡ k
    → e.seq ≡ n + length es + 1
    → NumberedFrom k n (es ++ e ∷ [])
NumberedFrom-snoc k n [] e v i s = (i, omega arith, tt)
NumberedFrom-snoc k n (x ∷ es) e v i s =
    (v.0, v.1, NumberedFrom-snoc k (n + 1) es e v.2 i (omega arith))

append_numbered :
    (es : EventStore) (k i : ℕ) (t : JobEventType) (p : Payload)
    → IsNumbered es
    → NumberedFrom i 0 (list es i ++ (if k == i then next_event es k t p ∷ [] else []))
append_numbered es k i t p v = elim (Bool-cases (k == i)) [
  | inl hit ↦
      let same : k ≡ i = (==_iff k i).0 hit in
      rw hit (
        NumberedFrom-snoc i 0 (list es i) (next_event es k t p) (v i) same
          (omega (arith, ap (λ j. length (list es j)) same)))
  | inr miss ↦ rw (miss, append-nil (list es i)) (v i)
]

-- The log of every job is numbered 1, 2, 3, ... with the job's own id. An append keeps that, and
-- only adds one event at the end of the log of its job: no other log changes and no event is lost.
pub append-IsNumbered :
    (es : EventStore) (k : ℕ) (t : JobEventType) (p : Payload)
    → IsNumbered es
    → IsNumbered (append es k t p)
      × ((i : ℕ)
          → list (append es k t p) i
            ≡ list es i ++ (if k == i then next_event es k t p ∷ [] else []))
append-IsNumbered es k t p v =
    (λ i. rw (list-append es k i t p) (append_numbered es k i t p v), λ i. list-append es k i t p)

pub empty-IsNumbered : IsNumbered empty
unfolding empty list lookup
empty-IsNumbered k = tt
