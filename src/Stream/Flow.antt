-- ===== src/Stream/Flow.antt =====
-- The events between the producer and the queue, over any interleaving.
use agent_learn.Base.{
  ℕ, ◌+◌, ◌≤◌, ◌≡◌, refl, sym, ap, subst, ◌∙◌, inl, inr, true, false, Option, none, some, List, [],
  ◌∷◌, ◌++◌, arith, length, length-snoc, Bool-cases, Option-cases, if◌then◌else◌,
}
use mathlib.Core.List.{append-nil}
use agent_learn.Stream.{
  StreamEvent, EventType, StreamStatus, allowed, append, block, Stream, transition_safe, full,
  put_full, put, publish, put_ends, publish_terminal, Subscriber, next_event, resume, is_terminal,
  poll,
}
use agent_learn.Stream.Replay.{From, From-append, Holds, append-Holds}

-- The producer, which runs one of its steps only when it does not wait, and the subscriber.
pub data Act : Type 0 where
  publishes ends : EventType → ℕ → Act
  puts : Act
  moves : StreamStatus → Act
  polls : Act

abbrev pub publish_or_stay : Stream → Option Stream → Stream
publish_or_stay s none = s
publish_or_stay s (some s') = s'

abbrev pub produce : Stream → EventType → ℕ → Option StreamEvent → Stream
produce s type payload none = publish_or_stay s (publish s type payload)
produce s type payload (some event) = s

abbrev pub finish : Stream → EventType → ℕ → Option StreamEvent → Stream
finish s type payload none = publish_terminal s type payload
finish s type payload (some event) = s

abbrev pub step : Stream × Subscriber → Act → Stream × Subscriber
step (s, sub) (publishes type payload) = (produce s type payload s.waiting, sub)
step (s, sub) (ends type payload) = (finish s type payload s.waiting, sub)
step (s, sub) puts = (put_ends s, sub)
step (s, sub) (moves status) = (transition_safe s status, sub)
step (s, sub) polls = poll (s, sub)

unfoldable pub run : Stream × Subscriber → List Act → Stream × Subscriber
run state [] = state
run state (act ∷ acts) = run (step state act) acts

-- The events that are still to come to the subscriber.
abbrev pub held : Option StreamEvent → List StreamEvent
held none = []
held (some event) = event ∷ []

abbrev pub ahead_of : Stream → List StreamEvent
ahead_of s = s.queue ++ held s.waiting

-- Under the strategy BLOCK the events that are still to come are all those after the number `base`.
abbrev pub Flows : ℕ → Stream → Type 0
Flows base s =
    (s.strategy ≡ block)
    × (Holds s.buffer s.seq × (From base (ahead_of s) × (base + length (ahead_of s) ≡ s.seq)))

-- An event with the next number, and the two streams that `publish` may leave.
abbrev upcoming : Stream → EventType → ℕ → StreamEvent
upcoming s type payload = record { seq = s.seq + 1; type = type; data_ = payload }

abbrev stored : Stream → StreamEvent → Stream
stored s event = record s { seq = s.seq + 1; buffer = append s.buffer event }

publish-full :
    (s : Stream) (type : EventType) (payload : ℕ)
    → s.strategy ≡ block
    → full s ≡ true
    → publish s type payload
      ≡ some (record (stored s (upcoming s type payload)) {
        wait_count = s.wait_count + 1;
        waiting = some (upcoming s type payload);
      })
unfolding publish put put_full
publish-full s type payload blocks h = simp (h, blocks)

publish-room :
    (s : Stream) (type : EventType) (payload : ℕ)
    → full s ≡ false
    → publish s type payload
      ≡ some (record (stored s (upcoming s type payload)) {
        queue = s.queue ++ upcoming s type payload ∷ [];
      })
unfolding publish put
publish-room s type payload h = simp h

-- With nobody waiting, one more event behind the queue.
one_more :
    (s : Stream) (base : ℕ) (event : StreamEvent)
    → s.waiting ≡ none
    → event.seq ≡ s.seq + 1
    → From base (ahead_of s)
    → base + length (ahead_of s) ≡ s.seq
    → From base (s.queue ++ event ∷ []) × (base + length (s.queue ++ event ∷ []) ≡ s.seq + 1)
one_more s base event e numbered from sum =
    let queue : s.queue ++ held s.waiting ≡ s.queue =
      ap (λ w. s.queue ++ held w) e ∙ append-nil s.queue in
    let from' = subst (From base) queue from in
    let sum' = subst (λ l. base + length l ≡ s.seq) queue sum in
    let longer = length-snoc s.queue event in
    (From-append base s.queue event from' (omega arith), omega arith)

-- The producer waits with the next event, or puts it into the queue at once.
waits-Flows :
    (base : ℕ) (s : Stream) (event : StreamEvent)
    → s.waiting ≡ none
    → event.seq ≡ s.seq + 1
    → Flows base s
    → Flows base (record (stored s event) { waiting = some event })
waits-Flows base s event e numbered (blocks, (holds, (from, sum))) =
    let stays = append-Holds s.buffer event s.seq holds numbered in
    (blocks, (stays, one_more s base event e numbered from sum))

queues-Flows :
    (base : ℕ) (s : Stream) (event : StreamEvent)
    → s.waiting ≡ none
    → event.seq ≡ s.seq + 1
    → Flows base s
    → Flows base (record (stored s event) { queue = s.queue ++ event ∷ [] })
queues-Flows base s event e numbered (blocks, (holds, (from, sum))) =
    let stays = append-Holds s.buffer event s.seq holds numbered in
    let more = one_more s base event e numbered from sum in
    let alone : s.queue ++ event ∷ [] ≡ (s.queue ++ event ∷ []) ++ held s.waiting =
      sym (ap (λ w. (s.queue ++ event ∷ []) ++ held w) e ∙ append-nil (s.queue ++ event ∷ [])) in
    (
      blocks,
      (
        stays,
        (subst (From base) alone more.0, subst (λ l. base + length l ≡ s.seq + 1) alone more.1),
      ),
    )

pub produce-Flows :
    (base : ℕ) (s : Stream) (type : EventType) (payload : ℕ) (waiting : Option StreamEvent)
    → s.waiting ≡ waiting
    → Flows base s
    → Flows base (produce s type payload waiting)
produce-Flows base s type payload (some event) e flows = flows
produce-Flows base s type payload none e flows = elim (Bool-cases (full s)) [
  | inl h ↦
      subst (λ o. Flows base (publish_or_stay s o)) (sym (publish-full s type payload flows.0 h))
        (waits-Flows base s (upcoming s type payload) e refl flows)
  | inr h ↦
      subst (λ o. Flows base (publish_or_stay s o)) (sym (publish-room s type payload h))
        (queues-Flows base s (upcoming s type payload) e refl flows)
]

pub finish-Flows :
    (base : ℕ) (s : Stream) (type : EventType) (payload : ℕ) (waiting : Option StreamEvent)
    → s.waiting ≡ waiting
    → Flows base s
    → Flows base (finish s type payload waiting) × (s.seq ≤ (finish s type payload waiting).seq)
unfolding publish_terminal
finish-Flows base s type payload (some event) e flows = (flows, omega arith)
finish-Flows base s type payload none e flows = elim (Bool-cases (full s)) [
  | inl h ↦
      rw (h, publish_terminal)
        (waits-Flows base s (upcoming s type payload) e refl flows, omega arith)
  | inr h ↦
      rw (h, publish_terminal)
        (queues-Flows base s (upcoming s type payload) e refl flows, omega arith)
]

pub put_ends-Flows : (base : ℕ) (s : Stream) → Flows base s → Flows base (put_ends s)
unfolding put_ends
put_ends-Flows base s flows = elim (Option-cases s.waiting) [
  | inl e ↦ rw (e, put_ends) flows
  | inr (event, e) ↦ elim (Bool-cases (full s)) [
    | inl h ↦ rw (e, h, put_ends) flows
    | inr h ↦
        let same : ahead_of s ≡ (s.queue ++ event ∷ []) ++ [] =
          ap (λ w. s.queue ++ held w) e ∙ sym (append-nil (s.queue ++ event ∷ [])) in
        rw (e, h, put_ends)
          (
            flows.0,
            (
              flows.1.0,
              (
                subst (From base) same flows.1.1.0,
                subst (λ l. base + length l ≡ s.seq) same flows.1.1.1,
              ),
            ),
          )
  ]
]

pub transition_safe-Flows :
    (base : ℕ) (s : Stream) (status : StreamStatus)
    → Flows base s
    → Flows base (transition_safe s status)
unfolding transition_safe
transition_safe-Flows base s status flows = elim (Bool-cases (allowed s.status status)) [
  | inl e ↦ rw (e, transition_safe) flows
  | inr e ↦ rw (e, transition_safe) flows
]

pub produce-seq :
    (s : Stream) (type : EventType) (payload : ℕ) (waiting : Option StreamEvent)
    → s.strategy ≡ block
    → s.seq ≤ (produce s type payload waiting).seq
produce-seq s type payload (some event) blocks = omega arith
produce-seq s type payload none blocks = elim (Bool-cases (full s)) [
  | inl h ↦
      subst (λ o. s.seq ≤ (publish_or_stay s o).seq) (sym (publish-full s type payload blocks h))
        (omega arith)
  | inr h ↦
      subst (λ o. s.seq ≤ (publish_or_stay s o).seq) (sym (publish-room s type payload h))
        (omega arith)
]

pub put_ends-seq : (s : Stream) → (put_ends s).seq ≡ s.seq
unfolding put_ends
put_ends-seq s = elim (Option-cases s.waiting) [
  | inl e ↦ rw (e, put_ends) refl
  | inr (event, e) ↦ elim (Bool-cases (full s)) [
    | inl h ↦ rw (e, h, put_ends) refl
    | inr h ↦ rw (e, h, put_ends) refl
  ]
]

pub transition_safe-seq :
    (s : Stream) (status : StreamStatus) → (transition_safe s status).seq ≡ s.seq
unfolding transition_safe
transition_safe-seq s status = ground arith

-- Before there is the subscriber in question, others may take events out of the queue.
next_event-Flows :
    (s : Stream) (sub : Subscriber) (queue : List StreamEvent)
    → s.queue ≡ queue
    → (base : ℕ) × Flows base s
    → (base : ℕ) × Flows base (next_event (s, sub) queue).0
unfolding next_event
next_event-Flows s sub [] e flows = flows
next_event-Flows s sub (event ∷ rest) e (base, flows) =
    let same : ahead_of s ≡ event ∷ (rest ++ held s.waiting) = ap (λ q. q ++ held s.waiting) e in
    let from : From base (event ∷ (rest ++ held s.waiting)) = subst (From base) same flows.1.1.0 in
    let sum = subst (λ l. base + length l ≡ s.seq) same flows.1.1.1 in
    (base + 1, (flows.0, (flows.1.0, (from.1, omega arith))))

resume-Flows :
    (s : Stream) (sub : Subscriber) (left : Option (List StreamEvent))
    → (base : ℕ) × Flows base s
    → (base : ℕ) × Flows base (resume s sub left).0
unfolding resume
resume-Flows s sub none flows = next_event-Flows s sub s.queue refl flows
resume-Flows s sub (some (event ∷ rest)) flows = flows
resume-Flows s sub (some []) flows = elim (Bool-cases (is_terminal s.status)) [
  | inl e ↦ rw (e, resume) flows
  | inr e ↦ rw (e, resume) (next_event-Flows s (record sub { replaying = none }) s.queue refl flows)
]

step-Flows :
    (s : Stream) (sub : Subscriber) (act : Act)
    → (base : ℕ) × Flows base s
    → (base : ℕ) × Flows base (step (s, sub) act).0
unfolding poll
step-Flows s sub (publishes type payload) (base, flows) =
    (base, produce-Flows base s type payload s.waiting refl flows)
step-Flows s sub (ends type payload) (base, flows) =
    (base, (finish-Flows base s type payload s.waiting refl flows).0)
step-Flows s sub puts (base, flows) = (base, put_ends-Flows base s flows)
step-Flows s sub (moves status) (base, flows) = (base, transition_safe-Flows base s status flows)
step-Flows s sub polls flows = elim (Bool-cases sub.returned) [
  | inl e ↦
      subst (λ b. (base : ℕ) × Flows base (if b then (s, sub) else resume s sub sub.replaying).0)
        (sym e) flows
  | inr e ↦
      subst (λ b. (base : ℕ) × Flows base (if b then (s, sub) else resume s sub sub.replaying).0)
        (sym e) (resume-Flows s sub sub.replaying flows)
]

pub run-Flows :
    (acts : List Act) (s : Stream) (sub : Subscriber)
    → (base : ℕ) × Flows base s
    → (base : ℕ) × Flows base (run (s, sub) acts).0
unfolding run
run-Flows [] s sub flows = flows
run-Flows (act ∷ acts) s sub flows =
    let next = step (s, sub) act in run-Flows acts next.0 next.1 (step-Flows s sub act flows)
