-- ===== src/Stream/Delivery.antt =====
-- What a subscriber is given, however the producer and it interleave.
use agent_learn.Base.{
  ℕ, ◌+◌, ◌≤◌, ◌≡◌, refl, sym, ap, subst, ◌∙◌, ◌⊎◌, inl, inr, true, false, none, some, List, [],
  ◌∷◌, ◌++◌, arith, Option, length, length-snoc, leb, Bool-cases, Option-cases, if◌then◌else◌,
}
use mathlib.Core.Bool.{true≢false}
use mathlib.Core.List.{append-nil}
use mathlib.Core.Option.{some-injective}
use agent_learn.Stream.{
  StreamEvent, is_done, is_terminal, Buffer, replay, final_seq, oldest_seq, last_seq,
  validate_replay_window, block, Stream, new, Subscriber, subscribe, receive, next_event, resume,
  poll,
}
use agent_learn.Stream.Replay.{From, From-append, filter-From, final_seq-From, Holds, ends-From}
use agent_learn.Stream.Flow.{
  Act, publishes, ends, puts, moves, polls, step, run, held, ahead_of, Flows, produce-Flows,
  finish-Flows, put_ends-Flows, transition_safe-Flows, produce-seq, put_ends-seq,
  transition_safe-seq, run-Flows,
}

-- What the subscriber has yielded, and then what is left of the replay: all events after `last`
-- without a gap, as far as `delivered`.
abbrev Progress : ℕ → Subscriber → Option (List StreamEvent) → Type 0
Progress last sub none = From last sub.yielded × (sub.delivered ≡ last + length sub.yielded)
Progress last sub (some left) =
    From last (sub.yielded ++ left) × (sub.delivered ≡ last + length (sub.yielded ++ left))

-- Either that, or such events and then the DONE that ended it.
abbrev pub InOrder : ℕ → Subscriber → Type 0
InOrder last sub =
    Progress last sub sub.replaying
    ⊎ ((before : List StreamEvent) × ((end : StreamEvent) × ((sub.returned ≡ true)
            × ((sub.yielded ≡ before ++ end ∷ [])
                × (From last before
                    × ((is_done end.type ≡ true) × (end.seq ≤ last + length before + 1)))))))

abbrev Fed : ℕ → Stream × Subscriber → Type 0
Fed last (s, sub) =
    (base : ℕ) × (Flows base s
      × (InOrder last sub
          × (((base ≤ sub.delivered) ⊎ (sub.returned ≡ true)) × (sub.delivered ≤ s.seq))))

receive-InOrder :
    (last base top : ℕ) (sub : Subscriber) (event : StreamEvent)
    → sub.returned ≡ false
    → sub.replaying ≡ none
    → InOrder last sub
    → base ≤ sub.delivered
    → sub.delivered ≤ top
    → event.seq ≡ base + 1
    → base + 1 ≤ top
    → InOrder last (receive sub event)
      × ((base + 1 ≤ (receive sub event).delivered) ⊎ ((receive sub event).returned ≡ true))
      × ((receive sub event).delivered ≤ top)
unfolding receive
receive-InOrder last base top sub event going past (inr (before, (end, (over, rest)))) low high next
      some_left =
    absurd (true≢false (sym over ∙ going))
receive-InOrder last base top sub event going past (inl so_far) low high next some_left =
    let (from, sum) = subst (Progress last sub) past so_far in
    let live : (x : Subscriber) → x.replaying ≡ none → Progress last x none → InOrder last x =
      λ x e p. inl (subst (Progress last x) (sym e) p) in
    elim (Bool-cases (is_done event.type)) [
      | inl e ↦
          rw (e, receive)
            (inr (sub.yielded, (event, (refl, (refl, (from, (e, omega arith)))))), inr refl, high)
      | inr e ↦ elim (Bool-cases (leb event.seq sub.delivered)) [
        | inl known ↦ rw (e, known, receive) (inl so_far, inl (ground (arith, known, next)), high)
        | inr fresh ↦
            let new_one : event.seq ≡ last + length sub.yielded + 1 =
              ground (arith, fresh, next, low, sum) in
            let longer = length-snoc sub.yielded event in
            rw (e, fresh, receive)
              (
                live _ past (From-append last sub.yielded event from new_one, omega arith),
                inl (omega arith),
                omega arith,
              )
      ]
    ]

next_event-Fed :
    (last : ℕ) (s : Stream) (sub : Subscriber) (queue : List StreamEvent)
    → s.queue ≡ queue
    → sub.returned ≡ false
    → sub.replaying ≡ none
    → Fed last (s, sub)
    → Fed last (next_event (s, sub) queue)
unfolding next_event
next_event-Fed last s sub [] e going past fed = fed
next_event-Fed last s sub (event ∷ rest) e going past (base, (flows, (order, (link, high)))) =
    let same : ahead_of s ≡ event ∷ (rest ++ held s.waiting) = ap (λ q. q ++ held s.waiting) e in
    let from : From base (event ∷ (rest ++ held s.waiting)) = subst (From base) same flows.1.1.0 in
    let sum = subst (λ l. base + length l ≡ s.seq) same flows.1.1.1 in
    let low : base ≤ sub.delivered = elim link [
      | inl l ↦ l
      | inr over ↦ absurd (true≢false (sym over ∙ going))
    ] in
    let given =
      receive-InOrder last base s.seq sub event going past order low high from.0 (omega arith) in
    (base + 1, ((flows.0, (flows.1.0, (from.1, omega arith))), (given.0, (given.1, given.2))))

next_yield :
    (xs : List StreamEvent) (x : StreamEvent) (ys : List StreamEvent)
    → (xs ++ x ∷ []) ++ ys ≡ xs ++ x ∷ ys
next_yield [] x ys = refl
next_yield (y ∷ xs) x ys = ap (λ l. y ∷ l) (next_yield xs x ys)

-- A yield moves an event from the replay to what was yielded.
Progress-yield :
    (last : ℕ) (sub : Subscriber) (event : StreamEvent) (rest : List StreamEvent)
    → Progress last sub (some (event ∷ rest))
    → Progress last
        (record sub { replaying = some rest; yielded = sub.yielded ++ event ∷ [] })
        (some rest)
Progress-yield last sub event rest p =
    let same = sym (next_yield sub.yielded event rest) in
    subst (λ l. From last l × (sub.delivered ≡ last + length l)) same p

resume-Fed :
    (last : ℕ) (s : Stream) (sub : Subscriber) (left : Option (List StreamEvent))
    → sub.replaying ≡ left
    → sub.returned ≡ false
    → Fed last (s, sub)
    → Fed last (resume s sub left)
unfolding resume
resume-Fed last s sub none e going fed = next_event-Fed last s sub s.queue refl going e fed
resume-Fed last s sub (some left) e going
      (base, (flows, (inr (before, (end, (over, rest))), more))) =
    absurd (true≢false (sym over ∙ going))
resume-Fed last s sub (some (event ∷ rest)) e going (base, (flows, (inl p, (link, high)))) =
    let now = Progress-yield last sub event rest (subst (Progress last sub) e p) in
    (base, (flows, (inl now, (link, high))))
resume-Fed last s sub (some []) e going (base, (flows, (inl p, (link, high)))) =
    let all = subst (Progress last sub) e p in
    let now : Progress last sub none =
      subst (λ l. From last l × (sub.delivered ≡ last + length l)) (append-nil sub.yielded) all in
    elim (Bool-cases (is_terminal s.status)) [
      | inl over ↦ rw (over, resume) (base, (flows, (inl now, (inr refl, high))))
      | inr on ↦
          rw (on, resume)
            (next_event-Fed last s (record sub { replaying = none }) s.queue refl going refl
              (base, (flows, (inl now, (link, high)))))
    ]

poll-Fed : (last : ℕ) (s : Stream) (sub : Subscriber) → Fed last (s, sub) → Fed last (poll (s, sub))
unfolding poll
poll-Fed last s sub fed = elim (Bool-cases sub.returned) [
  | inl e ↦ subst (λ b. Fed last (if b then (s, sub) else resume s sub sub.replaying)) (sym e) fed
  | inr e ↦
      subst (λ b. Fed last (if b then (s, sub) else resume s sub sub.replaying)) (sym e)
        (resume-Fed last s sub sub.replaying refl e fed)
]

step-Fed :
    (last : ℕ) (s : Stream) (sub : Subscriber) (act : Act)
    → Fed last (s, sub)
    → Fed last (step (s, sub) act)
step-Fed last s sub (publishes type payload) (base, (flows, (order, (link, high)))) =
    let grows = produce-seq s type payload s.waiting flows.0 in
    (base, (produce-Flows base s type payload s.waiting refl flows, (order, (link, omega arith))))
step-Fed last s sub (ends type payload) (base, (flows, (order, (link, high)))) =
    let more = finish-Flows base s type payload s.waiting refl flows in
    let grows = more.1 in (base, (more.0, (order, (link, omega arith))))
step-Fed last s sub puts (base, (flows, (order, (link, high)))) =
    (base, (put_ends-Flows base s flows, (order, (link, omega (arith, put_ends-seq s)))))
step-Fed last s sub (moves status) (base, (flows, (order, (link, high)))) = (
  base,
  (
    transition_safe-Flows base s status flows,
    (order, (link, omega (arith, transition_safe-seq s status))),
  ),
)
step-Fed last s sub polls fed = poll-Fed last s sub fed

run-Fed :
    (acts : List Act) (last : ℕ) (s : Stream) (sub : Subscriber)
    → Fed last (s, sub)
    → Fed last (run (s, sub) acts)
unfolding run
run-Fed [] last s sub fed = fed
run-Fed (act ∷ acts) last s sub fed =
    let next = step (s, sub) act in run-Fed acts last next.0 next.1 (step-Fed last s sub act fed)

-- The replay of a window that was accepted reaches up to the newest event.
replay-reaches :
    (b : Buffer) (top last : ℕ)
    → Holds b top
    → validate_replay_window b last ≡ none
    → (1 ≤ last) ⊎ (oldest_seq b ≤ 1)
    → From last (replay b last) × (last + length (replay b last) ≡ top)
unfolding validate_replay_window oldest_seq last_seq replay
replay-reaches b top last (room, (size, (base, (from, sum)))) ok start =
    let ends = ends-From base b.events from in
    let low : base ≤ last = ground (arith, ends, ok, start, size, room) in
    let high : last ≤ base + length b.events = ground (arith, ends, ok) in
    let kept = filter-From base last b.events from low high in (kept.0, omega (arith, kept.1))

subscribe-Fed :
    (s : Stream) (last : ℕ) (sub : Subscriber)
    → (base : ℕ) × Flows base s
    → subscribe s last ≡ some sub
    → (1 ≤ last) ⊎ (oldest_seq s.buffer ≤ 1)
    → Fed last (s, sub)
unfolding subscribe
subscribe-Fed s last sub (base, flows) subscribed start =
    elim (Option-cases (validate_replay_window s.buffer last)) [
      | inr (expired, e) ↦ absurd (ground (arith, rw (e, subscribe) at subscribed))
      | inl e ↦
          let replayed = replay s.buffer last in
          let (from, reach) = replay-reaches s.buffer s.seq last flows.1.0 e start in
          let sum = flows.1.1.1 in
          let final = final_seq-From last replayed from in
          let begun : Subscriber = record {
            delivered = final_seq last replayed;
            replaying = some replayed;
            yielded = [];
            returned = false;
          } in
          let fed : Fed last (s, begun) =
            (base, (flows, (inl (from, final), (inl (omega arith), omega arith)))) in
          subst (λ x. Fed last (s, x)) (some-injective begun sub (rw (e, subscribe) at subscribed))
            fed
    ]

caught_up :
    (last : ℕ) (s : Stream) (sub : Subscriber)
    → Fed last (s, sub)
    → sub.returned ≡ false
    → length (ahead_of s) ≡ 0
    → sub.delivered ≡ s.seq
caught_up last s sub (base, (flows, (order, (link, high)))) going quiet = elim link [
  | inl low ↦ let sum = flows.1.1.1 in omega arith
  | inr over ↦ absurd (true≢false (sym over ∙ going))
]

-- A stream that has just been made.
new-Flows : (max_events queue_size : ℕ) → 1 ≤ max_events → Flows 0 (new max_events queue_size block)
unfolding new
new-Flows max_events queue_size room =
    (refl, ((room, (omega arith, (0, (tt, omega arith)))), (tt, omega arith)))

-- Under the strategy BLOCK, with a replay buffer of at least one event and any size of the queue:
-- after any interleaving of a producer, no wait of which is cut off, and an earlier subscriber, let a
-- client subscribe with the number of its last event, accepted by the window, and let that number be
-- positive or nothing be evicted yet. Then after any further interleaving, also between the yields of
-- the replay, what it has been given and what is left of the replay are the events after its number
-- in order, each once and without a gap, except that the DONE which ends it may repeat one that the
-- replay had. As long as it has not returned, once the queue is empty and the producer does not wait,
-- these are all events there are. Nothing is said of what is published while the replay is yielded,
-- if the stream has ended when the replay is over: the subscriber returns then.
pub subscriber-InOrder :
    (max_events queue_size last : ℕ) (earlier sub : Subscriber) (acts later : List Act)
    → 1 ≤ max_events
    → subscribe (run (new max_events queue_size block, earlier) acts).0 last ≡ some sub
    → (1 ≤ last) ⊎ (oldest_seq (run (new max_events queue_size block, earlier) acts).0.buffer ≤ 1)
    → InOrder last (run ((run (new max_events queue_size block, earlier) acts).0, sub) later).1
      × ((run ((run (new max_events queue_size block, earlier) acts).0, sub) later).1.returned
            ≡ false
          → length (
              ahead_of (run ((run (new max_events queue_size block, earlier) acts).0, sub) later).0)
            ≡ 0
          → (run ((run (new max_events queue_size block, earlier) acts).0, sub) later).1.delivered
            ≡ (run ((run (new max_events queue_size block, earlier) acts).0, sub) later).0.seq)
subscriber-InOrder max_events queue_size last earlier sub acts later room subscribed start =
    let first = new max_events queue_size block in
    let s = (run (first, earlier) acts).0 in
    let flows = run-Flows acts first earlier (0, new-Flows max_events queue_size room) in
    let fed = run-Fed later last s sub (subscribe-Fed s last sub flows subscribed start) in
    (
      fed.1.1.0,
      λ going quiet. caught_up last (run (s, sub) later).0 (run (s, sub) later).1 fed going quiet,
    )
