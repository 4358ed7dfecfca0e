-- ===== src/Stream/Replay.antt =====
-- Events with consecutive numbers, and what the replay buffer has of them.
use agent_learn.Base.{
  ℕ, ◌+◌, ◌≤◌, ◌<◌, ◌≡◌, refl, ap, subst, ◌∙◌, ◌⊎◌, inl, inr, true, none, some, List, [], ◌∷◌, ◌++◌,
  arith, length, length-snoc, min, ◌↔◌, ltb→lt, filter, ltb, Bool-cases,
}
use agent_learn.Stream.{
  StreamEvent, EventType, Buffer, tail, append, replay, first_seq, final_seq, oldest_seq, last_seq,
  validate_replay_window, behind, ahead,
}

-- The numbers are `b + 1`, `b + 2` and so on.
abbrev pub From : ℕ → List StreamEvent → Type 0
From b [] = Unit
From b (e ∷ es) = (e.seq ≡ b + 1) × From (b + 1) es

pub From-append :
    (b : ℕ) (es : List StreamEvent) (e : StreamEvent)
    → From b es
    → e.seq ≡ b + length es + 1
    → From b (es ++ e ∷ [])
From-append b [] e from h = (omega arith, tt)
From-append b (x ∷ es) e from h = (from.0, From-append (b + 1) es e from.1 (omega arith))

pub final_seq-From : (b : ℕ) (es : List StreamEvent) → From b es → final_seq b es ≡ b + length es
unfolding final_seq
final_seq-From b [] from = omega arith
final_seq-From b (e ∷ es) from =
    let rest = final_seq-From (b + 1) es from.1 in
    ap (λ k. final_seq k es) from.0 ∙ rest ∙ omega arith

filter-all :
    (b last : ℕ) (es : List StreamEvent)
    → From b es
    → last ≤ b
    → filter (λ e. ltb last e.seq) es ≡ es
filter-all b last [] from h = refl
filter-all b last (e ∷ es) from h =
    let here : ltb last e.seq ≡ true = ground (arith, from.0) in
    rw here (ap (λ l. e ∷ l) (filter-all (b + 1) last es from.1 (omega arith)))

-- The events after `last`, of consecutive ones that reach at least as far.
pub filter-From :
    (b last : ℕ) (es : List StreamEvent)
    → From b es
    → b ≤ last
    → last ≤ b + length es
    → From last (filter (λ e. ltb last e.seq) es)
      × (last + length (filter (λ e. ltb last e.seq) es) ≡ b + length es)
filter-From b last [] from low high = (tt, omega arith)
filter-From b last (e ∷ es) from low high = elim (Bool-cases (ltb last e.seq)) [
  | inr e' ↦
      let rest = filter-From (b + 1) last es from.1 (ground (arith, from.0, e')) (omega arith) in
      rw e' (rest.0, omega (arith, rest.1))
  | inl e' ↦
      let same : b ≡ last = ground (arith, from.0, e') in
      let all = filter-all (b + 1) last es from.1 (omega arith) in
      rw (e', all) ((from.0 ∙ omega arith, subst (λ k. From (k + 1) es) same from.1), omega arith)
]

tail-From :
    (b : ℕ) (es : List StreamEvent)
    → From b es
    → 1 ≤ length es
    → From (b + 1) (tail es) × (length (tail es) + 1 ≡ length es)
tail-From b [] from h = absurd (omega arith)
tail-From b (e ∷ es) from h = (from.1, omega arith)

-- A buffer that holds the last events up to the number `top`, as many as it may.
abbrev pub Holds : Buffer → ℕ → Type 0
Holds b top =
    (1 ≤ b.max_events)
    × ((length b.events ≡ min b.max_events top)
        × ((base : ℕ) × (From base b.events × (base + length b.events ≡ top))))

pub append-Holds :
    (b : Buffer) (event : StreamEvent) (top : ℕ)
    → Holds b top
    → event.seq ≡ top + 1
    → Holds (append b event) (top + 1)
unfolding append
append-Holds b event top (room, (size, (base, (from, sum)))) h =
    let all = b.events ++ event ∷ [] in
    let longer = length-snoc b.events event in
    let from' = From-append base b.events event from (omega arith) in
    elim (Bool-cases (ltb b.max_events (length all))) [
      | inr fits ↦ rw fits (room, (ground (arith, fits), (base, (from', omega arith))))
      | inl over ↦
          let over' = ltb→lt b.max_events (length all) over in
          let (rest, shorter) = tail-From base all from' (omega arith) in
          rw over (room, (omega arith, (base + 1, (rest, omega arith))))
    ]

-- What the buffer promises to a client that has seen the event `last`.
abbrev pub Resumes : Buffer → ℕ → ℕ → Type 0
Resumes b top last =
    ((validate_replay_window b last ≡ some behind) ↔ (last + min b.max_events top ≤ top))
    × ((validate_replay_window b last ≡ some ahead) ↔ (top < last))
    × (validate_replay_window b last ≡ none
        → From last (replay b last) × (last + length (replay b last) ≡ top))

-- The first and the last number in the buffer.
pub ends-From :
    (base : ℕ) (es : List StreamEvent)
    → From base es
    → ((first_seq es ≡ 0) × (final_seq 0 es ≡ 0) × (length es ≡ 0))
      ⊎ ((first_seq es ≡ base + 1) × (final_seq 0 es ≡ base + length es) × (1 ≤ length es))
unfolding first_seq final_seq
ends-From base [] from = inl (refl, refl, refl)
ends-From base (e ∷ es) from =
    let rest = final_seq-From (base + 1) es from.1 in
    inr (from.0, ap (λ k. final_seq k es) from.0 ∙ rest ∙ omega arith, omega arith)

pub Holds-Resumes : (b : Buffer) (top last : ℕ) → Holds b top → 1 ≤ last → Resumes b top last
unfolding validate_replay_window oldest_seq last_seq replay
Holds-Resumes b top last (room, (size, (base, (from, sum)))) seen =
    let ends = ends-From base b.events from in
    let whole = filter-From base last b.events from in
    (
      ground (arith, ends),
      ground (arith, ends),
      λ ok.
          let low : base ≤ last = ground (arith, ends, ok) in
          let high : last ≤ base + length b.events = ground (arith, ends, ok) in
          let kept = whole low high in (kept.0, omega (arith, kept.1)),
    )

-- A buffer that was given these events since the number `top`.
unfoldable pub fill : Buffer → ℕ → List (EventType × ℕ) → Buffer
fill b top [] = b
fill b top ((type, payload) ∷ rest) =
    fill (append b (record { seq = top + 1; type = type; data_ = payload })) (top + 1) rest

fill-Holds :
    (payloads : List (EventType × ℕ)) (b : Buffer) (top : ℕ)
    → Holds b top
    → Holds (fill b top payloads) (top + length payloads)
      × ((fill b top payloads).max_events ≡ b.max_events)
unfolding fill append
fill-Holds [] b top holds = (subst (λ k. Holds b k) (omega arith) holds, refl)
fill-Holds ((type, payload) ∷ rest) b top holds =
    let event : StreamEvent = record { seq = top + 1; type = type; data_ = payload } in
    let more = fill-Holds rest (append b event) (top + 1) (append-Holds b event top holds refl) in
    (subst (λ k. Holds (fill (append b event) (top + 1) rest) k) (omega arith) more.0, more.1)

-- For a buffer of at least one event that was given any events with the numbers from 1 on, and a
-- client that has seen a positive number of them: the window is refused as behind exactly when the
-- number is older than all that the buffer kept, which is the last events, as many as it has room for;
-- as ahead exactly when no such event has been produced; and when it is accepted, the replay is all
-- events after that number, each once, in order and without a gap.
pub replay-Resumes :
    (max_events last : ℕ) (payloads : List (EventType × ℕ))
    → 1 ≤ max_events
    → 1 ≤ last
    → Resumes
        (fill (record { max_events = max_events; events = [] }) 0 payloads)
        (length payloads)
        last
replay-Resumes max_events last payloads room seen =
    let empty : Buffer = record { max_events = max_events; events = [] } in
    let filled = fill-Holds payloads empty 0 (room, (omega arith, (0, (tt, omega arith)))) in
    Holds-Resumes (fill empty 0 payloads) (length payloads) last
      (subst (λ k. Holds (fill empty 0 payloads) k) (omega arith) filled.0) seen
