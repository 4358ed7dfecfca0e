-- ===== src/Stream.antt =====
-- stream-infra/streaminfra: one stream of events, from its producer over the replay buffer and the
-- bounded queue to the one subscriber. Identifiers, payloads and error codes are numbers; the clock,
-- the metrics and the heartbeats, which carry no event, are left out. The steps of the producer and
-- of the subscriber are cut where the code awaits the queue, so that they interleave in any order;
-- waits of the producer that time out or are cancelled are left out.
pub mod Replay
pub mod Flow
pub mod Delivery
mod Examples
use agent_learn.Base.{
  ℕ, ◌+◌, Bool, true, false, not, ◌&&◌, Option, none, some, List, [], ◌∷◌, ◌++◌, map, length,
  filter, ltb, leb, ◌==◌, if◌then◌else◌,
}

-- `EventType` and `StreamEvent` of core/event.py.
pub data EventType : Type 0 where
  start metadata token tool_call error done heartbeat : EventType

abbrev pub is_done : EventType → Bool
is_done done = true
is_done start = false
is_done metadata = false
is_done token = false
is_done tool_call = false
is_done error = false
is_done heartbeat = false

pub record StreamEvent : Type 0 where
  pub seq : ℕ
  pub type : EventType
  pub data_ : ℕ

-- core/state.py.
pub data StreamStatus : Type 0 where
  created running completed failed cancelled closed : StreamStatus

unfoldable pub is_terminal : StreamStatus → Bool
is_terminal completed = true
is_terminal failed = true
is_terminal closed = true
is_terminal created = false
is_terminal running = false
is_terminal cancelled = false

-- `new in _ALLOWED_TRANSITIONS[status]`.
unfoldable pub allowed : StreamStatus → StreamStatus → Bool
allowed created created = false
allowed created _ = true
allowed running created = false
allowed running running = false
allowed running _ = true
allowed cancelled running = true
allowed cancelled closed = true
allowed cancelled _ = false
allowed completed closed = true
allowed completed _ = false
allowed failed closed = true
allowed failed _ = false
allowed closed _ = false

-- buffer/memory.py, a deque with a maximal length.
pub record Buffer : Type 0 where
  pub max_events : ℕ
  pub events : List StreamEvent

abbrev pub tail : List StreamEvent → List StreamEvent
tail [] = []
tail (e ∷ es) = es

unfoldable pub append : Buffer → StreamEvent → Buffer
append b event =
    let all = b.events ++ event ∷ [] in
    record b { events = if ltb b.max_events (length all) then tail all else all }

unfoldable pub replay : Buffer → ℕ → List StreamEvent
replay b last_seq = filter (λ e. ltb last_seq e.seq) b.events

unfoldable pub first_seq : List StreamEvent → ℕ
first_seq [] = 0
first_seq (e ∷ es) = e.seq

unfoldable pub final_seq : ℕ → List StreamEvent → ℕ
final_seq default [] = default
final_seq default (e ∷ es) = final_seq e.seq es

unfoldable pub oldest_seq : Buffer → ℕ
oldest_seq b = first_seq b.events

unfoldable pub last_seq : Buffer → ℕ
last_seq b = final_seq 0 b.events

-- `ResumeWindowExpired`, by its reason.
pub data Expired : Type 0 where
  behind ahead : Expired

-- `validate_replay_window` of buffer/base.py; `none` is the return without an exception.
unfoldable pub validate_replay_window : Buffer → ℕ → Option Expired
validate_replay_window b last =
    if leb last 0
    then none
    else if ltb last (oldest_seq b)
    then some behind
    else if ltb (last_seq b) last
    then some ahead
    else none

-- `BackpressureStrategy` of config.py.
pub data Strategy : Type 0 where
  block drop_oldest drop_newest disconnect : Strategy

-- `Stream`: what the producer and the subscriber share. `waiting` is the event for which the producer
-- waits in `queue.put`.
pub record Stream : Type 0 where
  pub status : StreamStatus
  pub buffer : Buffer
  pub queue : List StreamEvent
  pub queue_size : ℕ
  pub strategy : Strategy
  pub waiting : Option StreamEvent
  pub seq : ℕ
  pub wait_count : ℕ

unfoldable pub new : ℕ → ℕ → Strategy → Stream
new max_events queue_size strategy = record {
  status = created;
  buffer = record { max_events = max_events; events = [] };
  queue = [];
  queue_size = queue_size;
  strategy = strategy;
  waiting = none;
  seq = 0;
  wait_count = 0;
}

-- `_transition_safe`.
unfoldable pub transition_safe : Stream → StreamStatus → Stream
transition_safe s status = if allowed s.status status then record s { status = status } else s

-- `asyncio.Queue.full`: a queue of size 0 is unbounded.
abbrev pub full : Stream → Bool
full s = ltb 0 s.queue_size && leb s.queue_size (length s.queue)

-- `BackpressureController.put` of backpressure/controller.py on a full queue; `none` is
-- `BackpressureTooSlow`.
unfoldable pub put_full : Strategy → Stream → StreamEvent → Option Stream
put_full block s event = some (record s { waiting = some event })
put_full drop_oldest s event = some (record s { queue = tail s.queue ++ event ∷ [] })
put_full drop_newest s event = some s
put_full disconnect s event = none

unfoldable pub put : Stream → StreamEvent → Option Stream
put s event =
    if full s
    then put_full s.strategy (record s { wait_count = s.wait_count + 1 }) event
    else some (record s { queue = s.queue ++ event ∷ [] })

-- `_publish`, of an event with the next number.
unfoldable pub publish : Stream → EventType → ℕ → Option Stream
publish s type payload =
    let event : StreamEvent = record { seq = s.seq + 1; type = type; data_ = payload } in
    put (record s { seq = s.seq + 1; buffer = append s.buffer event }) event

-- `_publish_terminal`, of an ERROR or a DONE, as far as the wait for the queue.
unfoldable pub publish_terminal : Stream → EventType → ℕ → Stream
publish_terminal s type payload =
    let event : StreamEvent = record { seq = s.seq + 1; type = type; data_ = payload } in
    let s' : Stream = record s { seq = s.seq + 1; buffer = append s.buffer event } in
    if full s
    then record s' { waiting = some event }
    else record s' { queue = s.queue ++ event ∷ [] }

-- `queue.put` returns to the producer.
unfoldable pub put_ends : Stream → Stream
put_ends s = elim s.waiting [
  | none ↦ s
  | some event ↦ if full s then s else record s { queue = s.queue ++ event ∷ []; waiting = none }
]

-- `_subscribe_iter` of core/manager.py: its local variables, what it has yielded, and whether it has
-- returned. `replaying` is what the loop over the replay has still to yield, and `none` after it.
pub record Subscriber : Type 0 where
  pub delivered : ℕ
  pub replaying : Option (List StreamEvent)
  pub yielded : List StreamEvent
  pub returned : Bool

-- Up to the loop over the replay.
unfoldable pub subscribe : Stream → ℕ → Option Subscriber
subscribe s last = elim (validate_replay_window s.buffer last) [
  | some expired ↦ none
  | none ↦
      let replayed = replay s.buffer last in
      some (record {
        delivered = final_seq last replayed;
        replaying = some replayed;
        yielded = [];
        returned = false;
      })
]

-- An event that came out of the queue.
unfoldable pub receive : Subscriber → StreamEvent → Subscriber
receive sub event =
    if is_done event.type
    then record sub { yielded = sub.yielded ++ event ∷ []; returned = true }
    else if leb event.seq sub.delivered
    then sub
    else record sub { delivered = event.seq; yielded = sub.yielded ++ event ∷ [] }

-- A round of the loop; with an empty queue the subscriber waits on.
unfoldable pub next_event : Stream × Subscriber → List StreamEvent → Stream × Subscriber
next_event (s, sub) [] = (s, sub)
next_event (s, sub) (event ∷ rest) = (record s { queue = rest }, receive sub event)

-- The subscriber goes on. At each `yield` of the replay it stops, and the stream may change; once the
-- replay is done, it returns if the stream has ended by then.
unfoldable pub resume : Stream → Subscriber → Option (List StreamEvent) → Stream × Subscriber
resume s sub none = next_event (s, sub) s.queue
resume s sub (some []) =
    if is_terminal s.status
    then (s, record sub { replaying = none; returned = true })
    else next_event (s, record sub { replaying = none }) s.queue
resume s sub (some (event ∷ rest)) =
    (s, record sub { replaying = some rest; yielded = sub.yielded ++ event ∷ [] })

unfoldable pub poll : Stream × Subscriber → Stream × Subscriber
poll (s, sub) = if sub.returned then (s, sub) else resume s sub sub.replaying
