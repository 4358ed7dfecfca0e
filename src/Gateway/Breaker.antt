-- ===== src/Gateway/Breaker.antt =====
-- app/gateway/protect.py, `CircuitBreaker`. Times are milliseconds; the failure ratio comes in
-- thousandths, so that `failures / samples > ratio` is written without a division. The one division
-- by zero of the source (no sample at all, with a minimum of zero samples) is the test's false.
pub mod Trips
pub mod Probes
use agent_learn.Base.{
  ℕ, ◌+◌, ◌*◌, Bool, true, false, not, Option, none, some, List, [], ◌∷◌, ◌++◌, leb, ltb, length,
  filter, if◌then◌else◌,
}
use agent_learn.Gateway.Request.{CircuitState, closed, open_state, half_open}

-- What the breaker reads of `GatewayConfig`.
pub record Config : Type 0 where
  pub breaker_enabled : Bool
  pub breaker_cooldown_ms : ℕ
  pub breaker_half_open_probes : ℕ
  pub breaker_window_ms : ℕ
  pub breaker_min_samples : ℕ
  pub breaker_failure_ratio : ℕ

pub record Breaker : Type 0 where
  pub state : CircuitState
  pub events : List (ℕ × Bool)
  pub opened_ms : Option ℕ
  pub half_open_probes : ℕ
  pub trips : ℕ
  pub short_circuited : ℕ

unfoldable pub new : Breaker
new = record {
  state = closed;
  events = [];
  opened_ms = none;
  half_open_probes = 0;
  trips = 0;
  short_circuited = 0;
}

unfoldable pub short_circuit : Breaker → Breaker × Bool
short_circuit b = (record b { short_circuited = b.short_circuited + 1 }, false)

-- `now_ms - opened_ms >= breaker_cooldown_ms`.
unfoldable pub cooled : Config → Option ℕ → ℕ → Bool
cooled c none now_ms = false
cooled c (some opened) now_ms = leb (opened + c.breaker_cooldown_ms) now_ms

-- The last part of `allow`, in the state HALF_OPEN.
unfoldable pub probe : Config → Breaker → Breaker × Bool
probe c b = if leb c.breaker_half_open_probes b.half_open_probes then short_circuit b else (b, true)

unfoldable pub allow_in : Config → Breaker → ℕ → CircuitState → Breaker × Bool
allow_in c b now_ms closed = (b, true)
allow_in c b now_ms half_open = probe c b
allow_in c b now_ms open_state =
    if cooled c b.opened_ms now_ms
    then probe c (record b { state = half_open; half_open_probes = 0 })
    else short_circuit b

unfoldable pub allow : Config → Breaker → ℕ → Breaker × Bool
allow c b now_ms = if c.breaker_enabled then allow_in c b now_ms b.state else (b, true)

-- `if self.state is not CircuitState.OPEN: self.trips += 1`.
unfoldable pub trips_after : CircuitState → ℕ → ℕ
trips_after open_state trips = trips
trips_after closed trips = trips + 1
trips_after half_open trips = trips + 1

-- `_open`.
unfoldable pub trip : Breaker → ℕ → Breaker
trip b now_ms = record b {
  trips = trips_after b.state b.trips;
  state = open_state;
  opened_ms = some now_ms;
  half_open_probes = 0;
}

-- The samples that are left once those at or before `now_ms - breaker_window_ms` are taken from
-- the front.
unfoldable pub evict : ℕ → ℕ → List (ℕ × Bool) → List (ℕ × Bool)
evict window now_ms [] = []
evict window now_ms (e ∷ es) =
    let rest = evict window now_ms es in if leb (e.0 + window) now_ms then rest else e ∷ es

unfoldable pub failures : List (ℕ × Bool) → ℕ
failures es = length (filter (λ e. not e.1) es)

unfoldable pub too_many : Config → List (ℕ × Bool) → Bool
too_many c es =
    if ltb (length es) c.breaker_min_samples
    then false
    else ltb (c.breaker_failure_ratio * length es) (failures es * 1000)

-- `record` in the states CLOSED and OPEN.
unfoldable pub record_sample : Config → Breaker → Bool → ℕ → Breaker
record_sample c b ok now_ms =
    let es = evict c.breaker_window_ms now_ms (b.events ++ (now_ms, ok) ∷ []) in
    let b' = record b { events = es } in if too_many c es then trip b' now_ms else b'

-- `record` in the state HALF_OPEN.
unfoldable pub record_probe : Config → Breaker → Bool → ℕ → Breaker
record_probe c b false now_ms = trip (record b { half_open_probes = b.half_open_probes + 1 }) now_ms
record_probe c b true now_ms =
    let b' = record b { half_open_probes = b.half_open_probes + 1 } in
    if leb c.breaker_half_open_probes (b.half_open_probes + 1)
    then record b' { state = closed; events = [] }
    else b'

unfoldable pub record_in : Config → Breaker → Bool → ℕ → CircuitState → Breaker
record_in c b ok now_ms half_open = record_probe c b ok now_ms
record_in c b ok now_ms closed = record_sample c b ok now_ms
record_in c b ok now_ms open_state = record_sample c b ok now_ms

-- `record`.
unfoldable pub record_result : Config → Breaker → Bool → ℕ → Breaker
record_result c b ok now_ms = if c.breaker_enabled then record_in c b ok now_ms b.state else b
