-- ===== src/Gateway/Breaker/Trips.antt =====
-- A breaker that is open, over any sequence of calls within the cooldown.
use agent_learn.Base.{
  ℕ, ◌+◌, ◌≤◌, ◌<◌, ◌≡◌, refl, inl, inr, Bool, true, false, some, List, [], ◌∷◌, ◌++◌, arith, leb,
  Bool-cases, All,
}
use agent_learn.Gateway.Request.{open_state}
use agent_learn.Gateway.Breaker.{
  Config, Breaker, cooled, short_circuit, allow, allow_in, trip, evict, too_many, record_sample,
  record_in, record_result,
}

-- A request that asks, or one sent before whose result comes in.
pub data Call : Type 0 where
  asks : ℕ → Call
  reports : Bool → ℕ → Call

abbrev pub time : Call → ℕ
time (asks t) = t
time (reports ok t) = t

-- The breaker after a sequence of calls, and the answers that were given, in order.
pub run : Config → Breaker → List Call → Breaker × List Bool
run c b [] = (b, [])
run c b (asks t ∷ cs) =
    let first = allow c b t in let rest = run c first.0 cs in (rest.0, first.1 ∷ rest.1)
run c b (reports ok t ∷ cs) = run c (record_result c b ok t) cs

-- Open, since `start` or later.
abbrev pub OpenSince : ℕ → Breaker → Type 0
OpenSince start b = (b.state ≡ open_state) × ((o : ℕ) × (b.opened_ms ≡ some o) × (start ≤ o))

abbrev pub Within : Config → ℕ → Call → Type 0
Within c start call = (start ≤ time call) × (time call < start + c.breaker_cooldown_ms)

allow-refuses :
    (c : Config) (b : Breaker) (start t : ℕ)
    → c.breaker_enabled ≡ true
    → OpenSince start b
    → t < start + c.breaker_cooldown_ms
    → OpenSince start (allow c b t).0 × ((allow c b t).1 ≡ false)
unfolding allow allow_in cooled short_circuit
allow-refuses c b start t on (is_open, (o, at, le)) h =
    rw (on, is_open, at, not_yet) ((refl, (o, refl, le)), refl)
  where
    not_yet : leb (o + c.breaker_cooldown_ms) t ≡ false
    not_yet = ground arith

record_result-open :
    (c : Config) (b : Breaker) (ok : Bool) (start t : ℕ)
    → c.breaker_enabled ≡ true
    → OpenSince start b
    → start ≤ t
    → OpenSince start (record_result c b ok t)
unfolding record_result record_in record_sample trip too_many
record_result-open c b ok start t on (is_open, (o, at, le)) h =
    rw (on, is_open, at)
      (elim (Bool-cases (too_many c (evict c.breaker_window_ms t (b.events ++ (t, ok) ∷ [])))) [
        | inl e ↦ rw e (refl, (t, refl, h))
        | inr e ↦ rw e (refl, (o, refl, le))
      ])

-- While the cooldown of an open breaker lasts, if breakers are enabled, every request that asks is
-- refused, and the breaker stays open, whatever results of earlier requests come in between. Later
-- failures may restart the cooldown, and no success ends it.
pub run-refuses :
    (c : Config) (b : Breaker) (start : ℕ) (cs : List Call)
    → c.breaker_enabled ≡ true
    → OpenSince start b
    → All (Within c start) cs
    → OpenSince start (run c b cs).0 × All (λ answer. answer ≡ false) (run c b cs).1
unfolding run
run-refuses c b start [] on o _ = (o, tt)
run-refuses c b start (asks t ∷ cs) on o (w, ws) =
    let first = allow-refuses c b start t on o w.1 in
    let rest = run-refuses c (allow c b t).0 start cs on first.0 ws in (rest.0, (first.1, rest.1))
run-refuses c b start (reports ok t ∷ cs) on o (w, ws) =
    run-refuses c (record_result c b ok t) start cs on (record_result-open c b ok start t on o w.0)
      ws
