-- ===== src/Gateway/Admission.antt =====
-- app/gateway/admission.py: the estimate of the throughput, and whom to let in. A throughput is a
-- fraction, a numerator and a denominator, in requests per millisecond; so is the pressure, which is
-- compared with thresholds in thousandths. The texts of the rationales are left out.
pub mod Verdict
use agent_learn.Base.{
  ℕ, ◌+◌, ◌-◌, ◌*◌, ◌/◌, Bool, true, false, not, ◌&&◌, ◌||◌, Option, none, some, List, [], ◌∷◌,
  ◌++◌, ltb, leb, ◌==◌, max, length, if◌then◌else◌,
}
use agent_learn.Gateway.Request.{
  Request, Priority, priority_value, interactive, batch, RejectReason, deadline_infeasible,
  overloaded, ShedLevel, normal, soft, hard, critical_load,
}

pub record Estimator : Type 0 where
  pub window_ms : ℕ
  pub static_capacity : ℕ × ℕ
  pub min_samples : ℕ
  pub completions : List ℕ
  pub started_ms : Option ℕ

unfoldable pub observe_completion : Estimator → ℕ → Estimator
observe_completion e now_ms = record e { completions = e.completions ++ now_ms ∷ [] }

-- The completions that stay in the window.
unfoldable pub evict : ℕ → ℕ → List ℕ → List ℕ
evict window_ms now_ms [] = []
evict window_ms now_ms (t ∷ ts) =
    let rest = evict window_ms now_ms ts in if leb (t + window_ms) now_ms then rest else t ∷ ts

abbrev pub started_or : ℕ → Option ℕ → ℕ
started_or now_ms none = now_ms
started_or now_ms (some t) = t

-- `a <= b` on fractions, and the lesser of two.
abbrev pub fraction_le : ℕ × ℕ → ℕ × ℕ → Bool
fraction_le (a, b) (c, d) = leb (a * d) (c * b)

abbrev pub fraction_min : ℕ × ℕ → ℕ × ℕ → ℕ × ℕ
fraction_min x y = if fraction_le x y then x else y

unfoldable pub estimate_per_ms : Estimator → ℕ → Estimator × (ℕ × ℕ)
estimate_per_ms e now_ms =
    let started = started_or now_ms e.started_ms in
    let left = evict e.window_ms now_ms e.completions in
    let e' : Estimator = record e { completions = left; started_ms = some started } in
    if not (leb (started + e.window_ms) now_ms) || ltb (length left) e.min_samples
    then (e', e.static_capacity)
    else (e', fraction_min e.static_capacity (length left, e.window_ms))

-- What the controller reads of `GatewayConfig`.
pub record Config : Type 0 where
  pub admission_enabled : Bool
  pub shedding_enabled : Bool
  pub degrade_enabled : Bool
  pub shed_soft_pressure : ℕ
  pub shed_hard_pressure : ℕ
  pub shed_critical_pressure : ℕ
  pub degrade_from_pressure : ℕ
  pub service_time_estimate_ms : ℕ

-- `AdmissionDecision`.
pub record Decision : Type 0 where
  pub allow : Bool
  pub reason : Option RejectReason
  pub shed_level : ShedLevel
  pub predicted_wait_ms : ℕ
  pub predicted_finish_ms : ℕ
  pub pressure : ℕ × ℕ
  pub degrade : Bool

-- `AdmissionController`.
pub record Controller : Type 0 where
  pub estimator : Estimator
  pub rejected_infeasible : ℕ
  pub rejected_overloaded : ℕ
  pub degraded : ℕ
  pub last_pressure : ℕ × ℕ
  pub last_shed_level : ShedLevel

-- `pressure >= threshold`.
abbrev pub at_least : ℕ × ℕ → ℕ → Bool
at_least (wait, service) threshold = leb (threshold * service) (wait * 1000)

unfoldable pub shed_level : Config → ℕ × ℕ → ShedLevel
shed_level c pressure =
    if not c.shedding_enabled
    then normal
    else if at_least pressure c.shed_critical_pressure
    then critical_load
    else if at_least pressure c.shed_hard_pressure
    then hard
    else if at_least pressure c.shed_soft_pressure
    then soft
    else normal

-- `int((queue_depth + 1) / throughput) if throughput > 0 else 0`.
unfoldable pub predicted_wait : ℕ × ℕ → ℕ → ℕ
predicted_wait (a, b) queue_depth = if a == 0 then 0 else (queue_depth + 1) * b / a

abbrev pub is_batch : Priority → Bool
is_batch p = priority_value p == priority_value batch

-- Whether the level turns the request away.
unfoldable pub sheds : ShedLevel → Priority → Bool → Bool
sheds normal p cache_hit = false
sheds soft p cache_hit = is_batch p
sheds hard p cache_hit = ltb (priority_value p) (priority_value interactive)
sheds critical_load p cache_hit = not cache_hit

unfoldable pub infeasible : Controller → Decision → Controller × Decision
infeasible a d = (
  record a { rejected_infeasible = a.rejected_infeasible + 1 },
  record d { allow = false; reason = some deadline_infeasible },
)

-- A decision by the load does not tell when the request would have ended.
unfoldable pub shed : Controller → Decision → Controller × Decision
shed a d = (
  record a { rejected_overloaded = a.rejected_overloaded + 1 },
  record d { allow = false; reason = some overloaded; predicted_finish_ms = 0 },
)

unfoldable pub admit : Config → Controller → Request → Decision → Controller × Decision
admit c a req d =
    if c.degrade_enabled
      && at_least d.pressure c.degrade_from_pressure
      && not (is_batch req.priority)
    then (record a { degraded = a.degraded + 1 }, record d { degrade = true })
    else (a, d)

-- `decide` once the wait is predicted.
unfoldable pub decide_for : Config → Controller → Request → ℕ → ℕ → Bool → Controller × Decision
decide_for c a req now_ms wait cache_hit =
    let pressure : ℕ × ℕ = (wait, max c.service_time_estimate_ms 1) in
    let level = shed_level c pressure in
    let a' : Controller = record a { last_pressure = pressure; last_shed_level = level } in
    let finish = now_ms + wait + req.expected_service_ms in
    let d : Decision = record {
      allow = true;
      reason = none;
      shed_level = level;
      predicted_wait_ms = wait;
      predicted_finish_ms = finish;
      pressure = pressure;
      degrade = false;
    } in
    if c.admission_enabled && ltb req.deadline_ms finish
    then infeasible a' d
    else if sheds level req.priority cache_hit
    then shed a' d
    else admit c a' req d

unfoldable pub decide : Config → Controller → Request → ℕ → ℕ → Bool → Controller × Decision
decide c a req now_ms queue_depth cache_hit =
    let measured = estimate_per_ms a.estimator now_ms in
    decide_for c (record a { estimator = measured.0 }) req now_ms
      (predicted_wait measured.1 queue_depth) cache_hit
