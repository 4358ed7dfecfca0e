-- ===== src/Gateway/Examples/Flow.antt =====
-- A gateway of two slots, and four requests of which the first two share a key.
use agent_learn.Base.{
  ℕ, ◌+◌, ◌≡◌, refl, true, false, none, some, List, [], ◌∷◌, ◌==◌, arith, length, if◌then◌else◌,
}
use agent_learn.Gateway.Request.{Request, priority_aging, normal}
use agent_learn.Gateway.Admission
use agent_learn.Gateway.Admission.{Controller, decide, predicted_wait, estimate_per_ms}
use agent_learn.Gateway.Admission.Verdict.{Verdict, decide-Verdict}
use agent_learn.Gateway.Pipeline.State.{Config, Env, new}
use agent_learn.Gateway.Pipeline.{tick, drain_pending}
use agent_learn.Gateway.Pipeline.Ledger.{pending, weigh_outcomes}
use agent_learn.Gateway.Pipeline.Rounds.{Stopped, tick-Stopped}
use agent_learn.Gateway.Pipeline.Run.{Event, arrives, ticks, answers, run, requests_conserved}
use agent_learn.Gateway.Pipeline.Drain.{drain-settles_all}
use agent_learn.Gateway.Examples.{request, limits_config, breaker_config, retry_config}

abbrev admission_config : Admission.Config
admission_config = record {
  admission_enabled = true;
  shedding_enabled = true;
  degrade_enabled = true;
  shed_soft_pressure = 1000;
  shed_hard_pressure = 2000;
  shed_critical_pressure = 4000;
  degrade_from_pressure = 500;
  service_time_estimate_ms = 1000;
}

abbrev config : Config
config = record {
  limits = limits_config;
  breaker = breaker_config;
  cache = record {
    l1_capacity = 2;
    l2_capacity = 4;
    cache_ttl_ms = 60000;
    cache_ttl_jitter = 0;
    semantic_cache_enabled = false;
  };
  admission = admission_config;
  retry = retry_config;
  retry_budget_ratio = some 100;
  upstream_concurrency = 2;
  throughput_window_ms = 5000;
  queue_capacity = 10;
  queue_policy = priority_aging;
  aging_per_second = 100;
  coalescing_enabled = true;
  sweep_expired = true;
  sweep_interval_ms = 50;
  retry_enabled = true;
}

-- The upstream turns the second call away.
abbrev env : Env
env = record {
  accepts = λ call. if call == 2 then false else true;
  backoff = λ call bound. 10;
  jitter = λ call. 1000;
  call_named = λ id. none;
}

-- Two requests of one key, of which the second rides; then two more of other keys.
abbrev other : ℕ → Request
other id = record (request id) { cache_key = 70 + id; tenant_id = 9 }

abbrev events : List Event
events =
    arrives (record (request 1) { tenant_id = 9 }) 100
    ∷ arrives (record (request 2) { tenant_id = 9 }) 110
    ∷ arrives (other 3) 120
    ∷ ticks 130
    ∷ answers 1 true 900
    ∷ arrives (other 4) 1000
    ∷ []

-- 1 for the request that rides, and 0 for the others.
abbrev rider : ℕ → ℕ
rider id = if id == 2 then 1 else 0

requests_conserved_example :
    (weigh_outcomes rider (run config env (new config) events).outcomes
        + pending rider (run config env (new config) events)
      ≡ 1)
    × ((run config env (new config) events).semaphore.inflight
        ≡ length (run config env (new config) events).inflight)
requests_conserved_example = requests_conserved config env events rider λ id. refl

tick-Stopped_example :
    Stopped config env (tick config env (run config env (new config) events) 1100) 1100
tick-Stopped_example = tick-Stopped config env (run config env (new config) events) 1100

drain-settles_all_example :
    (weigh_outcomes rider
        (drain_pending config env (run config env (new config) events) 2000).0.outcomes
      ≡ 1)
    × (pending rider (drain_pending config env (run config env (new config) events) 2000).0 ≡ 0)
drain-settles_all_example =
    drain-settles_all config env events 2000 rider (λ id. refl)
      (omega arith, (omega arith, (omega arith, (omega arith, tt))))

abbrev controller : Controller
controller = record {
  estimator = record {
    window_ms = 5000;
    static_capacity = (2, 1000);
    min_samples = 5;
    completions = [];
    started_ms = none;
  };
  rejected_infeasible = 0;
  rejected_overloaded = 0;
  degraded = 0;
  last_pressure = (0, 1);
  last_shed_level = normal;
}

decide-Verdict_example :
    Verdict admission_config
      (request 1)
      100
      (predicted_wait (estimate_per_ms controller.estimator 100).1 6)
      false
      controller
      (decide admission_config controller (request 1) 100 6 false)
decide-Verdict_example = decide-Verdict admission_config controller (request 1) 100 6 false
