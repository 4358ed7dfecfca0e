-- ===== src/Gateway/Request.antt =====
-- app/domain/enums.py and `Request` of app/domain/models.py. Identifiers and keys are numbers: the
-- code compares them, and orders them to break ties. Times are milliseconds; the weight of a tenant
-- and the aging of a request come in thousandths.
use agent_learn.Base.{ℕ, ◌+◌, ◌-◌, ◌*◌, Bool, true, false}

pub data Priority : Type 0 where
  batch free standard interactive critical : Priority

abbrev pub priority_value : Priority → ℕ
priority_value batch = 0
priority_value free = 1
priority_value standard = 2
priority_value interactive = 3
priority_value critical = 4

pub data RejectReason : Type 0 where
  too_many_requests tenant_quota_exceeded circuit_open deadline_infeasible : RejectReason
  queue_full overloaded upstream_error : RejectReason

-- `is_quota`: refusals that the caller cannot change.
unfoldable pub is_quota : RejectReason → Bool
is_quota tenant_quota_exceeded = true
is_quota too_many_requests = true
is_quota _ = false

pub data ServedBy : Type 0 where
  upstream cache_l1 cache_l2 cache_semantic coalesced : ServedBy

pub data QueuePolicy : Type 0 where
  fifo priority_aging wfq : QueuePolicy

-- `ShedLevel`, in the order of the load.
pub data ShedLevel : Type 0 where
  normal soft hard critical_load : ShedLevel

-- `Outcome`.
pub data Outcome : Type 0 where
  ok degraded rejected timeout failed : Outcome

pub data CircuitState : Type 0 where
  closed open_state half_open : CircuitState

pub record Request : Type 0 where
  pub request_id : ℕ
  pub tenant_id : ℕ
  pub priority : Priority
  pub cache_key : ℕ
  pub semantic_key : ℕ
  pub arrived_ms : ℕ
  pub deadline_ms : ℕ
  pub tenant_weight : ℕ
  pub attempts : ℕ
  pub is_retry : Bool
  pub expected_service_ms : ℕ
  pub coalescable : Bool
  pub degrade : Bool

-- `effective_priority`, in millionths: thousandths of aging for each second, times milliseconds.
unfoldable pub effective_priority : Request → ℕ → ℕ → ℕ
effective_priority r now_ms aging_per_second =
    priority_value r.priority * 1000000 + aging_per_second * (now_ms - r.arrived_ms)
