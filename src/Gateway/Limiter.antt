-- ===== src/Gateway/Limiter.antt =====
-- app/gateway/limiter.py, `RateLimiterSet`: a bucket for the whole gateway, and one for each tenant
-- that has a rate, made at its first request.
pub mod Isolation
use agent_learn.Base.{
  ℕ, Bool, true, false, Option, none, some, List, [], if◌then◌else◌, lookup, insert, max,
}
use agent_learn.Gateway.Bucket.{Bucket, try_acquire}
use agent_learn.Gateway.Bucket
use agent_learn.Gateway.Request.{Request, RejectReason, too_many_requests, tenant_quota_exceeded}

-- What the limiters read of `GatewayConfig`.
pub record Config : Type 0 where
  pub edge_rps : ℕ
  pub edge_burst : ℕ
  pub tenant_rps : List (ℕ × ℕ)
  pub tenant_burst : List (ℕ × ℕ)

pub record Limiters : Type 0 where
  pub edge : Bucket
  pub tenant_buckets : List (ℕ × Bucket)

unfoldable pub new : Config → Limiters
new c = record { edge = Bucket.new c.edge_rps c.edge_burst; tenant_buckets = [] }

-- `tenant_burst.get(tenant_id, max(1, int(rate)))`.
abbrev burst_of : Config → ℕ → ℕ → ℕ
burst_of c tenant rate = elim (lookup tenant c.tenant_burst) [ none ↦ max 1 rate | some b ↦ b ]

-- `_tenant_bucket`; the caller stores the bucket again when it has changed it.
unfoldable pub tenant_bucket : Config → Limiters → ℕ → Option Bucket
tenant_bucket c l tenant = elim (lookup tenant c.tenant_rps) [
  | none ↦ none
  | some rate ↦ elim (lookup tenant l.tenant_buckets) [
    | none ↦ some (Bucket.new rate (burst_of c tenant rate))
    | some b ↦ some b
  ]
]

-- The second half of `check`.
unfoldable pub check_tenant : Config → Limiters → ℕ → ℕ → Limiters × Option RejectReason
check_tenant c l tenant now_ms = elim (tenant_bucket c l tenant) [
  | none ↦ (l, none)
  | some b ↦
      let (b', ok) = try_acquire b now_ms 1000 in
      (
        record l { tenant_buckets = insert tenant b' l.tenant_buckets },
        if ok then none else some tenant_quota_exceeded,
      )
]

unfoldable pub check : Config → Limiters → Request → ℕ → Limiters × Option RejectReason
check c l req now_ms =
    let taken = try_acquire l.edge now_ms 1000 in
    let l' = record l { edge = taken.0 } in
    if taken.1 then check_tenant c l' req.tenant_id now_ms else (l', some too_many_requests)
