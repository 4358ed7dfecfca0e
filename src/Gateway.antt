-- ===== src/Gateway.antt =====
-- agent-traffic-gateway/app/gateway: traffic control in front of the upstream.
pub mod Request
pub mod Bucket
pub mod Window
pub mod Limiter
pub mod Semaphore
pub mod Breaker
pub mod Budget
pub mod Coalescer
pub mod Lru
pub mod Cache
pub mod Scheduler
pub mod Admission
pub mod Pipeline
mod Examples
