-- ===== src/Jobs.antt =====
-- async-agent-job-queue/app: the asynchronous job queue.
pub mod Status
pub mod Job
pub mod Store
pub mod Queue
pub mod Events
pub mod Agent
pub mod System
pub mod Dlq
pub mod Reaper
pub mod Retry
pub mod Executor
pub mod Service
pub mod Lifecycle
mod Examples
