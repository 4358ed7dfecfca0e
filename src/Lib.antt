-- ===== src/Lib.antt =====
-- A model of five programs of the repository: the asynchronous agent job queue
-- (async-agent-job-queue/app), the traffic gateway (agent-traffic-gateway/app), the streams of events
-- (stream-infra/streaminfra), the runtime of workflows (dynamic-workflow-router/app/workflow) and a
-- small MapReduce engine (python_mini_mapreduce).
--
-- The job queue. A job record moves through the statuses of a state machine. The service creates and
-- cancels jobs, workers claim them by a lease and run their steps with a checkpoint after each, the
-- reaper puts back jobs whose lease ran out, and the dead letter queue keeps those that are out of
-- retries. All of them act on one store, one event log, one queue and one checkpoint store.
--   Jobs/Status, Status/Graph, Status/Ends: domain/status.py and domain/state_machine.py, its
--     arrows and where they lead
--   Jobs/Job: domain/job.py
--   Jobs/Store and its children: MemoryJobStore of storage/memory.py. Transition and Lease are about
--     the methods of the same name, Evolution about what a job may become.
--   Jobs/Events, Events/Numbering: domain/events.py and MemoryEventStore
--   Jobs/Queue and its children: queue/memory.py
--   Jobs/Agent, Agent/Resume: agent/state.py, StepContext.tool of agent/context.py, and the loop of
--     JobExecutor._run
--   Jobs/System: the state that the parts share, with checkpoint/memory.py
--   Jobs/Dlq, Jobs/Reaper, Jobs/Retry, Jobs/Executor, Jobs/Service: dlq/manager.py,
--     worker/reaper.py, retry/policy.py, executor/job_executor.py and service.py
--   Jobs/Lifecycle: every one of these operations as a step, by any worker, at any time, in any order
--
-- The gateway. A request passes the rate limiters and the circuit breaker, is answered from the
-- cache or joins a flight of the same key, and otherwise waits for a slot of the upstream. All files
-- are in agent-traffic-gateway/app/gateway, but for the first.
--   Gateway/Request: domain/enums.py and Request of domain/models.py
--   Gateway/Bucket, Gateway/Window, Gateway/Limiter: limiter.py
--   Gateway/Semaphore, Gateway/Budget, Gateway/Breaker: protect.py
--   Gateway/Coalescer: coalescer.py
--   Gateway/Lru, Gateway/Cache: cache.py
--   Gateway/Scheduler: scheduler.py
--   Gateway/Admission: admission.py
--   Gateway/Pipeline and its children: gateway.py, the eleven stages over all the components above.
--     State is the state of the class Gateway; Finish, Arrival and Upstream are its methods up to
--     `_submit` and `on_upstream_done`; Pipeline itself has `tick` and `drain_pending`. Ledger, Entry,
--     Dispatch, Rounds and Deadlines have the lemmas, Run and Drain the theorems on whole runs.
--
-- The MapReduce engine, python_mini_mapreduce/minimapreduce/engine.py, splits lines, maps them to
-- pairs, spreads these over buckets by the hash of the key, groups and reduces each bucket.
--   MapReduce: split_input, partition and run
--   MapReduce/Split, Shuffle, Mapping, Reducing: each phase; MapReduce/Reference: the whole run
--
-- The streams, stream-infra/streaminfra. A producer gives events consecutive numbers and puts them into
-- a replay buffer and a bounded queue; a client that comes back sends the number of its last event, is
-- replayed what it missed, and goes on with the queue.
--   Stream: core/event.py, core/state.py, core/stream.py, core/manager.py, buffer/base.py,
--     buffer/memory.py and backpressure/controller.py
--   Stream/Replay: the buffer; Stream/Flow, Stream/Delivery: any interleaving of the two sides
--
-- The workflows, dynamic-workflow-router/app/workflow/runtime.py. A graph of steps is put into layers;
-- the steps run in that order on a shared blackboard, are retried, skipped if they are optional, and
-- blocked behind a step that failed.
--   Workflow: the steps, the layers and the execution
--   Workflow/Attempts, Workflow/Blocking, Workflow/Layers, Workflow/Exhaust: the retries,
--   what ran after what, the layers
--
-- Base holds what both share: tests on numbers, lists, and a dictionary as an association list.
--
-- Conventions. Identifiers, keys and payloads are natural numbers, since the code only carries and
-- compares them. Times are whole milliseconds, and rates, ratios and tokens are thousandths, where
-- the code has floats; so rounding of floats is not modelled. What is drawn at random, the clock and
-- new identifiers are arguments. The methods of the memory stores run under a lock, so each is one
-- function; the executor is cut at the points where another task may act. The loop of steps of a job
-- and the dispatch loop of the gateway are recursions on fuel: more fuel than missing steps is proved
-- to be enough for the one; for the other, a round for each queued request and for each retry that
-- is left to it. The loops over the layers of a workflow have a round for each step, and each round
-- takes at least one.
--
-- Not modelled: the SQL and Redis back ends, the HTTP layers, metrics and logs, which nothing reads
-- back; timeouts and cancellation of the producer of a stream; the simulation around the gateway, of
-- which the answers of the upstream are a parameter; and the other services of the repository.
mod Base
pub mod Jobs
pub mod Gateway
pub mod MapReduce
pub mod Stream
pub mod Workflow
