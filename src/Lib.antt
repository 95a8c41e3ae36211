-- ===== src/Lib.antt =====
-- KaryaKram: durable workflows on a Postgres task queue, replayed from an event log.
--
-- The program. A workflow function runs from the top against its history
-- (packages/core/src/replay.ts) and yields commands. The replay handler
-- (packages/worker-sdk/src/workflowReplayHandler.ts) turns them into events, which `appendEvents`
-- (packages/db/src/eventStore.ts) stores in one transaction with the tasks they imply and a cached
-- status, the fold of the history (packages/core/src/workflow.ts). Workers lease tasks from the
-- queue (packages/db/src/queue.ts), run the handler of the task's type, and append its outcome,
-- which wakes the workflow up again. The outcome of an LLM or tool step is written only under the
-- task's lease (packages/worker-sdk/src/fencing.ts), a tool's in the transaction of its own writes.
--
-- The files.
--   Base: names and lemmas that the parts share. Numbers are native naturals; objects and Maps
--     are association lists (Base/Dict).
--   Json, Json/Print, Llm: packages/core/src/llm.ts, the canonical JSON of a request and
--     JSON.stringify.
--   Workflow/Events, Workflow/State: packages/core/src/workflow.ts, events, state and
--     `applyEvent`.
--   Replay/Program: a workflow function as a program of `ctx` calls and awaits, with the commands
--     and errors; Replay/Log: what `replay` reads off the history; Replay/Context: the methods of
--     `ctx`, each a function of the variables of the pass; Replay/Run: the drain loop and the
--     result. Replay/NoReissue, Monotone, Persist and Agreement hold proofs.
--   Queue/Task, Queue/Ops, Queue/DeadLetters: packages/db/src/queue.ts and dlq.ts, each query a
--     function of the `tasks` table, the time and the rows that others lock; Queue/Backoff:
--     packages/db/src/backoff.ts; Queue/Steps: any sequence of queries. Queue/Invariant, Chosen,
--     Preserve, Requeued, Fencing, CrashLoop, PoisonPill, Dispatch and BackoffBounds hold proofs.
--   Store/Events, Store/Column: packages/db/src/eventStore.ts over its tables, and what
--     JSON.stringify leaves of a payload. Store/Numbered, Enqueued,
--     Appended, Append and LostWakeup hold proofs.
--   Worker/Fencing, Handlers, Replays, LlmHandler, Capped, ToolHandler: fencing.ts,
--     activityHandler.ts, timerHandler.ts, sendSignal.ts, cancelWorkflow.ts, startWorkflow.ts,
--     workflowReplayHandler.ts, llmHandler.ts, capResponse of llmConfig.ts and toolHandler.ts of
--     packages/worker-sdk/src; Worker/Ledger: packages/db/src/toolStore.ts; Worker/Moves: any
--     sequence of them and of queries. Worker/Guarded, Kept, KeptTools, KeptMoves, Sound, Once,
--     RunsOnce, Written, Resolved and CappedBounds hold proofs.
--     Worker/Stored, Worker/EnvConfig: the rest of llmConfig.ts, with proofs in StoredFull and
--     Positive; Worker/ToolRegistry: tools.ts, with proofs in Registered.
--   Loop/Config, Loop/Polling: config.ts and backoff.ts of packages/worker-sdk/src; Loop/Machine
--     and Loop/Events: worker.ts, whose stretches between awaits, timers and queries are events.
--     Loop/Accepted, Eases, Sizes, OnePoll, Kept, Bounded, RunCap and Stopped hold proofs.
--   Leadership/Election, Scheduler: packages/scheduler/src/leaderElection.ts and scheduler.ts;
--     Leadership/Reaper: packages/worker-sdk/src/reaper.ts; Leadership/Events: the events of a
--     replica. Leadership/Announced, Led, NeverAgain and LostLock hold proofs.
--   Providers/Errors, Prices, Mock, Anthropic, Selected: packages/llm/src, errors.ts and types.ts,
--     prices.ts, mockProvider.ts, anthropicProvider.ts and config.ts; Providers/Audit:
--     packages/db/src/providerAudit.ts. Providers/Classified, NoFallback, Recovers and Counted hold
--     proofs.
--   Debugger/Stream: the event stream of packages/api/src/server.ts and
--     packages/web/src/useWorkflowEvents.ts; Debugger/View, Debugger/Detail:
--     packages/web/src/llmView.ts; Debugger/Dag: packages/web/src/DagView.tsx. Debugger/Merged,
--     Replayed, Reached and Badges hold proofs.
--   Examples/Workflows: the workflow functions of packages/worker-sdk/src/examples, with proofs in
--     Examples/Stages.
--   Scenarios: sample data, tests and one instance of each result.
--
-- Conventions. Times are milliseconds and `now()` is an argument. A transaction is one step, since
-- the code takes the row locks that make it one; a handler that reads before its transaction is a
-- function of the tables at both times. A thrown error is a value: `none`, or a constructor of an
-- error type. Only the drain loop of `replay` is bounded, by MAX_DRAIN_TICKS as in the source, and
-- `decimal`, by the number and one, which is more than its digits.
--
-- Parameters. The hash function, the registered workflow functions, activities and tools, the
-- JSON Schema compiler, the LLM provider of the step handler, the price estimate, the redaction hook,
-- the SDK's client, JSON.parse and Number, a worker's drawn id and the lock's answers are arguments.
-- Worker/StoredFull has what the JSONB column gives back as an argument; elsewhere it gives back what
-- JSON.stringify wrote, with the keys in that order.
--
-- Not modelled: several replicas over one lock, the redaction patterns, the listing of
-- executions, and the HTTP, React, tracing and demo code. A workflow function awaits one promise
-- at a time. Objects have no array indices among their keys, and keys are compared by code
-- points. A worker's heartbeat query runs when its timer fires.
mod Base
pub mod Json
pub mod Llm
pub mod Workflow
pub mod Replay
pub mod Queue
pub mod Store
pub mod Worker
mod Scenarios
pub mod Loop
pub mod Leadership
pub mod Providers
pub mod Debugger
pub mod Examples
