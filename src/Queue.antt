-- ===== src/Queue.antt =====
-- packages/db/src: the Postgres task queue. The `tasks` table is a list of rows in the order of their
-- ids; each query is a function of the table and of `now()`, in milliseconds.
pub mod Task
pub mod Backoff
pub mod BackoffBounds
pub mod Ops
pub mod DeadLetters
pub mod Invariant
pub mod Chosen
pub mod Preserve
pub mod Requeued
pub mod Steps
pub mod Fencing
pub mod CrashLoop
pub mod PoisonPill
pub mod Dispatch
