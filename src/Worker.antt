-- ===== src/Worker.antt =====
-- packages/worker-sdk/src: the task handlers and the external entry points. A handler reads the history
-- first and writes in a transaction of its own later, so it is a function of the tables at both times.
pub mod Fencing
pub mod Handlers
pub mod Replays
pub mod Capped
pub mod CappedBounds
pub mod Stored
pub mod StoredFull
pub mod EnvConfig
pub mod Positive
pub mod LlmHandler
pub mod Moves
pub mod Kept
pub mod KeptMoves
pub mod Sound
pub mod Written
pub mod Once
pub mod Resolved
pub mod Ledger
pub mod ToolHandler
pub mod ToolRegistry
pub mod Registered
pub mod Guarded
pub mod KeptTools
pub mod RunsOnce
