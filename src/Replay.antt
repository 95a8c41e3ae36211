-- ===== src/Replay.antt =====
-- packages/core/src/replay.ts: a workflow function is run again from the top against its history.
-- A workflow function is a `Program`, the deterministic async function as its calls and awaits.
pub mod Program
pub mod Log
pub mod Context
pub mod Run
pub mod NoReissue
pub mod Monotone
pub mod Persist
pub mod Agreement
