-- ===== src/Debugger.antt =====
-- packages/web/src and packages/api/src: the debugger's view of a workflow.
pub mod Stream
pub mod Merged
pub mod View
pub mod Dag
pub mod Reached
pub mod Replayed
pub mod Detail
pub mod Badges
