-- ===== src/Workflow.antt =====
-- packages/core/src/workflow.ts: the events of a workflow's history, and the state that they fold to.
-- Times are milliseconds; a cost is held as its numerator over 1,000,000 (millionths of a dollar).
pub mod Events
pub mod State
pub mod Amend
