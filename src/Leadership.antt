-- ===== src/Leadership.antt =====
-- packages/scheduler/src and packages/worker-sdk/src/reaper.ts: one replica of the scheduler, which
-- contends for leadership and runs the reaper while it leads.
pub mod Election
pub mod Reaper
pub mod Scheduler
pub mod Events
pub mod Announced
pub mod Led
pub mod NeverAgain
pub mod LostLock
