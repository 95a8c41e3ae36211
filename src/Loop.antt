-- ===== src/Loop.antt =====
-- packages/worker-sdk/src: the loop of one worker process, which leases tasks, runs and renews them.
pub mod Config
pub mod Polling
pub mod Accepted
pub mod Eases
pub mod Machine
pub mod Events
pub mod Sizes
pub mod OnePoll
pub mod Kept
pub mod Bounded
pub mod RunCap
pub mod Stopped
