-- ===== src/Store.antt =====
-- packages/db/src/eventStore.ts: histories and the tasks that they imply, in one transaction.
pub mod Column
pub mod Events
pub mod Numbered
pub mod Enqueued
pub mod Appended
pub mod Append
pub mod LostWakeup
