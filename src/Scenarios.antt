-- ===== src/Scenarios.antt =====
-- Sample workflows and tables, tests that run the definitions on them, and one instance of each result.
mod Replays
mod Queues
mod Stores
mod Tools
mod Loops
mod Leaders
mod Providers
mod Views
mod Samples
