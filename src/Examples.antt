-- ===== src/Examples.antt =====
-- packages/worker-sdk/src/examples: the example workflows, as programs.
pub mod Workflows
pub mod Stages
