-- ===== src/Execution.antt =====
-- src/agentic_test/execution: the execution service over a sandbox, staging area and runner.
pub mod Sources
pub mod Settings
pub mod Runner
pub mod Outcomes
pub mod Commands
pub mod Coverage
pub mod Staging
pub mod Confinement
pub mod Session
pub mod Execute
pub mod Service
pub mod Batches
pub mod Integrity
pub mod Bounds
pub mod Candidates
pub mod Containers
