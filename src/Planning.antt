-- ===== src/Planning.antt =====
-- src/agentic_test/planning: the deterministic routing rules and the planner.
pub mod Rules
pub mod Precedence
pub mod Planner
