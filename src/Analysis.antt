-- ===== src/Analysis.antt =====
-- src/agentic_test/analysis: what is read from Git, and the symbols that a change touches.
pub mod Diff
pub mod Git
pub mod Cleanness
pub mod Affected
pub mod Snapshots
pub mod Deletions
