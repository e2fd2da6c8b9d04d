-- ===== src/Storage.antt =====
-- src/agentic_test/storage: the SQLite tables, the repository, the checkpoints and the event store.
pub mod Table
pub mod Database
pub mod Runs
pub mod Candidates
pub mod Evidence
pub mod Diagnoses
pub mod Checkpoints
pub mod Events
pub mod Integrity
pub mod Frames
pub mod History
pub mod Retrieval
pub mod AppendOnly
pub mod Resumption
pub mod Log
