-- ===== src/Generation.antt =====
-- src/agentic_test/generation: the context of a prompt, and the synthesis of tests with bounded
-- repairs.
pub mod Context
pub mod Budget
pub mod Synthesis
pub mod Repairs
pub mod Packaging
pub mod Calls
pub mod Success
