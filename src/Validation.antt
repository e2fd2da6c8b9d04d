-- ===== src/Validation.antt =====
-- src/agentic_test/validation: the pipeline of gates.
pub mod Pipeline
pub mod Gates
pub mod Security
pub mod Syntax
pub mod Allowed
pub mod Forbidden
pub mod Collection
pub mod Collected
pub mod Screening
