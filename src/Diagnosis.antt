-- ===== src/Diagnosis.antt =====
-- src/agentic_test/diagnosis: the triage of failures by rules and, behind them, by the model.
pub mod Rules
pub mod Cognitive
pub mod Service
pub mod Triage
