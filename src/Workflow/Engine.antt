-- ===== src/Workflow/Engine.antt =====
-- workflow/engine.py: the engine that runs the nodes and writes down what they made.
pub mod Dispatch
pub mod Artifacts
pub mod Loop
pub mod Run
pub mod Progress
pub mod Tracking
pub mod Rounds
pub mod Completion
pub mod Lifecycle
