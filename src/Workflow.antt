-- ===== src/Workflow.antt =====
-- src/agentic_test/workflow: the routers, the nodes, the engine and the recovery from checkpoints.
pub mod Edges
pub mod Services
pub mod Nodes
pub mod Machine
pub mod Engine
pub mod Recovery
