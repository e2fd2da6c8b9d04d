-- ===== src/Core.antt =====
-- src/agentic_test/core: exceptions and effects, the domain models, the workflow state.
pub mod Effects
pub mod Models
pub mod State
pub mod Outside
pub mod Paths
pub mod Migration
pub mod Syntax
pub mod Json
pub mod Ensures
unfoldable pub use Effects.*
unfoldable pub use Models.*
unfoldable pub use State.*
pub use Outside.*
