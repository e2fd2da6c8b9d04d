-- ===== src/Core/Outside.antt =====
-- What the components take from outside the repository: the clock, the source of identifiers, and
-- the text form of a workflow state (pydantic's `model_dump_json` and `model_validate_json`).
use agentic_test_system.Prelude.{String}
use agentic_test_system.Core.Effects.{Result}
use agentic_test_system.Core.Models.{Timestamp}
use agentic_test_system.Core.State.{WorkflowState}

-- `World` is the state of everything outside: the clock, files, models and containers.
pub record Platform : Type 1 where
  pub World : Type 0
  -- datetime.now(timezone.utc)
  pub now : World → Timestamp × World
  -- str(uuid.uuid4())
  pub uuid4 : World → String × World
  pub model_dump_json : WorkflowState → String
  pub model_validate_json : String → Result WorkflowState
