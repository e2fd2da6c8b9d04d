-- ===== src/Workflow/Services.antt =====
-- The services that workflow/engine.py is given at its construction. A service may read and change
-- the world outside, and may raise; `none` stands for a service that was not given.
use agentic_test_system.Prelude.{String, Bool, Option, List}
use agentic_test_system.Core.{
  FilePath, Timestamp, RepositorySnapshot, ExecutionPlan, TestCandidate, ExecutionEvidence,
  FailureDiagnosis, ValidationStatus, Action,
}

-- validation/models.py
pub record ValidationResult : Type 0 where
  pub candidate_id : String
  pub status : ValidationStatus
  pub gate : String
  pub passed : Bool
  pub error_message : Option String
  pub diagnostics : List String
  pub created_at : Timestamp

module _ (World : Type 0) where
  -- The methods of the execution service that the nodes call.
  pub record ExecutionMethods : Type 0 where
    pub execute_regression_baseline : ExecutionPlan → Option String → Action World ExecutionEvidence
    pub execute_candidates :
        ExecutionPlan
        → List TestCandidate
        → Option ExecutionEvidence
        → Option String
        → Action World (List ExecutionEvidence)

  pub record Services : Type 0 where
    pub analysis_service : Option (FilePath → Action World RepositorySnapshot)
    pub planner : Option (RepositorySnapshot → Action World ExecutionPlan)
    pub generation_service : Option (ExecutionPlan → Action World (List TestCandidate))
    pub validation_pipeline :
        Option (List TestCandidate → Action World (List (TestCandidate × ValidationResult)))
    pub execution_service : Option ExecutionMethods
    -- the evidence, its candidate, the candidate's code and the target's name
    pub diagnosis_service : Option (
        ExecutionEvidence
        → Option TestCandidate
        → Option String
        → Option String
        → Action World FailureDiagnosis)
    -- GitService(repo_path).get_head_commit() and .get_branch_name()
    pub git_head : FilePath → Action World String
    pub git_branch : FilePath → Action World String
