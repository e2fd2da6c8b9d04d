-- ===== src/Core/State.antt =====
-- core/state.py: the state of a workflow run, and the migration of the legacy field `evidence`.
use agentic_test_system.Prelude.{ℕ, String, Option, none, some, List, [], ◌∷◌}
use agentic_test_system.Core.Effects.{value_error, Result, ok, err}
use agentic_test_system.Core.Models.{
  FilePath, Timestamp, RepositorySnapshot, ExecutionPlan, TestCandidate, ExecutionEvidence,
  FailureDiagnosis,
}

pub record WorkflowState : Type 0 where
  pub run_id : String
  pub repo_path : FilePath
  pub created_at : Timestamp
  pub snapshot : Option RepositorySnapshot
  pub plan : Option ExecutionPlan
  pub candidates : List TestCandidate
  pub generation_retry_count : ℕ
  pub max_generation_retries : ℕ
  pub baseline_evidence : Option ExecutionEvidence
  pub evidences : List ExecutionEvidence
  pub diagnoses : List FailureDiagnosis
  pub final_status : String
  pub error_message : Option String

abbrev pub first_of : List ExecutionEvidence → Option ExecutionEvidence
first_of [] = none
first_of (e ∷ es) = some e

-- The property `evidence`: the first candidate evidence.
unfoldable pub evidence : WorkflowState → Option ExecutionEvidence
evidence s = first_of s.evidences

-- What the key `evidence` of the input may hold, when it is present.
pub data LegacyValue (A : Type 0) : Type 0 where
  null : LegacyValue A
  single : A → LegacyValue A
  sequence : List A → LegacyValue A

abbrev pub legacy_items : {A : Type 0} → LegacyValue A → List A
legacy_items null = []
legacy_items (single a) = a ∷ []
legacy_items (sequence xs) = xs

-- `_migrate_legacy_evidence` on the keys `evidence` and `evidences` of the input (`none`: absent).
-- The result is the key `evidences`; the key `evidence` is gone.
unfoldable pub migrate_legacy_evidence :
    {A : Type 0} → Option (LegacyValue A) → Option (List A) → Result (Option (List A))
migrate_legacy_evidence none evidences = ok evidences
migrate_legacy_evidence (some null) none = ok (some [])
migrate_legacy_evidence (some null) (some xs) = ok (some xs)
migrate_legacy_evidence (some v) (some (x ∷ xs)) = err (
    value_error
      "Cannot specify both legacy 'evidence' and canonical 'evidences' with conflicting data. Use canonical 'evidences' only.")
migrate_legacy_evidence (some v) _ = ok (some (legacy_items v))
