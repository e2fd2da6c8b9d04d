-- ===== src/Core/Models.antt =====
-- core/models.py: the domain models. A `Path` is its POSIX text, a `datetime` the count of
-- microseconds of its UTC instant, and a `float` the count of its millionths.
use agentic_test_system.Prelude.{ℕ, String, ℤ, ◌≡◌, ◌↔◌, Bool, true, false, Option, List, Eq, arith}

abbrev pub FilePath : Type 0
FilePath = String

abbrev pub Timestamp : Type 0
Timestamp = ℕ

abbrev pub Decimal : Type 0
Decimal = ℕ

pub data ChangeType : Type 0 where
  added modified deleted : ChangeType

pub data SymbolType : Type 0 where
  function method class module_symbol : SymbolType

pub record DiffHunk : Type 0 where
  pub file_path : FilePath
  pub old_start : ℕ
  pub old_lines : ℕ
  pub new_start : ℕ
  pub new_lines : ℕ
  pub change_type : ChangeType
  pub content : String

pub record SymbolContract : Type 0 where
  pub qualified_name : String
  pub symbol_type : SymbolType
  pub file_path : FilePath
  pub line_range : ℕ × ℕ
  pub signature : String
  pub docstring : Option String
  pub dependencies : List String
  pub is_affected : Bool

pub record RepositorySnapshot : Type 0 where
  pub repo_path : FilePath
  pub current_commit : String
  pub base_commit : String
  pub branch_name : String
  pub tracked_files : List FilePath
  pub existing_test_files : List FilePath
  pub source_tree_hash : String
  pub is_valid : Bool
  pub created_at : Timestamp
  pub diff_hunks : List DiffHunk
  pub affected_symbols : List SymbolContract
  pub deleted_symbols : List SymbolContract
  pub syntax_errors : List String

pub data WorkflowRoute : Type 0 where
  route_no_op route_to_docker_execution route_to_test_generation : WorkflowRoute

-- `WorkflowRoute.value`.
unfoldable pub route_value : WorkflowRoute → String
route_value route_no_op = "ROUTE_NO_OP"
route_value route_to_docker_execution = "ROUTE_TO_DOCKER_EXECUTION"
route_value route_to_test_generation = "ROUTE_TO_TEST_GENERATION"

pub data ValidationStatus : Type 0 where
  pending passed rejected_syntax rejected_security rejected_collection quarantined :
      ValidationStatus

abbrev status_beq : ValidationStatus → ValidationStatus → Bool
status_beq pending pending = true
status_beq passed passed = true
status_beq rejected_syntax rejected_syntax = true
status_beq rejected_security rejected_security = true
status_beq rejected_collection rejected_collection = true
status_beq quarantined quarantined = true
status_beq _ _ = false

pub status_beq_iff : (a b : ValidationStatus) → (status_beq a b ≡ true) ↔ (a ≡ b)
status_beq_iff a b = ground arith

instance abbrev pub status_eq : Eq ValidationStatus
status_eq = record { compares = status_beq; compares_iff = status_beq_iff }

pub data FailureCategory : Type 0 where
  test_outdated application_bug invalid_generated_test environment_failure : FailureCategory
  configuration_error llm_failure unknown : FailureCategory

abbrev category_beq : FailureCategory → FailureCategory → Bool
category_beq test_outdated test_outdated = true
category_beq application_bug application_bug = true
category_beq invalid_generated_test invalid_generated_test = true
category_beq environment_failure environment_failure = true
category_beq configuration_error configuration_error = true
category_beq llm_failure llm_failure = true
category_beq unknown unknown = true
category_beq _ _ = false

pub category_beq_iff : (a b : FailureCategory) → (category_beq a b ≡ true) ↔ (a ≡ b)
category_beq_iff a b = ground arith

instance abbrev pub category_eq : Eq FailureCategory
category_eq = record { compares = category_beq; compares_iff = category_beq_iff }

pub data TriageEngine : Type 0 where
  deterministic_rule cognitive_llm : TriageEngine

pub record ExecutionPlan : Type 0 where
  pub plan_id : String
  pub route : WorkflowRoute
  pub target_symbols : List SymbolContract
  pub existing_tests_to_run : List FilePath
  pub rationale : String
  pub decision_hash : String
  pub created_at : Timestamp

pub record TestCandidate : Type 0 where
  pub candidate_id : String
  pub run_id : String
  pub target_symbol_name : String
  pub test_file_path : FilePath
  pub candidate_code : String
  pub imports : List String
  pub validation_status : ValidationStatus
  pub quarantine_reason : Option String
  pub retry_count : ℕ
  pub created_at : Timestamp

pub record ExecutionEvidence : Type 0 where
  pub evidence_id : String
  pub run_id : String
  pub candidate_id : Option String
  pub exit_code : ℤ
  pub stdout : String
  pub stderr : String
  pub duration_sec : Decimal
  pub timed_out : Bool
  pub line_coverage : Option Decimal
  pub branch_coverage : Option Decimal
  pub line_coverage_delta : Option ℤ
  pub branch_coverage_delta : Option ℤ
  pub traceback : Option String
  pub created_at : Timestamp

pub record FailureDiagnosis : Type 0 where
  pub diagnosis_id : String
  pub evidence_id : String
  pub canonical_category : FailureCategory
  pub confidence : Decimal
  pub triage_engine : TriageEngine
  pub explanation : String
  pub is_application_bug : Bool
  pub created_at : Timestamp
