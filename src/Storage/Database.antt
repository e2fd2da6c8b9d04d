-- ===== src/Storage/Database.antt =====
-- storage/database.py: the six tables of the schema, with the columns of each.
use agentic_test_system.Prelude.{ℕ, String, ℤ, Bool, Option, List, []}
use agentic_test_system.Core.{
  FilePath, Timestamp, Decimal, ValidationStatus, FailureCategory, TriageEngine,
}

-- A row of `runs`, and `RunRecord` of storage/repository.py, which maps to it one to one.
pub record RunRecord : Type 0 where
  pub run_id : String
  pub repo_path : FilePath
  pub current_commit : String
  pub base_commit : String
  pub branch_name : String
  pub route_selected : Option String
  pub started_at : Timestamp
  pub completed_at : Option Timestamp
  pub final_status : String
  pub error_message : Option String

pub record CheckpointRow : Type 0 where
  pub checkpoint_id : String
  pub run_id : String
  pub step_index : ℕ
  pub node_name : String
  pub state_payload : String
  pub created_at : Timestamp

-- The values that the payloads of the events hold.
pub data PayloadValue : Type 0 where
  text : String → PayloadValue
  number : ℕ → PayloadValue

abbrev pub Payload : Type 0
Payload = List (String × PayloadValue)

-- An aware `datetime` as `isoformat` writes it: the microseconds of its own date and time of day, and
-- the text of its offset from UTC.
pub record Moment : Type 0 where
  pub wall : Timestamp
  pub offset : String

-- A time of `datetime.now(timezone.utc)`.
abbrev pub in_utc : Timestamp → Moment
in_utc t = record { wall = t; offset = "+00:00" }

-- A row of `events`, and `EventRecord` of storage/events.py.
pub record EventRecord : Type 0 where
  pub event_id : String
  pub run_id : String
  pub event_type : String
  pub node_name : Option String
  pub payload : Payload
  pub emitted_at : Moment

pub record CandidateRow : Type 0 where
  pub candidate_id : String
  pub run_id : String
  pub target_symbol : String
  pub test_file_path : FilePath
  pub candidate_code : String
  pub validation_status : ValidationStatus
  pub quarantine_reason : Option String
  pub retry_count : ℕ
  pub created_at : Timestamp

pub record EvidenceRow : Type 0 where
  pub evidence_id : String
  pub run_id : String
  pub candidate_id : Option String
  pub exit_code : ℤ
  pub stdout : String
  pub stderr : String
  pub duration_sec : Decimal
  pub timed_out : Bool
  pub line_coverage : Option Decimal
  pub branch_coverage : Option Decimal
  pub line_coverage_delta : Option ℤ
  pub branch_coverage_delta : Option ℤ
  pub traceback : Option String
  pub created_at : Timestamp

pub record DiagnosisRow : Type 0 where
  pub diagnosis_id : String
  pub run_id : String
  pub evidence_id : String
  pub canonical_category : FailureCategory
  pub confidence : Decimal
  pub triage_engine : TriageEngine
  pub explanation : String
  pub is_application_bug : Bool
  pub created_at : Timestamp

pub record Database : Type 0 where
  pub runs : List RunRecord
  pub checkpoints : List CheckpointRow
  pub events : List EventRecord
  pub test_candidates : List CandidateRow
  pub execution_evidence : List EvidenceRow
  pub failure_diagnoses : List DiagnosisRow

-- `init_db` on an empty file.
abbrev pub empty_database : Database
empty_database = record {
  runs = [];
  checkpoints = [];
  events = [];
  test_candidates = [];
  execution_evidence = [];
  failure_diagnoses = [];
}
