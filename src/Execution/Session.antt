-- ===== src/Execution/Session.antt =====
-- execution/service.py: the fields and local variables of the service, and what it is given.
use agentic_test_system.Prelude.{
  ℕ, String, ℤ, int_eq, Bool, true, false, Option, none, some, List, [], ◌∷◌, map, ◌<>◌, is_blank,
  has_prefix, string_eq, if◌then◌else◌,
}
use agentic_test_system.Core.{
  FilePath, Timestamp, Decimal, TestCandidate, ValidationStatus, ExecutionEvidence, Exn,
  source_integrity_error, Action,
}
use agentic_test_system.Execution.Runner.{TestRunSummary}
use agentic_test_system.Execution.Coverage.{Float, CoverageMetrics, invalid_metrics, CoverageTools}
use agentic_test_system.Execution.Outcomes.{OutcomeTools}
use agentic_test_system.Execution.Sources.{SourceTree}
use agentic_test_system.Execution.Settings.{CoverageSettings, Registry, same_settings}

-- The settings of the service.
pub record ExecutionConfig : Type 0 where
  pub source_root : FilePath
  pub timeout_sec : Decimal
  pub image_tag : String
  pub memory_limit : String
  pub cpu_quota : Decimal
  pub pids_limit : ℕ
  pub cov_source : String
  pub cov_branch : Bool
  pub environment_vars : List (String × String)
  pub keep_artifacts : Bool

-- core/protocols/sandbox.py
pub record SandboxConfig : Type 0 where
  pub image_tag : String
  pub timeout_sec : Decimal
  pub memory_limit : String
  pub cpu_quota : Decimal
  pub pids_limit : ℕ
  pub network_disabled : Bool
  pub read_only_mounts : List (FilePath × String)
  pub read_write_mounts : List (FilePath × String)
  pub environment_vars : List (String × String)

pub record ExecutionRawResult : Type 0 where
  pub exit_code : ℤ
  pub stdout : String
  pub stderr : String
  pub duration_sec : Decimal
  pub timed_out : Bool
  pub oom_killed : Bool

-- The metrics where there is no report.
abbrev pub missing_report : FilePath → CoverageMetrics
missing_report path = invalid_metrics ("Coverage report file '" <> path <> "' not found.")

-- The sandbox, the staging area, what the runner takes from `re`, the coverage reader, files, identifiers, the clock, and
-- the rounding of a difference to four places.
pub record ExecutionTools (World : Type 0) : Type 0 where
  -- the tree at the source root
  pub walk : Action World SourceTree
  pub digest : String → String
  pub uuid4_hex8 : World → String × World
  pub uuid4_hex12 : World → String × World
  pub now : World → Timestamp × World
  -- the directory of a staging area, and of the scratch output, by the suffix of the session
  pub open_staging : String → Action World FilePath
  pub stage_candidates : FilePath → List TestCandidate → Action World (Unit {0})
  pub make_scratch : String → Action World FilePath
  pub create_environment : SandboxConfig → Action World String
  pub execute_command : String → List String → String → Action World ExecutionRawResult
  pub cleanup : String → Action World (Unit {0})
  pub texts : OutcomeTools
  pub is_file : FilePath → World → Bool × World
  pub read_text : FilePath → Action World String
  pub reports : CoverageTools
  -- the removal of the staging and scratch directories, whose errors are swallowed
  pub teardown : Option FilePath → Option FilePath → World → World
  pub round4 : ℤ → ℤ
  -- `str` of a float
  pub shown_float : Float → String
  -- a status in an f-string
  pub shown_status : ValidationStatus → String

-- The service's fields that change, and the local variables of `execute` that its handlers read.
pub record Session (World : Type 0) : Type 0 where
  pub world : World
  pub evidence_settings : Registry
  pub last_summary : Option TestRunSummary
  pub last_coverage : Option CoverageMetrics
  pub last_evidence : Option ExecutionEvidence
  pub staging_dir : Option FilePath
  pub scratch_dir : Option FilePath
  pub integrity_verified : Bool

-- `isinstance(err, SourceIntegrityError)`
abbrev pub is_integrity_error : Exn → Bool
is_integrity_error (source_integrity_error m) = true
is_integrity_error _ = false

-- What one container gives: the raw result, its summary, and the coverage.
abbrev pub Observation : Type 0
Observation = ExecutionRawResult × TestRunSummary × CoverageMetrics

-- `run_id or (candidates[0].run_id if candidates else None) or plan.plan_id`
abbrev pub first_run : List TestCandidate → String → String
first_run [] plan_id = plan_id
first_run (c ∷ cs) plan_id = if is_blank c.run_id then plan_id else c.run_id

unfoldable pub session_run : Option String → List TestCandidate → String → String
session_run none cs plan_id = first_run cs plan_id
session_run (some run) cs plan_id = if is_blank run then first_run cs plan_id else run

unfoldable pub session_candidate : Option String → List TestCandidate → Option String
session_candidate (some k) cs = some k
session_candidate none [] = none
session_candidate none (c ∷ cs) = some c.candidate_id

abbrev pub container_path : FilePath → String
container_path f = if has_prefix f "/" then f else "/workspace/src/" <> f

unfoldable pub tests_paths : List TestCandidate → List FilePath → List String
tests_paths [] existing = map container_path existing
tests_paths (c ∷ cs) existing = "/workspace/tests" ∷ map container_path existing

abbrev pub when_branch : Bool → Option Decimal → Option Decimal
when_branch true c = c
when_branch false c = none

abbrev pub same_as : Option CoverageSettings → CoverageSettings → Bool
same_as none s = false
same_as (some b) s = same_settings b s
