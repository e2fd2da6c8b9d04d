-- ===== src/Tests/Data.antt =====
-- A world that counts what was asked of it, services that answer the same at all times, and the
-- object of a run whose one generated test fails.
use agentic_test_system.Prelude.{ℕ, zero, suc, String, pos, true, false, none, some, [], ◌∷◌, ◌<>◌}
use agentic_test_system.Core.{
  RepositorySnapshot, ExecutionPlan, TestCandidate, ExecutionEvidence, FailureDiagnosis,
  SymbolContract, function, route_to_test_generation, passed, application_bug, cognitive_llm,
  WorkflowState, Platform, ok, pure,
}
use agentic_test_system.Storage.Database.{empty_database}
use agentic_test_system.Workflow.Services.{ValidationResult, Services}
use agentic_test_system.Workflow.Machine.{Machine}

abbrev pub tally : ℕ → String
tally zero = ""
tally (suc n) = "|" <> tally n

abbrev pub first_state : WorkflowState
first_state = record {
  run_id = "run";
  repo_path = "/repo";
  created_at = 0;
  snapshot = none;
  plan = none;
  candidates = [];
  generation_retry_count = 0;
  max_generation_retries = 3;
  baseline_evidence = none;
  evidences = [];
  diagnoses = [];
  final_status = "INITIALIZED";
  error_message = none;
}

abbrev pub counting : Platform
counting = record {
  World = ℕ;
  now = λ w. (w, suc w);
  uuid4 = λ w. (tally w, suc w);
  model_dump_json = λ s. s.final_status;
  model_validate_json = λ t. ok (record first_state { final_status = t });
}

abbrev pub add_symbol : SymbolContract
add_symbol = record {
  qualified_name = "calc.add";
  symbol_type = function;
  file_path = "calc.py";
  line_range = (1, 2);
  signature = "def add(a, b)";
  docstring = none;
  dependencies = [];
  is_affected = true;
}

abbrev pub calc_snapshot : RepositorySnapshot
calc_snapshot = record {
  repo_path = "/repo";
  current_commit = "c1";
  base_commit = "c0";
  branch_name = "main";
  tracked_files = "calc.py" ∷ [];
  existing_test_files = [];
  source_tree_hash = "h";
  is_valid = true;
  created_at = 0;
  diff_hunks = [];
  affected_symbols = add_symbol ∷ [];
  deleted_symbols = [];
  syntax_errors = [];
}

abbrev pub calc_plan : ExecutionPlan
calc_plan = record {
  plan_id = "plan";
  route = route_to_test_generation;
  target_symbols = add_symbol ∷ [];
  existing_tests_to_run = [];
  rationale = "";
  decision_hash = "";
  created_at = 0;
}

abbrev pub add_candidate : TestCandidate
add_candidate = record {
  candidate_id = "cand";
  run_id = "run";
  target_symbol_name = "calc.add";
  test_file_path = "tests/test_calc.py";
  candidate_code = "def test_add(): assert add(1, 1) == 3";
  imports = [];
  validation_status = passed;
  quarantine_reason = none;
  retry_count = 0;
  created_at = 0;
}

abbrev pub add_validation : ValidationResult
add_validation = record {
  candidate_id = "cand";
  status = passed;
  gate = "collection";
  passed = true;
  error_message = none;
  diagnostics = [];
  created_at = 0;
}

abbrev pub add_evidence : ExecutionEvidence
add_evidence = record {
  evidence_id = "ev";
  run_id = "run";
  candidate_id = some "cand";
  exit_code = pos 1;
  stdout = "";
  stderr = "";
  duration_sec = 0;
  timed_out = false;
  line_coverage = none;
  branch_coverage = none;
  line_coverage_delta = none;
  branch_coverage_delta = none;
  traceback = none;
  created_at = 0;
}

abbrev pub add_diagnosis : FailureDiagnosis
add_diagnosis = record {
  diagnosis_id = "diag";
  evidence_id = "ev";
  canonical_category = application_bug;
  confidence = 900_000;
  triage_engine = cognitive_llm;
  explanation = "";
  is_application_bug = true;
  created_at = 0;
}

abbrev pub steady : Services ℕ
steady = record {
  analysis_service = some (λ path. pure calc_snapshot);
  planner = some (λ snapshot. pure calc_plan);
  generation_service = some (λ plan. pure (add_candidate ∷ []));
  validation_pipeline = some (λ cs. pure ((add_candidate, add_validation) ∷ []));
  execution_service = some (record {
    execute_regression_baseline = λ plan run. pure add_evidence;
    execute_candidates = λ plan cs base run. pure (add_evidence ∷ []);
  });
  diagnosis_service = some (λ e c code target. pure add_diagnosis);
  git_head = λ path. pure "c1";
  git_branch = λ path. pure "main";
}

-- The same without a planner, so that the second node raises.
abbrev pub unplanned : Services ℕ
unplanned = record steady { planner = none }

abbrev pub first_machine : Machine counting
first_machine = record {
  db = empty_database;
  current_run = none;
  world = 0;
  state = first_state;
  current_node = none;
  step_index = 0;
  executed_nodes = [];
}
