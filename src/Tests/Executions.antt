-- ===== src/Tests/Executions.antt =====
-- Executions in a sandbox whose one container exits with 0, and in one whose command fails.
use agentic_test_system.Prelude.{
  String, ℕ, suc, ap, ◌≡◌, refl, pos, length, ◌≤◌, true, false, none, some, List, [], ◌∷◌, all, map,
  ◌<>◌, sort_by, arith,
}
use agentic_test_system.Core.{
  TestCandidate, ExecutionEvidence, Exn, Result, ok, err, pure, pending, sandbox_error,
}
use agentic_test_system.Core.Json.{Json, Fields, json_object, json_int, field, no_fields}
use agentic_test_system.Workflow.Edges.{is_passed}
use agentic_test_system.Execution.Sources.{SourceTree, directory, compute_tree_hash}
use agentic_test_system.Execution.Session.{tests_paths, ExecutionConfig, ExecutionTools, Session}
use agentic_test_system.Execution.Execute.{observe, checked_after, deltas}
use agentic_test_system.Execution.Service.{execute}
use agentic_test_system.Execution.Batches.{execute_candidates}
use agentic_test_system.Execution.Integrity.{IsSource, hash_at, execute-hash}
use agentic_test_system.Execution.Containers.{without, IsRoll, execute-left}
use agentic_test_system.Execution.Bounds.{execute-length}
use agentic_test_system.Execution.Candidates.{
  ids_of, execute_candidates-candidate_ids, execute_candidates-untouched,
}
use agentic_test_system.Tests.Data.{tally, calc_plan, add_candidate}

abbrev calc_sources : SourceTree
calc_sources = directory (("calc.py", some "def add(a, b): return a + b") ∷ [])

-- Two files, of which 3 in 4 and 1 in 2 statements are covered.
abbrev calc_summary : ℕ → ℕ → Fields
calc_summary covered statements =
    field "summary"
      (json_object (
        field "num_statements" (json_int statements)
          (field "covered_lines" (json_int covered) no_fields)))
      no_fields

abbrev calc_fields : Fields
calc_fields =
    field "files"
      (json_object (
        field "calc.py" (json_object (calc_summary 3 4))
          (field "more.py" (json_object (calc_summary 1 2)) no_fields)))
      no_fields

abbrev calc_report : Json
calc_report = json_object calc_fields

-- The world counts the identifiers and looks at the clock.
abbrev pub quiet : ExecutionTools ℕ
quiet = record {
  walk = λ w. (ok calc_sources, w);
  digest = λ t. t;
  uuid4_hex8 = λ w. (tally w, suc w);
  uuid4_hex12 = λ w. (tally w, suc w);
  now = λ w. (w, suc w);
  open_staging = λ suffix. pure ("/tmp/staging_" <> suffix);
  stage_candidates = λ d cs. pure tt;
  make_scratch = λ suffix. pure ("/tmp/scratch_" <> suffix);
  create_environment = λ sandbox. pure "container";
  execute_command = λ container cmd workdir. pure (record {
    exit_code = pos 0;
    stdout = "1 passed";
    stderr = "";
    duration_sec = 1_000_000;
    timed_out = false;
    oom_killed = false;
  });
  cleanup = λ container. pure tt;
  texts = record { search = λ p t. none; lower = λ t. t; float = λ t. none };
  is_file = λ path w. (true, w);
  read_text = λ report. pure "{…}";
  reports = record {
    json_loads = λ text. ok calc_report;
    int_text = λ text. none;
    float_text = λ text. none;
  };
  teardown = λ d d' w. w;
  round4 = λ d. d;
  shown_float = λ x. "";
  shown_status = λ s. "";
}

abbrev pub calc_config : ExecutionConfig
calc_config = record {
  source_root = "/repo";
  timeout_sec = 30_000_000;
  image_tag = "sandbox";
  memory_limit = "512m";
  cpu_quota = 1_000_000;
  pids_limit = 64;
  cov_source = "calc";
  cov_branch = false;
  environment_vars = [];
  keep_artifacts = false;
}

abbrev pub idle : Session ℕ
idle = record {
  world = 0;
  evidence_settings = [];
  last_summary = none;
  last_coverage = none;
  last_evidence = none;
  staging_dir = none;
  scratch_dir = none;
  integrity_verified = false;
}

abbrev unchecked_candidate : TestCandidate
unchecked_candidate = record add_candidate {
  candidate_id = "unchecked";
  validation_status = pending;
}

quiet-IsSource : IsSource quiet (λ w. calc_sources)
quiet-IsSource = record {
  reads = λ w t h. cc;
  walk_keeps = λ w. refl;
  names_keep = λ w. refl;
  clock_keeps = λ w. refl;
  teardown_keeps = λ d d' w. refl;
}

execute-hash_example :
    hash_at quiet
      (λ w. calc_sources)
      (execute quiet calc_config calc_plan (add_candidate ∷ []) none none none true idle).1.world
    ≡ hash_at quiet (λ w. calc_sources) idle.world
unfolding execute checked_after compute_tree_hash sort_by observe deltas tests_paths
execute-hash_example =
    execute-hash quiet calc_config (λ w. calc_sources) quiet-IsSource calc_plan (add_candidate ∷ [])
      none none none true idle refl

execute-length_example :
    length
      (execute quiet calc_config calc_plan
        (add_candidate ∷ [])
        none
        none
        none
        true
        idle).1.evidence_settings
    ≤ 50
execute-length_example =
    execute-length quiet calc_config calc_plan (add_candidate ∷ []) none none none true idle
      (omega arith)

abbrev evidences_of : Result (List ExecutionEvidence) → List ExecutionEvidence
evidences_of (ok es) = es
evidences_of (err e) = []

abbrev executed : Result (List ExecutionEvidence) × Session ℕ
executed =
    execute_candidates quiet calc_config calc_plan (add_candidate ∷ add_candidate ∷ []) none none
      true idle

execute_candidates-candidate_ids_example :
    (all is_passed (add_candidate ∷ add_candidate ∷ []) ≡ true)
    × (map (λ e. e.candidate_id) (evidences_of executed.0)
        ≡ ids_of quiet calc_config (add_candidate ∷ add_candidate ∷ []))
unfolding execute_candidates checked_after compute_tree_hash sort_by observe deltas tests_paths
execute_candidates-candidate_ids_example =
    execute_candidates-candidate_ids quiet calc_config calc_plan
      (add_candidate ∷ add_candidate ∷ []) none none true idle executed.1 (evidences_of executed.0)
      refl

execute_candidates-untouched_example :
    (e : Exn) × (execute_candidates quiet calc_config calc_plan
        (add_candidate ∷ unchecked_candidate ∷ [])
        none
        none
        true
        idle
      ≡ (err e, idle))
execute_candidates-untouched_example =
    execute_candidates-untouched quiet calc_config calc_plan
      (add_candidate ∷ unchecked_candidate ∷ []) none none true idle refl

-- ---- Containers ----
-- The world lists the containers, and the command fails.
abbrev killing : ExecutionTools (List String)
killing = record {
  walk = λ w. (ok calc_sources, w);
  digest = λ t. t;
  uuid4_hex8 = λ w. ("", w);
  uuid4_hex12 = λ w. ("", w);
  now = λ w. (0, w);
  open_staging = λ suffix. pure ("/tmp/staging_" <> suffix);
  stage_candidates = λ d cs. pure tt;
  make_scratch = λ suffix. pure ("/tmp/scratch_" <> suffix);
  create_environment = λ sandbox w. (ok "container", "container" ∷ w);
  execute_command = λ container cmd workdir w. (err (sandbox_error "killed"), w);
  cleanup = λ container w. (ok tt, without container w);
  texts = quiet.texts;
  is_file = λ path w. (true, w);
  read_text = λ report. pure "{…}";
  reports = quiet.reports;
  teardown = λ d d' w. w;
  round4 = λ d. d;
  shown_float = λ x. "";
  shown_status = λ s. "";
}

abbrev occupied : Session (List String)
occupied = record {
  world = "another" ∷ [];
  evidence_settings = [];
  last_summary = none;
  last_coverage = none;
  last_evidence = none;
  staging_dir = none;
  scratch_dir = none;
  integrity_verified = false;
}

killing-IsRoll : IsRoll killing (λ w. w)
killing-IsRoll = record {
  created = λ s k w h. ap (λ x. x ∷ w) cc;
  refused = λ s e w h. absurd cc;
  cleaned = λ k w. refl;
  command_keeps = λ k cmd d w. refl;
  walk_keeps = λ w. refl;
  suffix_keeps = λ w. refl;
  names_keep = λ w. refl;
  clock_keeps = λ w. refl;
  open_keeps = λ s w. refl;
  stage_keeps = λ d cs w. refl;
  scratch_keeps = λ s w. refl;
  look_keeps = λ d w. refl;
  report_keeps = λ d w. refl;
  teardown_keeps = λ d d' w. refl;
}

execute-left_example :
    (execute killing calc_config calc_plan
      (add_candidate ∷ [])
      none
      none
      none
      true
      occupied).1.world
    ≡ "another" ∷ []
execute-left_example =
    execute-left killing calc_config (λ w. w) killing-IsRoll calc_plan (add_candidate ∷ []) none
      none none true occupied
