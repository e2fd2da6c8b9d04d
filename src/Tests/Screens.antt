-- ===== src/Tests/Screens.antt =====
-- A candidate that the default pipeline lets pass, and the staging of candidates.
use agentic_test_system.Prelude.{
  ℕ, suc, String, ◌≡◌, refl, pos, true, false, none, some, List, [], ◌∷◌, ◌<>◌,
}
use agentic_test_system.Core.{
  Timestamp, TestCandidate, pending, passed, Result, ok, err, Action, pure,
}
use agentic_test_system.Core.Syntax.{
  Node, Parsed, tree, call_node, name_node, attribute_node, text_constant, other_node, no_nodes,
  more_nodes, no_keywords,
}
use agentic_test_system.Validation.Pipeline.{Screened, validate_candidate}
use agentic_test_system.Validation.Security.{build_source, security_gate}
use agentic_test_system.Validation.Syntax.{syntax_gate}
use agentic_test_system.Validation.Allowed.{is_allowed, Throughout}
use agentic_test_system.Validation.Collection.{CollectionConfig, CollectionTools, collection_gate}
use agentic_test_system.Validation.Collected.{WasCollected}
use agentic_test_system.Validation.Screening.{accepted-collected}
use agentic_test_system.Execution.Staging.{
  StagingFiles, StagingArea, stage_candidate, stage_candidates, get_staged_path,
}
use agentic_test_system.Execution.Confinement.{IsConfined, AllConfined, stage_candidate-IsConfined}
use agentic_test_system.Execution.Runner.{construct_command_for_paths}
use agentic_test_system.Execution.Commands.{IsCommand, construct_command_for_paths-IsCommand}
use agentic_test_system.Tests.Data.{tally, add_candidate, add_validation}

-- The world counts what was asked of it.
abbrev plain_files : StagingFiles ℕ
plain_files = record {
  resolve = λ path. path;
  is_symlink = λ path. false;
  make_directory = λ path w. (ok tt, suc w);
  write_text = λ path text w. (ok tt, suc w);
  exists = λ path w. (false, w);
  has_entries = λ path. pure false;
  remove_tree = λ path w. suc w;
  home = some "/home/user";
}

abbrev pub collecting : CollectionTools ℕ
collecting = record {
  files = plain_files;
  uuid4_hex8 = λ w. (tally w, suc w);
  session_directory = λ suffix. pure ("/tmp/coll_" <> suffix);
  source_exists = λ root w. (true, w);
  create_environment = λ sandbox. pure "container";
  execute_command = λ container cmd workdir. pure (record {
    exit_code = pos 0;
    stdout = "tests/test_calc.py::test_add";
    stderr = "";
    duration_sec = 1_000_000;
    timed_out = false;
    oom_killed = false;
  });
  cleanup_container = λ container. pure tt;
  remove_directory = λ path w. suc w;
  search = λ ignores_case pattern_text text. none;
  clock = λ w. (w, suc w);
  shown_float = tally;
}

abbrev pub collection_config : CollectionConfig
collection_config = record {
  source_root = some "/repo";
  timeout_sec = 30_000_000;
  image_tag = "sandbox";
  memory_limit = "512m";
  cpu_quota = 1_000_000;
  pids_limit = 64;
  environment_vars = [];
  keep_artifacts = false;
}

-- `assert add(1, 1) == 2`, and `path.open("w")`.
abbrev pub add_tree : Node
add_tree = other_node (more_nodes (call_node (name_node "add") no_nodes no_keywords 1) no_nodes)

abbrev path_open_tree : Node
path_open_tree =
    call_node (attribute_node (name_node "path") "open") (more_nodes (text_constant "w") no_nodes)
      no_keywords 1

abbrev parses_to : Node → String → Parsed
parses_to n source = tree n

abbrev pub ticking : Action ℕ Timestamp
ticking w = (ok w, suc w)

abbrev new_candidate : TestCandidate
new_candidate = record add_candidate { validation_status = pending }

abbrev screening : Result Screened × ℕ
screening =
    validate_candidate ticking
      (syntax_gate (parses_to add_tree) ticking ∷ security_gate (parses_to add_tree) ticking ∷ [])
      (some (collection_gate collecting collection_config)) new_candidate 0

abbrev screened_of : Result Screened → Screened
screened_of (ok s) = s
screened_of (err e) = (new_candidate, add_validation)

accepted-collected_example :
    (n : Node) × (parses_to add_tree (build_source new_candidate) ≡ tree n)
    × Throughout is_allowed n
    × WasCollected collecting collection_config new_candidate
unfolding validate_candidate syntax_gate security_gate collection_gate
accepted-collected_example =
    accepted-collected (parses_to add_tree) ticking collecting collection_config new_candidate 0
      screening.1 (screened_of screening.0) refl refl

-- The mode of a method `open` is looked for behind the first argument, where there is none.
path_open_passes :
    let verdict = security_gate (parses_to path_open_tree) ticking new_candidate 0 in
    verdict.0
    ≡ ok (record {
      candidate_id = "cand";
      status = passed;
      gate = "GATE_2_SECURITY";
      passed = true;
      error_message = none;
      diagnostics = [];
      created_at = 0;
    })
unfolding security_gate
path_open_passes = refl

abbrev empty_area : StagingArea ℕ
empty_area = record { world = 0; candidate_to_path = []; path_to_candidate = [] }

abbrev path_of : Result String → String
path_of (ok path) = path
path_of (err e) = ""

abbrev add_path : String
add_path = "/tmp/staging/tests/test_calc.py"

abbrev staged_area : StagingArea ℕ
staged_area = (stage_candidate plain_files "/tmp/staging" add_candidate empty_area).1

stage_candidate-IsConfined_example :
    (passed ≡ passed)
    × IsConfined plain_files "/tmp/staging" add_path
    × (get_staged_path plain_files "/tmp/staging" "cand" staged_area ≡ some add_path)
    × AllConfined plain_files "/tmp/staging" staged_area
unfolding stage_candidate
stage_candidate-IsConfined_example =
    stage_candidate-IsConfined plain_files "/tmp/staging" add_candidate empty_area staged_area
      add_path (λ path. refl) (record { confined = λ k path h. absurd cc }) refl

-- Three candidates, the third of which asks for the path of the first and is given, by its name,
-- that of the second: the second path is written twice.
abbrev named : String → String → TestCandidate
named k path = record add_candidate { candidate_id = k; test_file_path = path }

abbrev shared_area : StagingArea ℕ
shared_area =
    (stage_candidates plain_files "/tmp/staging"
      (named "a" "test_calc.py" ∷ named "b" "test_calc_c.py" ∷ named "c" "test_calc.py" ∷ [])
      empty_area).1

shared_path :
    get_staged_path plain_files "/tmp/staging" "b" shared_area
    ≡ get_staged_path plain_files "/tmp/staging" "c" shared_area
unfolding stage_candidates get_staged_path
shared_path = refl

abbrev two_paths : List String
two_paths = "/workspace/tests" ∷ "\\workspace\\tests" ∷ " /workspace/src/tests/test_calc.py " ∷ []

abbrev tokens_of : Result (List String) → List String
tokens_of (ok tokens) = tokens
tokens_of (err e) = []

construct_command_for_paths-IsCommand_example :
    IsCommand two_paths (tokens_of (construct_command_for_paths two_paths "calc" none true))
unfolding construct_command_for_paths
construct_command_for_paths-IsCommand_example =
    construct_command_for_paths-IsCommand two_paths "calc" none true
      (tokens_of (construct_command_for_paths two_paths "calc" none true)) refl
