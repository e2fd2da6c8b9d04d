-- ===== src/Validation/Collection.antt =====
-- validation/collection.py: the gate that collects a candidate's tests in a container.
use agentic_test_system.Prelude.{
  ℕ, zero, suc, ◌+◌, String, ℤ, pos, int_eq, Bool, true, false, ◌&&◌, ◌||◌, not, Option, none, some,
  List, [], ◌∷◌, map, ◌<>◌, ◌==◌, string_eq, nat_eq, strip, is_blank, is_empty, is_space, filter,
  length, has_text, has_prefix, split_lines, shown, shown_int, min, if◌then◌else◌,
}
use agentic_test_system.Core.{
  FilePath, Timestamp, Decimal, TestCandidate, ValidationStatus, passed, rejected_syntax,
  rejected_security, rejected_collection, quarantined, status_eq, staging_validation_error, str,
  Result, ok, err, Action, lift, ◌>>=◌, ◌>>◌,
}
use agentic_test_system.Workflow.Services.{ValidationResult}
use agentic_test_system.Validation.Pipeline.{Gate}
use agentic_test_system.Execution.Session.{SandboxConfig, ExecutionRawResult}
use agentic_test_system.Execution.Outcomes.{int_from}
use agentic_test_system.Execution.Runner.{construct_collection_command}
use agentic_test_system.Execution.Staging.{
  StagingFiles, StagingArea, lookup, assign, tests_dir, open_area, stage_candidate_for_collection,
  cleanup, status_value,
}

-- The settings of the validator.
pub record CollectionConfig : Type 0 where
  pub source_root : Option FilePath
  pub timeout_sec : Decimal
  pub image_tag : String
  pub memory_limit : String
  pub cpu_quota : Decimal
  pub pids_limit : ℕ
  pub environment_vars : List (String × String)
  pub keep_artifacts : Bool

-- `min(float(timeout_sec), 10.0)`
abbrev pub bounded_timeout : Decimal → Decimal
bounded_timeout t = min t 10_000_000

-- The sandbox, the staging area's files, `re`, identifiers, the clock and the rest of what the gate
-- takes from outside. `search` is told whether it ignores the case, and gives the first group of a
-- match, or the whole match where the pattern has no group.
pub record CollectionTools (World : Type 0) : Type 0 where
  pub files : StagingFiles World
  pub uuid4_hex8 : World → String × World
  -- the directory of the session, by its suffix
  pub session_directory : String → Action World FilePath
  pub source_exists : FilePath → World → Bool × World
  pub create_environment : SandboxConfig → Action World String
  pub execute_command : String → List String → String → Action World ExecutionRawResult
  pub cleanup_container : String → Action World (Unit {0})
  pub remove_directory : FilePath → World → World
  pub search : Bool → String → String → Option String
  pub clock : World → Timestamp × World
  pub shown_float : Decimal → String

-- The local variables that the handlers read, and the world outside.
pub record CollectionLocals (World : Type 0) : Type 0 where
  pub world : World
  pub staging_area : Option FilePath
  pub container_id : Option String

-- ---- What the output says ----

-- `line.split()[0]` of a line that starts with no whitespace.
unfoldable pub first_word : String → String
first_word String.[] = String.[]
first_word (String.◌∷◌ c s) =
    let rest = first_word s in if is_space c then String.[] else String.◌∷◌ c rest

abbrev pub is_item_line : String → Bool
is_item_line line =
    has_text line "::"
    && not (has_prefix line "ERROR" || has_prefix line "FAILED" || has_prefix line "WARNING")
    && has_text (first_word line) "::"

-- The tokens of the lines that name an item.
unfoldable pub listed_items : List String → List String
unfolding strip first_word has_text has_prefix
listed_items lines = map first_word (filter is_item_line (map strip lines))

-- `[f"collected_item_{i+1}" for i in range(count)]`, from an index on.
abbrev pub numbered_items : ℕ → ℕ → List String
numbered_items i zero = []
numbered_items i (suc n) = ("collected_item_" <> shown (i + 1)) ∷ numbered_items (i + 1) n

abbrev or_else_search : Option String → Option String → Option String
or_else_search (some found) next = some found
or_else_search none next = next

abbrev items_of_count : Option String → List String
items_of_count none = []
items_of_count (some digits) = numbered_items 0 (int_from 0 digits)

module _ {World : Type 0} (tools : CollectionTools World) where
  -- `_extract_collected_items`
  unfoldable pub extract_collected_items : String → List String
  unfolding listed_items split_lines
  extract_collected_items stdout =
      let items = listed_items (split_lines stdout) in
      if is_empty items && not (is_blank stdout)
      then items_of_count (
          or_else_search (tools.search false "\\b([1-9][0-9]*)\\s+tests?\\s+collected\\b" stdout) (
            or_else_search (tools.search false "collected\\s+([1-9][0-9]*)\\s+items?\\b" stdout)
              (tools.search false "\\b([1-9][0-9]*)\\s+selected\\b" stdout)))
      else items

  -- The first of the patterns that is found, or else the exit code.
  unfoldable pub failure_message : String → ℤ → String
  unfolding strip shown_int
  failure_message combined exit_code =
      elim (or_else_search
        (tools.search false "((?:ModuleNotFoundError|ImportError):[^\\n]+)" combined)
        (or_else_search (tools.search false "(SyntaxError:[^\\n]+)" combined) (
          or_else_search (tools.search true "(fixture\\s+'[^']+'\\s+not\\s+found[^\\n]*)" combined)
            (tools.search false "ERROR\\s+collecting\\s+[^\\n]+" combined)))) [
              | some found ↦ "Pytest collection failed: " <> strip found
              | none ↦ "Pytest collection failed with exit code " <> shown_int exit_code <> "."
            ]

  unfoldable pub diagnostic_lines : String → List String
  unfolding strip split_lines
  diagnostic_lines combined =
      map strip (filter (λ line. not (is_blank (strip line))) (split_lines combined))

  -- ---- The verdict ----

  abbrev pub rejection : TestCandidate → String → List String → Timestamp → ValidationResult
  rejection c message diagnostics now = record {
    candidate_id = c.candidate_id;
    status = rejected_collection;
    gate = "GATE_3_COLLECTION";
    passed = false;
    error_message = some message;
    diagnostics = diagnostics;
    created_at = now;
  }

  -- What an exit code of 0 gives, by the items that were collected.
  abbrev pub of_items :
      TestCandidate → ExecutionRawResult → List String → Timestamp → ValidationResult
  of_items c raw [] now =
      rejection c "Pytest collection succeeded with exit code 0 but zero test items were collected."
        (raw.stdout ∷ raw.stderr ∷ []) now
  of_items c raw (x ∷ xs) now = record {
    candidate_id = c.candidate_id;
    status = passed;
    gate = "GATE_3_COLLECTION";
    passed = true;
    error_message = none;
    diagnostics = ("Collected " <> shown (length (x ∷ xs)) <> " test item(s)") ∷ x ∷ xs;
    created_at = now;
  }

  unfoldable pub raw_verdict :
      TestCandidate → Decimal → ExecutionRawResult → Timestamp → ValidationResult
  unfolding extract_collected_items failure_message diagnostic_lines shown
  raw_verdict c timeout raw now =
      let combined = raw.stdout <> "\n" <> raw.stderr in
      if raw.timed_out || raw.exit_code == pos 124
      then rejection c ("Pytest collection timed out after " <> tools.shown_float timeout <> "s.")
          (raw.stdout ∷ raw.stderr ∷ []) now
      else if raw.oom_killed || raw.exit_code == pos 137
      then rejection c "Pytest collection terminated due to container out-of-memory (OOM)."
          (raw.stdout ∷ raw.stderr ∷ []) now
      else if not (raw.exit_code == pos 0)
      then rejection c (failure_message combined raw.exit_code) (diagnostic_lines combined) now
      else of_items c raw (extract_collected_items raw.stdout) now

  -- `except StagingValidationError`, `except Exception`, and what is behind.
  unfoldable pub verdict :
      TestCandidate → Decimal → Result ExecutionRawResult → Timestamp → ValidationResult
  unfolding raw_verdict
  verdict c timeout (ok raw) now = raw_verdict c timeout raw now
  verdict c timeout (err (staging_validation_error m)) now =
      rejection c ("Collection staging failed: " <> m) (m ∷ []) now
  verdict c timeout (err e) now =
      rejection c ("Sandbox execution error during collection: " <> str e) (str e ∷ []) now

module _ {World : Type 0} (tools : CollectionTools World) (config : CollectionConfig) where
  -- ---- The session ----

  abbrev in_world : {A : Type 0} → Action World A → Action (CollectionLocals World) A
  in_world f m = let (r, w) = f m.world in (r, record m { world = w })

  abbrev pub fresh_area : World → StagingArea World
  fresh_area w = record { world = w; candidate_to_path = []; path_to_candidate = [] }

  -- The candidate in the staging area at a root.
  abbrev stage_at : TestCandidate → FilePath → Action World FilePath
  stage_at c root w =
      let (r, m) = stage_candidate_for_collection tools.files root c true (fresh_area w) in
      (r, m.world)

  abbrev keep_area : FilePath → Action (CollectionLocals World) (Unit {0})
  keep_area root m = (ok tt, record m { staging_area = some root })

  abbrev keep_container : String → Action (CollectionLocals World) (Unit {0})
  keep_container k m = (ok tt, record m { container_id = some k })

  abbrev pub source_mount : Option FilePath → World → List (FilePath × String) × World
  source_mount none w = ([], w)
  source_mount (some root) w =
      let (found, w1) = tools.source_exists root w in
      ((if found then (root, "/workspace/src") ∷ [] else []), w1)

  abbrev pub python_path : Option String → String
  python_path none = "/workspace/src:/workspace"
  python_path (some path) = "/workspace/src:/workspace:" <> path

  abbrev pub collection_config : FilePath → List (FilePath × String) → SandboxConfig
  collection_config root sources = record {
    image_tag = config.image_tag;
    timeout_sec = bounded_timeout config.timeout_sec;
    memory_limit = config.memory_limit;
    cpu_quota = config.cpu_quota;
    pids_limit = config.pids_limit;
    network_disabled = true;
    read_only_mounts = (tests_dir tools.files root, "/workspace/tests") ∷ sources;
    read_write_mounts = [];
    environment_vars =
        assign "PYTHONPATH" (python_path (lookup "PYTHONPATH" config.environment_vars))
          config.environment_vars;
  }

  -- The body of the `try`.
  unfoldable pub collect_in :
      TestCandidate → FilePath → Action (CollectionLocals World) ExecutionRawResult
  unfolding open_area stage_candidate_for_collection construct_collection_command
  collect_in c directory = do
    root ← in_world (open_area tools.files directory directory)
    keep_area root
    in_world (stage_at c root)
    sources ← in_world (λ w. let (s, w1) = source_mount config.source_root w in (ok s, w1))
    cmd ← lift (construct_collection_command "/workspace/tests")
    container ← in_world (tools.create_environment (collection_config root sources))
    keep_container container
    in_world (tools.execute_command container cmd "/workspace")

  -- `finally`; the errors of both removals are swallowed.
  abbrev pub remove_container : Option String → World → World
  remove_container none w = w
  remove_container (some k) w = (tools.cleanup_container k w).1

  abbrev pub remove_staging : FilePath → Option FilePath → World → World
  remove_staging directory none w = tools.remove_directory directory w
  remove_staging directory (some root) w = (cleanup tools.files root (fresh_area w)).1.world

  unfoldable pub torn_down : FilePath → CollectionLocals World → World
  unfolding cleanup
  torn_down directory m =
      let w = remove_container m.container_id m.world in
      if config.keep_artifacts then w else remove_staging directory m.staging_area w

  abbrev pub locals_at : World → CollectionLocals World
  locals_at w = record { world = w; staging_area = none; container_id = none }

  -- The session in a directory, and its verdict.
  unfoldable pub session : TestCandidate → FilePath → Action World ValidationResult
  unfolding collect_in torn_down verdict
  session c directory w =
      let (r, m) = collect_in c directory (locals_at w) in
      let (now, w1) = tools.clock (torn_down directory m) in
      (ok (verdict tools c (bounded_timeout config.timeout_sec) r now), w1)

  abbrev pub is_settled : ValidationStatus → Bool
  is_settled s = s == rejected_syntax || s == rejected_security || s == quarantined

  abbrev pub settled_result : TestCandidate → Timestamp → ValidationResult
  settled_result c now = record {
    candidate_id = c.candidate_id;
    status = c.validation_status;
    gate = "GATE_3_COLLECTION";
    passed = false;
    error_message = some (
        "Candidate was already rejected/quarantined with status: "
        <> status_value c.validation_status);
    diagnostics = [];
    created_at = now;
  }

  -- `validate`
  unfoldable pub validate_collection : Bool → Gate World
  unfolding session
  validate_collection static_gates_passed c w =
      if not static_gates_passed
      then (
        ok (
            rejection tools c
              "Candidate has not passed static syntax and security gates (Gates 1 & 2)." []
              (tools.clock w).0),
        (tools.clock w).1,
      )
      else if is_settled c.validation_status
      then (ok (settled_result c (tools.clock w).0), (tools.clock w).1)
      else (do
        directory ← tools.session_directory (c.candidate_id <> "_" <> (tools.uuid4_hex8 w).0)
        session c directory)
          (tools.uuid4_hex8 w).1

  -- The gate as the pipeline calls it.
  unfoldable pub collection_gate : Gate World
  unfolding validate_collection
  collection_gate = validate_collection true
