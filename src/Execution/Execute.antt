-- ===== src/Execution/Execute.antt =====
-- execution/service.py: `execute`, `execute_candidates`, `execute_regression_baseline`,
-- `_verify_source_integrity` and `_verify_settings_comparable`.
use agentic_test_system.Prelude.{
  false, String, ℤ, pos, int_eq, Bool, true, ◌&&◌, Option, none, some, List, [], ◌∷◌, ◌<>◌,
  is_empty, is_some, ◌==◌, string_eq, if◌then◌else◌,
}
use agentic_test_system.Core.{
  FilePath, Decimal, TestCandidate, ExecutionEvidence, status_eq, source_integrity_error, str,
  Result, ok, err, Action, pure, ◌>>=◌,
}
use agentic_test_system.Execution.Sources.{SourceTree, directory, compute_tree_hash}
use agentic_test_system.Execution.Settings.{CoverageSettings, Registry, get_evidence_settings}
use agentic_test_system.Execution.Outcomes.{parse_test_outcomes}
use agentic_test_system.Execution.Coverage.{CoverageMetrics, parse_coverage_json, delta_of}
use agentic_test_system.Execution.Session.{
  missing_report, ExecutionConfig, SandboxConfig, ExecutionRawResult, ExecutionTools, Session,
  Observation, same_as,
}

module _ {World : Type 0} (tools : ExecutionTools World) (config : ExecutionConfig) where
  abbrev pub on_world : {A : Type 0} → Action World A → Action (Session World) A
  on_world f m = let (r, w) = f m.world in (r, record m { world = w })

  -- What the second look at the sources says.
  unfoldable pub integrity_verdict : String → Result SourceTree → Result (Unit {0})
  integrity_verdict pre (err e) = err (
      source_integrity_error (
        "Safety Invariant INV-02 violated: Failed to compute post-execution source tree hash for '"
        <> config.source_root
        <> "': "
        <> str e))
  integrity_verdict pre (ok (directory fs)) =
      let post = compute_tree_hash tools.digest (directory fs) in
      if post == pre
      then ok tt
      else err (
          source_integrity_error (
            "Safety Invariant INV-02 violated: Production source files under '"
            <> config.source_root
            <> "' were modified during test execution! Pre-execution SHA-256: " <> pre
            <> ", Post-execution SHA-256: " <> post
            <> ". Halting immediately (UC-05 Extension 9a)."))
  integrity_verdict pre (ok _) = err (
      source_integrity_error (
        "Safety Invariant INV-02 violated: Failed to compute post-execution source tree hash for '"
        <> config.source_root <> "': Source root '" <> config.source_root
        <> "' is missing or not a directory."))

  unfoldable pub verify_source_integrity : String → Action World (Unit {0})
  unfolding integrity_verdict
  verify_source_integrity pre w = let (r, w') = tools.walk w in (integrity_verdict pre r, w')

  -- The error of the command, or that of the cleanup.
  abbrev pub first_error : {A : Type 0} → Result A → Result (Unit {0}) → Result A
  first_error (err e) c = err e
  first_error (ok r) (err e) = err e
  first_error (ok r) (ok _) = ok r

  -- The command in a container, and the container's removal whether it succeeded or not.
  unfoldable pub run_in : List String → String → Action World ExecutionRawResult
  run_in cmd container w =
      let (r, w1) = tools.execute_command container cmd "/workspace" w in
      let (c, w2) = tools.cleanup container w1 in (first_error r c, w2)

  unfoldable pub run_container : SandboxConfig → List String → Action World ExecutionRawResult
  unfolding run_in
  run_container sandbox cmd = do container ← tools.create_environment sandbox; run_in cmd container

  -- The metrics of the report, if the container wrote one.
  unfoldable pub read_coverage : FilePath → Action World CoverageMetrics
  unfolding parse_coverage_json
  read_coverage path w =
      let (found, w1) = tools.is_file path w in
      elim found [
        | true ↦ parse_coverage_json tools.reports tools.is_file tools.read_text false path w1
        | false ↦ (ok (missing_report path), w1)
      ]

  -- The container, and what its output and its coverage report say.
  unfoldable pub observe : SandboxConfig → List String → FilePath → Action World Observation
  unfolding run_container read_coverage parse_test_outcomes
  observe sandbox cmd scratch = do
    raw ← run_container sandbox cmd
    let summary = parse_test_outcomes tools.texts raw.stdout raw.stderr raw.exit_code
    coverage ← read_coverage (scratch <> "/coverage.json")
    pure (raw, summary, coverage)

  abbrev pub verified_or :
      {A : Type 0} → Result A → Result (Unit {0}) × World → Session World → Result A × Session World
  verified_or r (err e, w) m = (err e, record m { world = w })
  verified_or r (ok _, w) m = (r, record m { world = w; integrity_verified = true })

  -- The sources are looked at behind the container, before its error is raised or its result used.
  unfoldable pub checked_after :
      {A : Type 0} → String → Result A × Session World → Result A × Session World
  unfolding verify_source_integrity
  checked_after pre (r, m) = verified_or r (verify_source_integrity pre m.world) m

  abbrev pub sandbox_config : List TestCandidate → FilePath → FilePath → SandboxConfig
  sandbox_config cs staging scratch = record {
    image_tag = config.image_tag;
    timeout_sec = config.timeout_sec;
    memory_limit = config.memory_limit;
    cpu_quota = config.cpu_quota;
    pids_limit = config.pids_limit;
    network_disabled = true;
    read_only_mounts =
        (config.source_root, "/workspace/src")
        ∷ (if is_empty cs then [] else (staging <> "/tests", "/workspace/tests") ∷ []);
    read_write_mounts = (scratch, "/workspace/output") ∷ [];
    environment_vars = config.environment_vars;
  }

  abbrev pub current_settings : CoverageSettings
  current_settings = record {
    source_root = config.source_root;
    cov_source = config.cov_source;
    cov_branch = config.cov_branch;
  }

  -- The guard in front of the differences.
  abbrev pub is_comparable :
      Registry → ExecutionRawResult → Option Decimal → ExecutionEvidence → Bool
  is_comparable xs raw line base =
      base.exit_code == pos 0
      && raw.exit_code == pos 0
      && is_some line
      && is_some base.line_coverage
      && same_as (get_evidence_settings base.evidence_id xs) current_settings

  -- The line and the branch difference.
  unfoldable pub deltas :
      Registry
      → ExecutionRawResult
      → Option Decimal
      → Option Decimal
      → Option ExecutionEvidence
      → Result (Option ℤ × Option ℤ)
  deltas xs raw line branch none = ok (none, none)
  deltas xs raw line branch (some base) =
      if is_comparable xs raw line base
      then elim (delta_of tools.round4 tools.shown_float base.line_coverage line) [
        | err e ↦ err e
        | ok d ↦ elim (delta_of tools.round4 tools.shown_float base.branch_coverage branch) [
          | err e ↦ err e
          | ok d' ↦ ok (d, d')
        ]
      ]
      else ok (none, none)
