-- ===== src/Execution/Service.antt =====
-- execution/service.py: `execute` as a whole, and `execute_regression_baseline`.
use agentic_test_system.Prelude.{
  String, ℤ, Bool, false, ◌&&◌, ◌||◌, not, Option, none, some, List, [], ◌∷◌, ◌<>◌, filter,
  is_empty, length, ltb, is_none, if◌then◌else◌,
}
use agentic_test_system.Core.{
  FilePath, Timestamp, Decimal, ExecutionPlan, TestCandidate, ExecutionEvidence, Exn, value_error,
  source_integrity_error, staging_validation_error, str, Result, ok, err, Action, pure, lift,
  continue, ◌>>=◌, ◌>>◌,
}
use agentic_test_system.Workflow.Edges.{is_passed}
use agentic_test_system.Execution.Sources.{SourceTree, compute_tree_hash}
use agentic_test_system.Execution.Settings.{
  Registry, register_evidence_settings, release_evidence_settings,
}
use agentic_test_system.Execution.Runner.{construct_command_for_paths}
use agentic_test_system.Execution.Session.{
  ExecutionConfig, ExecutionTools, Session, is_integrity_error, Observation, session_run,
  session_candidate, tests_paths, when_branch,
}
use agentic_test_system.Execution.Execute.{
  on_world, verify_source_integrity, observe, checked_after, sandbox_config, current_settings,
  deltas,
}

abbrev pub multiple_message : String
multiple_message =
    "Batch execution of multiple candidates in a single container session is prohibited. Use execute_candidates() to execute candidates in isolated per-candidate sessions."

-- The arguments of one execution behind its first checks: the effective identifiers, the candidates
-- that passed, and the plan.
pub record Job : Type 0 where
  pub run : String
  pub candidate : Option String
  pub candidates : List TestCandidate
  pub plan : ExecutionPlan
  pub baseline : Option ExecutionEvidence

module _ {World : Type 0} (tools : ExecutionTools World) (config : ExecutionConfig) where
  -- The settings of a valid baseline are kept, and so is the evidence.
  unfoldable pub remember : Bool → ExecutionEvidence → Observation → Session World → Session World
  remember registers e (raw, summary, coverage) m = record m {
    evidence_settings =
        if registers
        then register_evidence_settings e.evidence_id (current_settings tools config)
            m.evidence_settings
        else m.evidence_settings;
    last_summary = some summary;
    last_coverage = some coverage;
    last_evidence = some e;
  }

  -- The coverages of an observation, which are none where the report is not valid.
  abbrev pub line_of : Observation → Option Decimal
  line_of (raw, summary, coverage) = when_branch coverage.is_valid coverage.line_coverage

  abbrev pub branch_of : Observation → Option Decimal
  branch_of (raw, summary, coverage) =
      when_branch coverage.is_valid (when_branch config.cov_branch coverage.branch_coverage)

  abbrev pub evidence_for :
      Job → Observation → Option ℤ × Option ℤ → String → Timestamp → ExecutionEvidence
  evidence_for job (raw, summary, coverage) d k t = record {
    evidence_id = "ev-" <> k;
    run_id = job.run;
    candidate_id = job.candidate;
    exit_code = raw.exit_code;
    stdout = raw.stdout;
    stderr = raw.stderr;
    duration_sec = raw.duration_sec;
    timed_out = summary.timed_out;
    line_coverage = line_of (raw, summary, coverage);
    branch_coverage = branch_of (raw, summary, coverage);
    line_coverage_delta = d.0;
    branch_coverage_delta = d.1;
    traceback = summary.traceback;
    created_at = t;
  }

  -- Valid coverage of a baseline is registered.
  abbrev pub registers : Job → Observation → Bool
  registers job (raw, summary, coverage) = coverage.is_valid && is_none job.candidate

  unfoldable pub close_session :
      Job → Observation → Option ℤ × Option ℤ → Action (Session World) ExecutionEvidence
  unfolding remember
  close_session job o d m =
      let (k, w1) = tools.uuid4_hex12 m.world in
      let (t, w2) = tools.now w1 in
      let e = evidence_for job o d k t in
      (ok e, remember (registers job o) e o (record m { world = w2 }))

  -- The evidence of an observation.
  unfoldable pub packaged_evidence : Job → Observation → Action (Session World) ExecutionEvidence
  unfolding close_session
  packaged_evidence job o m =
      continue (close_session job o)
        (deltas tools config m.evidence_settings o.0 (line_of o) (branch_of o) job.baseline) m

  abbrev pub keep_staging : FilePath → Action (Session World) (Unit {0})
  keep_staging d m = (ok tt, record m { staging_dir = some d })

  abbrev pub keep_scratch : FilePath → Action (Session World) (Unit {0})
  keep_scratch d m = (ok tt, record m { scratch_dir = some d })

  unfoldable pub stage : FilePath → List TestCandidate → Action World (Unit {0})
  stage d [] = pure tt
  stage d (c ∷ cs) = tools.stage_candidates d (c ∷ cs)

  -- The directories and the command: everything in front of the container.
  unfoldable pub prepare : Job → Action (Session World) (FilePath × FilePath × List String)
  unfolding stage construct_command_for_paths
  prepare job = do
    suffix ← on_world tools config (λ w. (ok (tools.uuid4_hex8 w).0, (tools.uuid4_hex8 w).1))
    staging ← on_world tools config (tools.open_staging (job.run <> "_" <> suffix))
    keep_staging staging
    on_world tools config (stage staging job.candidates)
    scratch ← on_world tools config (tools.make_scratch (job.run <> "_" <> suffix))
    keep_scratch scratch
    cmd ← lift (
        construct_command_for_paths (tests_paths job.candidates job.plan.existing_tests_to_run)
          config.cov_source (some "/workspace/output/coverage.json") config.cov_branch)
    pure (staging, scratch, cmd)

  unfoldable pub contained :
      String → Job → FilePath × FilePath × List String → Action (Session World) Observation
  contained pre job (staging, scratch, cmd) m = checked_after tools config pre (
      on_world tools config
        (observe tools config (sandbox_config tools config job.candidates staging scratch) cmd
          scratch)
        m)

  -- The body of the `try`.
  unfoldable pub attempt_job : String → Job → Action (Session World) ExecutionEvidence
  unfolding prepare contained packaged_evidence
  attempt_job pre job = do d ← prepare job; o ← contained pre job d; packaged_evidence job o

  -- `except SourceIntegrityError: raise`, and `except Exception`, which looks at the sources if that
  -- was not done yet.
  abbrev pub raised_or : Exn → Result (Unit {0}) → Result ExecutionEvidence
  raised_or e (err e') = err e'
  raised_or e (ok _) = err e

  unfoldable pub settle :
      String → Result ExecutionEvidence × Session World → Result ExecutionEvidence × Session World
  settle pre (ok e, m) = (ok e, m)
  settle pre (err e, m) = if is_integrity_error e || m.integrity_verified then (err e, m) else (
    raised_or e (verify_source_integrity tools config pre m.world).0,
    record m { world = (verify_source_integrity tools config pre m.world).1 },
  )

  abbrev pub released : Bool → Option ExecutionEvidence → Registry → Registry
  released release none xs = xs
  released release (some base) xs =
      if release then release_evidence_settings base.evidence_id xs else xs

  -- `finally`
  unfoldable pub clean_up : Bool → Option ExecutionEvidence → Session World → Session World
  clean_up release base m = record m {
    evidence_settings = released release base m.evidence_settings;
    world =
        if config.keep_artifacts
        then m.world
        else tools.teardown m.staging_dir m.scratch_dir m.world;
  }

  abbrev pub finally :
      (Session World → Session World)
      → Result ExecutionEvidence × Session World
      → Result ExecutionEvidence × Session World
  finally f (r, m) = (r, f m)

  abbrev pub fresh_session : Session World → Session World
  fresh_session m = record m { staging_dir = none; scratch_dir = none; integrity_verified = false }

  -- Behind the first look at the sources, which stands in front of the `try`.
  unfoldable pub guarded : Bool → Job → Result SourceTree → Action (Session World) ExecutionEvidence
  unfolding attempt_job settle clean_up
  guarded release job (err e) m = (
    err (
        source_integrity_error (
          "Safety Invariant INV-02 violated: Failed to compute pre-execution source hash for '"
          <> config.source_root
          <> "': "
          <> str e)),
    m,
  )
  guarded release job (ok t) m =
      let pre = compute_tree_hash tools.digest t in
      finally (clean_up release job.baseline) (settle pre (attempt_job pre job (fresh_session m)))

  unfoldable pub start_job : Bool → Job → Action (Session World) ExecutionEvidence
  unfolding guarded
  start_job release job m =
      let (r, w) = tools.walk m.world in guarded release job r (record m { world = w })

  -- What stands in front of the first look at the sources: the refusals, and the identifiers.
  unfoldable pub checked_job :
      ExecutionPlan
      → List TestCandidate
      → Option String
      → Option String
      → Option ExecutionEvidence
      → Result Job
  unfolding session_run session_candidate
  checked_job plan cs run k base =
      let passed_cs = filter is_passed cs in
      if ltb 1 (length cs)
      then err (value_error multiple_message)
      else if not (is_empty cs) && is_empty passed_cs
      then err (
          staging_validation_error
            "None of the provided test candidates have validation_status == PASSED. Unvalidated or rejected candidates must never be staged or executed (INV-04).")
      else if is_empty passed_cs && is_empty plan.existing_tests_to_run
      then err
          (value_error "No validated test candidates or existing tests available for execution.")
      else ok (record {
        run = session_run run cs plan.plan_id;
        candidate = session_candidate k passed_cs;
        candidates = passed_cs;
        plan = plan;
        baseline = base;
      })

  abbrev pub start_checked : Bool → Result Job → Action (Session World) ExecutionEvidence
  start_checked release (err e) m = (err e, m)
  start_checked release (ok job) m = start_job release job m

  unfoldable pub execute :
      ExecutionPlan
      → List TestCandidate
      → Option String
      → Option String
      → Option ExecutionEvidence
      → Bool
      → Action (Session World) ExecutionEvidence
  unfolding start_job checked_job
  execute plan cs run k base release = start_checked release (checked_job plan cs run k base)

  unfoldable pub execute_regression_baseline :
      ExecutionPlan → Option String → Action (Session World) ExecutionEvidence
  unfolding execute
  execute_regression_baseline plan run m =
      if is_empty plan.existing_tests_to_run
      then (
        err (
            value_error
              "ExecutionPlan.existing_tests_to_run cannot be empty for regression baseline execution."),
        m,
      )
      else execute plan [] run none none false m
