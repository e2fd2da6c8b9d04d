-- ===== src/Workflow/Engine/Artifacts.antt =====
-- workflow/engine.py: `_persist_node_artifacts`.
use agentic_test_system.Prelude.{
  String, ◌||◌, Option, none, some, List, [], ◌∷◌, ◌==◌, string_eq, if◌then◌else◌,
}
use agentic_test_system.Core.{
  WorkflowState, RepositorySnapshot, ExecutionPlan, TestCandidate, ExecutionEvidence,
  FailureDiagnosis, Platform, route_value, Action, pure, ◌>>◌, for_each,
}
use agentic_test_system.Storage.Database.{RunRecord}
use agentic_test_system.Storage.Runs.{RunFields}
use agentic_test_system.Storage.Candidates.{save_candidate}
use agentic_test_system.Storage.Evidence.{save_evidence}
use agentic_test_system.Storage.Diagnoses.{save_diagnosis}
use agentic_test_system.Workflow.Machine.{Machine, on_db, track_run}

-- The entity under the run of the state.
unfoldable pub own_candidate : String → TestCandidate → TestCandidate
own_candidate run c = if c.run_id == run then c else record c { run_id = run }

unfoldable pub own_evidence : String → ExecutionEvidence → ExecutionEvidence
own_evidence run e = if e.run_id == run then e else record e { run_id = run }

module _ (p : Platform) where
  -- The record of the run with the metadata of the snapshot.
  abbrev pub snapshot_fields : WorkflowState → RepositorySnapshot → RunRecord → RunFields
  snapshot_fields s snapshot r = record {
    run_id = some s.run_id;
    repo_path = some s.repo_path;
    current_commit = some snapshot.current_commit;
    base_commit = some snapshot.base_commit;
    branch_name = some snapshot.branch_name;
    route_selected = r.route_selected;
    started_at = some r.started_at;
    completed_at = none;
    final_status = r.final_status;
    error_message = none;
  }

  -- The record of the run with the route of the plan.
  abbrev pub plan_fields : WorkflowState → ExecutionPlan → RunRecord → RunFields
  plan_fields s plan r = record {
    run_id = some s.run_id;
    repo_path = some s.repo_path;
    current_commit = some r.current_commit;
    base_commit = some r.base_commit;
    branch_name = some r.branch_name;
    route_selected = some (route_value plan.route);
    started_at = some r.started_at;
    completed_at = none;
    final_status = r.final_status;
    error_message = none;
  }

  unfoldable pub persist_snapshot :
      WorkflowState → Option RepositorySnapshot → Option RunRecord → Action (Machine p) (Unit {0})
  persist_snapshot s (some snapshot) (some r) = track_run p (snapshot_fields s snapshot r)
  persist_snapshot s _ _ = pure tt

  unfoldable pub persist_plan :
      WorkflowState → Option ExecutionPlan → Option RunRecord → Action (Machine p) (Unit {0})
  persist_plan s (some plan) (some r) = track_run p (plan_fields s plan r)
  persist_plan s _ _ = pure tt

  unfoldable pub persist_candidate : String → TestCandidate → Action (Machine p) (Unit {0})
  unfolding own_candidate
  persist_candidate run c = do on_db (save_candidate (own_candidate run c)); pure tt

  unfoldable pub persist_evidence : String → ExecutionEvidence → Action (Machine p) (Unit {0})
  unfolding own_evidence
  persist_evidence run e = do on_db (save_evidence (own_evidence run e)); pure tt

  unfoldable pub persist_diagnosis : String → FailureDiagnosis → Action (Machine p) (Unit {0})
  persist_diagnosis run d = do on_db (save_diagnosis d (some run)); pure tt

  abbrev pub optional : Option ExecutionEvidence → List ExecutionEvidence
  optional none = []
  optional (some e) = e ∷ []

  unfoldable pub persist_node_artifacts : String → WorkflowState → Action (Machine p) (Unit {0})
  unfolding persist_snapshot persist_plan persist_candidate persist_evidence persist_diagnosis
  persist_node_artifacts n s m =
      (if n == "ingest_and_analyze_node"
          then persist_snapshot s s.snapshot m.current_run
          else if n == "plan_execution_node"
          then persist_plan s s.plan m.current_run
          else if n == "generate_tests_node" || n == "validate_candidates_node"
          then for_each (persist_candidate s.run_id) s.candidates
          else if n == "execute_sandbox_node"
          then (do
            for_each (persist_evidence s.run_id) (optional s.baseline_evidence)
            for_each (persist_evidence s.run_id) s.evidences)
          else if n == "diagnose_failure_node"
          then for_each (persist_diagnosis s.run_id) s.diagnoses
          else pure tt)
        m
