-- ===== src/Workflow/Nodes.antt =====
-- workflow/nodes.py: the seven nodes, from a state to a state by the services.
pub mod SameRun
pub mod Screened
use agentic_test_system.Prelude.{
  String, Bool, true, false, Option, none, some, List, [], ◌∷◌, ◌++◌, map, ◌==◌, string_eq, filter,
  is_empty, is_blank, if◌then◌else◌,
}
use agentic_test_system.Core.{
  WorkflowState, FilePath, RepositorySnapshot, ExecutionPlan, TestCandidate, ExecutionEvidence,
  FailureDiagnosis, Platform, value_error, ok, err, Result, Action, pure, raise, ◌>>=◌, continue,
}
use agentic_test_system.Workflow.Edges.{failed, is_passed}
use agentic_test_system.Workflow.Services.{ValidationResult, ExecutionMethods}

-- `{c.candidate_id: c for c in candidates}.get(k)`: of two candidates with one key the later stays.
unfoldable pub candidate_by_id : String → List TestCandidate → Option TestCandidate
candidate_by_id k [] = none
candidate_by_id k (c ∷ cs) = elim (candidate_by_id k cs) [
  | some d ↦ some d
  | none ↦ if c.candidate_id == k then some c else none
]

-- `candidate_by_id.get(ev.candidate_id) if ev.candidate_id else None`
unfoldable pub candidate_of : Option String → List TestCandidate → Option TestCandidate
unfolding candidate_by_id
candidate_of none cs = none
candidate_of (some k) cs = if is_blank k then none else candidate_by_id k cs

abbrev code_of : Option TestCandidate → Option String
code_of none = none
code_of (some c) = some c.candidate_code

abbrev target_of : Option TestCandidate → Option String
target_of none = none
target_of (some c) = some c.target_symbol_name

-- `DiagnosisService.diagnose`: the evidence, its candidate, the code and the target's name.
abbrev pub Diagnose : Type 0 → Type 0
Diagnose World =
    ExecutionEvidence
    → Option TestCandidate
    → Option String
    → Option String
    → Action World FailureDiagnosis

module _ {World : Type 0} where
  unfoldable pub ingest_and_analyze_node :
      (FilePath → Action World RepositorySnapshot) → WorkflowState → Action World WorkflowState
  ingest_and_analyze_node analyze s = do
    snapshot ← analyze s.repo_path
    pure (record s { snapshot = some snapshot })

  abbrev pub plan_from :
      (RepositorySnapshot → Action World ExecutionPlan)
      → WorkflowState
      → Option RepositorySnapshot
      → Action World WorkflowState
  plan_from plan s none =
      raise (value_error "RepositorySnapshot is required for plan_execution_node")
  plan_from plan s (some snapshot) = do made ← plan snapshot; pure (record s { plan = some made })

  unfoldable pub plan_execution_node :
      (RepositorySnapshot → Action World ExecutionPlan) → WorkflowState → Action World WorkflowState
  plan_execution_node plan s = plan_from plan s s.snapshot

  abbrev pub generate_from :
      (ExecutionPlan → Action World (List TestCandidate))
      → WorkflowState
      → Option ExecutionPlan
      → Action World WorkflowState
  generate_from generate s none =
      raise (value_error "ExecutionPlan is required for generate_tests_node")
  generate_from generate s (some plan) = do
    generated ← generate plan
    pure (record s { candidates = generated })

  unfoldable pub generate_tests_node :
      (ExecutionPlan → Action World (List TestCandidate))
      → WorkflowState
      → Action World WorkflowState
  generate_tests_node generate s = generate_from generate s s.plan

  unfoldable pub validate_candidates_node :
      (List TestCandidate → Action World (List (TestCandidate × ValidationResult)))
      → WorkflowState
      → Action World WorkflowState
  validate_candidates_node validate s = do
    results ← validate s.candidates
    pure (record s { candidates = map (λ r. r.0) results })

  -- The baseline of the state, or the one that the plan asks for.
  unfoldable pub baseline :
      ExecutionMethods World
      → ExecutionPlan
      → String
      → Option ExecutionEvidence
      → Action World (Option ExecutionEvidence)
  baseline service plan run (some e) = pure (some e)
  baseline service plan run none =
      if is_empty plan.existing_tests_to_run
      then pure none
      else do e ← service.execute_regression_baseline plan (some run); pure (some e)

  unfoldable pub candidate_evidences :
      ExecutionMethods World
      → ExecutionPlan
      → WorkflowState
      → Option ExecutionEvidence
      → List TestCandidate
      → Action World (List ExecutionEvidence)
  candidate_evidences service plan s base [] = pure s.evidences
  candidate_evidences service plan s base (c ∷ cs) =
      service.execute_candidates plan (c ∷ cs) base (some s.run_id)

  abbrev pub execute_from :
      ExecutionMethods World → WorkflowState → Option ExecutionPlan → Action World WorkflowState
  execute_from service s none =
      raise (value_error "ExecutionPlan is required for execute_sandbox_node")
  execute_from service s (some plan) = do
    base ← baseline service plan s.run_id s.baseline_evidence
    found ← candidate_evidences service plan s base (filter is_passed s.candidates)
    pure (record s { baseline_evidence = base; evidences = found })

  unfoldable pub execute_sandbox_node :
      ExecutionMethods World → WorkflowState → Action World WorkflowState
  unfolding baseline candidate_evidences
  execute_sandbox_node service s = execute_from service s s.plan

  -- One diagnosis for each evidence of a list, in its order.
  unfoldable pub diagnose_all :
      Diagnose World
      → List TestCandidate
      → List ExecutionEvidence
      → Action World (List FailureDiagnosis)
  unfolding candidate_of
  diagnose_all diagnose cs [] = pure []
  diagnose_all diagnose cs (e ∷ es) = do
    let c = candidate_of e.candidate_id cs
    d ← diagnose e c (code_of c) (target_of c)
    ds ← diagnose_all diagnose cs es
    pure (d ∷ ds)

  -- The diagnosis of the baseline, which has no candidate.
  unfoldable pub diagnose_baseline :
      Diagnose World → Option ExecutionEvidence → Action World (List FailureDiagnosis)
  diagnose_baseline diagnose none = pure []
  diagnose_baseline diagnose (some e) =
      if failed e then (do d ← diagnose e none none none; pure (d ∷ [])) else pure []

  unfoldable pub diagnose_failure_node : Diagnose World → WorkflowState → Action World WorkflowState
  unfolding diagnose_baseline diagnose_all
  diagnose_failure_node diagnose s = do
    first ← diagnose_baseline diagnose s.baseline_evidence
    rest ← diagnose_all diagnose s.candidates (filter failed s.evidences)
    pure (record s { diagnoses = s.diagnoses ++ (first ++ rest) })

unfoldable pub report_node : WorkflowState → WorkflowState
report_node s = record s { final_status = "COMPLETED" }
