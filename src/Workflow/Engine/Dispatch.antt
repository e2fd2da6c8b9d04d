-- ===== src/Workflow/Engine/Dispatch.antt =====
-- workflow/engine.py: `NODE_STEP_INDICES`, `_dispatch_node` and `_resolve_next_node`.
use agentic_test_system.Prelude.{
  ℕ, String, Option, none, some, ◌==◌, string_eq, ◌<>◌, if◌then◌else◌,
}
use agentic_test_system.Core.{
  WorkflowState, value_error, runtime_error, key_error, Result, ok, err, Action, raise, pure,
}
use agentic_test_system.Workflow.Edges.{
  route_after_planning, route_after_validation, route_after_execution,
}
use agentic_test_system.Workflow.Services.{Services}
use agentic_test_system.Workflow.Nodes.{
  ingest_and_analyze_node, plan_execution_node, generate_tests_node, validate_candidates_node,
  execute_sandbox_node, diagnose_failure_node, report_node,
}

-- NODE_STEP_INDICES.get(node)
unfoldable pub step_of : String → Option ℕ
step_of n =
    if n == "ingest_and_analyze_node"
    then some 1
    else if n == "plan_execution_node"
    then some 2
    else if n == "generate_tests_node"
    then some 3
    else if n == "validate_candidates_node"
    then some 4
    else if n == "execute_sandbox_node"
    then some 5
    else if n == "diagnose_failure_node"
    then some 6
    else if n == "report_node"
    then some 7
    else none

-- NODE_STEP_INDICES[node]
unfoldable pub node_step_index : String → Result ℕ
unfolding step_of
node_step_index n = elim (step_of n) [ some i ↦ ok i | none ↦ err (key_error n) ]

-- The service, or the complaint that it was not given.
abbrev pub require :
    {S W : Type 0}
    → Option S
    → String
    → (S → WorkflowState → Action W WorkflowState)
    → WorkflowState
    → Action W WorkflowState
require none message node s = raise (runtime_error message)
require (some service) message node s = node service s

module _ {World : Type 0} (services : Services World) where
  unfoldable pub dispatch_node : String → WorkflowState → Action World WorkflowState
  dispatch_node n s =
      if n == "ingest_and_analyze_node"
      then require services.analysis_service
          "AnalysisService is required to execute ingest_and_analyze_node" ingest_and_analyze_node s
      else if n == "plan_execution_node"
      then require services.planner "ExecutionPlanner is required to execute plan_execution_node"
          plan_execution_node s
      else if n == "generate_tests_node"
      then require services.generation_service
          "GenerationService is required to execute generate_tests_node" generate_tests_node s
      else if n == "validate_candidates_node"
      then require services.validation_pipeline
          "ValidationPipeline is required to execute validate_candidates_node"
          validate_candidates_node s
      else if n == "execute_sandbox_node"
      then require services.execution_service
          "ExecutionService is required to execute execute_sandbox_node" execute_sandbox_node s
      else if n == "diagnose_failure_node"
      then require services.diagnosis_service
          "DiagnosisService is required to execute diagnose_failure_node" diagnose_failure_node s
      else if n == "report_node"
      then pure (report_node s)
      else raise (value_error ("Unrecognized workflow node: '" <> n <> "'"))

abbrev pub some_result : Result String → Result (Option String)
some_result (ok n) = ok (some n)
some_result (err e) = err e

unfoldable pub resolve_next_node : String → WorkflowState → Result (Option String)
resolve_next_node n s =
    if n == "ingest_and_analyze_node"
    then ok (some "plan_execution_node")
    else if n == "plan_execution_node"
    then some_result (route_after_planning s)
    else if n == "generate_tests_node"
    then ok (some "validate_candidates_node")
    else if n == "validate_candidates_node"
    then ok (some (route_after_validation s))
    else if n == "execute_sandbox_node"
    then ok (some (route_after_execution s))
    else if n == "diagnose_failure_node"
    then ok (some "report_node")
    else if n == "report_node"
    then ok none
    else err (value_error ("Unrecognized workflow node: '" <> n <> "'"))
