-- ===== src/Workflow/Edges.antt =====
-- workflow/edges.py: the routers, from a state to the name of the next node.
use agentic_test_system.Prelude.{
  String, pos, Bool, false, not, Option, none, some, ◌==◌, int_eq, any, if◌then◌else◌,
}
use agentic_test_system.Core.{
  WorkflowState, ExecutionEvidence, ExecutionPlan, TestCandidate, passed, status_eq, WorkflowRoute,
  route_no_op, route_to_docker_execution, route_to_test_generation, value_error, Result, ok, err,
}

-- `exit_code != 0`.
abbrev pub failed : ExecutionEvidence → Bool
failed e = not (e.exit_code == pos 0)

abbrev pub is_passed : TestCandidate → Bool
is_passed c = c.validation_status == passed

abbrev pub route_target : WorkflowRoute → String
route_target route_no_op = "report_node"
route_target route_to_docker_execution = "execute_sandbox_node"
route_target route_to_test_generation = "generate_tests_node"

abbrev pub plan_target : Option ExecutionPlan → Result String
plan_target none = err (value_error "ExecutionPlan is required for route_after_planning")
plan_target (some p) = ok (route_target p.route)

unfoldable pub route_after_planning : WorkflowState → Result String
route_after_planning s = plan_target s.plan

unfoldable pub route_after_validation : WorkflowState → String
route_after_validation s =
    if any is_passed s.candidates then "execute_sandbox_node" else "report_node"

abbrev pub baseline_failed : Option ExecutionEvidence → Bool
baseline_failed none = false
baseline_failed (some e) = failed e

unfoldable pub route_after_execution : WorkflowState → String
route_after_execution s =
    if baseline_failed s.baseline_evidence
    then "diagnose_failure_node"
    else if any failed s.evidences
    then "diagnose_failure_node"
    else "report_node"
