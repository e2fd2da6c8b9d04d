-- ===== src/Workflow/Nodes/SameRun.antt =====
-- The run that the states of workflow/nodes.py belong to.
use agentic_test_system.Prelude.{
  String, ◌≡◌, refl, Bool, true, false, Option, none, some, List, if◌then◌else◌, filter, ◌==◌,
  string_eq,
}
use agentic_test_system.Core.{
  WorkflowState, FilePath, RepositorySnapshot, ExecutionPlan, TestCandidate, Exn, Result, ok, err,
  Action, continue,
}
use agentic_test_system.Workflow.Services.{Services, ValidationResult, ExecutionMethods}
use agentic_test_system.Workflow.Edges.{failed, is_passed}
use agentic_test_system.Workflow.Nodes.{
  Diagnose, ingest_and_analyze_node, plan_from, plan_execution_node, generate_from,
  generate_tests_node, validate_candidates_node, execute_from, execute_sandbox_node,
  diagnose_failure_node, report_node, baseline, candidate_evidences, diagnose_baseline,
  diagnose_all,
}
use agentic_test_system.Workflow.Engine.Dispatch.{require, dispatch_node}

-- A result that is a state of the run `k`, or an exception.
pub data OfRun (k : String) : Result WorkflowState → Type 0 where
  returned : (s : WorkflowState) → s.run_id ≡ k → OfRun k (ok s)
  raised : (e : Exn) → OfRun k (err e)

module _ {World A : Type 0} (k : String) where
  -- A node that ends in a state made from a service's answer.
  OfRun-continue :
      (f : A → Action World WorkflowState) (r : Result A) (w : World)
      → ((a : A) (w : World) → OfRun k (f a w).0)
      → OfRun k (continue f r w).0
  OfRun-continue f (ok a) w h = h a w
  OfRun-continue f (err e) w h = raised e

module _ {World : Type 0} (s : WorkflowState) where
  ingest-OfRun :
      (analyze : FilePath → Action World RepositorySnapshot) (w : World)
      → OfRun s.run_id (ingest_and_analyze_node analyze s w).0
  unfolding ingest_and_analyze_node
  ingest-OfRun analyze w =
      OfRun-continue s.run_id _ (analyze s.repo_path w).0 _ (λ a w'. returned _ refl)

  plan-OfRun :
      (plan : RepositorySnapshot → Action World ExecutionPlan)
      (snapshot : Option RepositorySnapshot) (w : World)
      → OfRun s.run_id (plan_from plan s snapshot w).0
  plan-OfRun plan none w = raised _
  plan-OfRun plan (some n) w = OfRun-continue s.run_id _ (plan n w).0 _ (λ a w'. returned _ refl)

  generate-OfRun :
      (generate : ExecutionPlan → Action World (List TestCandidate)) (plan : Option ExecutionPlan)
      (w : World)
      → OfRun s.run_id (generate_from generate s plan w).0
  generate-OfRun generate none w = raised _
  generate-OfRun generate (some plan) w =
      OfRun-continue s.run_id _ (generate plan w).0 _ (λ a w'. returned _ refl)

  validate-OfRun :
      (validate : List TestCandidate → Action World (List (TestCandidate × ValidationResult)))
      (w : World)
      → OfRun s.run_id (validate_candidates_node validate s w).0
  unfolding validate_candidates_node
  validate-OfRun validate w =
      OfRun-continue s.run_id _ (validate s.candidates w).0 _ (λ a w'. returned _ refl)

  execute-OfRun :
      (service : ExecutionMethods World) (plan : Option ExecutionPlan) (w : World)
      → OfRun s.run_id (execute_from service s plan w).0
  execute-OfRun service none w = raised _
  execute-OfRun service (some plan) w =
      OfRun-continue s.run_id _ (baseline service plan s.run_id s.baseline_evidence w).0 _
        (λ base w'.
          OfRun-continue s.run_id _
            (candidate_evidences service plan s base (filter is_passed s.candidates) w').0 _
            (λ a w''. returned _ refl))

  diagnose-OfRun :
      (diagnose : Diagnose World) (w : World)
      → OfRun s.run_id (diagnose_failure_node diagnose s w).0
  unfolding diagnose_failure_node
  diagnose-OfRun diagnose w =
      OfRun-continue s.run_id _ (diagnose_baseline diagnose s.baseline_evidence w).0 _ (λ first w'.
        OfRun-continue s.run_id _
          (diagnose_all diagnose s.candidates (filter failed s.evidences) w').0 _
          (λ a w''. returned _ refl))

  require-OfRun :
      {S : Type 0} (service : Option S) (message : String)
      (node : S → WorkflowState → Action World WorkflowState) (w : World)
      → ((x : S) → OfRun s.run_id (node x s w).0)
      → OfRun s.run_id (require service message node s w).0
  require-OfRun none message node w h = raised _
  require-OfRun (some x) message node w h = h x

  OfRun-if :
      (b : Bool) (x y : Action World WorkflowState) (w : World)
      → OfRun s.run_id (x w).0
      → OfRun s.run_id (y w).0
      → OfRun s.run_id ((if b then x else y) w).0
  OfRun-if true x y w h k = h
  OfRun-if false x y w h k = k

  -- Whatever node is dispatched, and whatever the services answer, the node raises or it returns a
  -- state of the same run as the state that it was given.
  pub dispatch_node-OfRun :
      (services : Services World) (n : String) (w : World)
      → OfRun s.run_id (dispatch_node services n s w).0
  unfolding dispatch_node plan_execution_node generate_tests_node execute_sandbox_node report_node
  dispatch_node-OfRun services n w =
      OfRun-if (n == "ingest_and_analyze_node") _ _ w
        (require-OfRun services.analysis_service _ ingest_and_analyze_node w
          (λ x. ingest-OfRun x w))
        (OfRun-if (n == "plan_execution_node") _ _ w
          (require-OfRun services.planner _ plan_execution_node w (λ x. plan-OfRun x s.snapshot w))
          (OfRun-if (n == "generate_tests_node") _ _ w
            (require-OfRun services.generation_service _ generate_tests_node w
              (λ x. generate-OfRun x s.plan w))
            (OfRun-if (n == "validate_candidates_node") _ _ w
              (require-OfRun services.validation_pipeline _ validate_candidates_node w
                (λ x. validate-OfRun x w))
              (OfRun-if (n == "execute_sandbox_node") _ _ w
                (require-OfRun services.execution_service _ execute_sandbox_node w
                  (λ x. execute-OfRun x s.plan w))
                (OfRun-if (n == "diagnose_failure_node") _ _ w
                  (require-OfRun services.diagnosis_service _ diagnose_failure_node w
                    (λ x. diagnose-OfRun x w))
                  (OfRun-if (n == "report_node") _ _ w (returned _ refl) (raised _)))))))
