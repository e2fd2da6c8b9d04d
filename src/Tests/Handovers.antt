-- ===== src/Tests/Handovers.antt =====
-- Two candidates, of which the parser accepts one, from their validation to their execution.
use agentic_test_system.Prelude.{
  ℕ, String, ◌≡◌, refl, some, none, [], ◌∷◌, ◌==◌, string_eq, if◌then◌else◌, map, sort_by,
}
use agentic_test_system.Core.{WorkflowState, pending, Result, ok, err, ◌>>=◌}
use agentic_test_system.Core.Syntax.{Parsed, tree, no_syntax}
use agentic_test_system.Workflow.Nodes.{validate_candidates_node, execute_sandbox_node}
use agentic_test_system.Workflow.Nodes.Screened.{
  pipeline, execution, IsExecuted, execute_sandbox_node-IsExecuted,
}
use agentic_test_system.Validation.Pipeline.{validate_candidates}
use agentic_test_system.Validation.Security.{security_gate}
use agentic_test_system.Validation.Syntax.{syntax_gate}
use agentic_test_system.Validation.Collection.{collection_gate}
use agentic_test_system.Execution.Session.{Session, tests_paths}
use agentic_test_system.Execution.Sources.{compute_tree_hash}
use agentic_test_system.Execution.Execute.{observe, checked_after, deltas}
use agentic_test_system.Execution.Batches.{execute_candidates}
use agentic_test_system.Tests.Data.{first_state, calc_plan, add_candidate}
use agentic_test_system.Tests.Screens.{collecting, collection_config, add_tree, ticking}
use agentic_test_system.Tests.Executions.{quiet, calc_config, idle}

abbrev parse_def : String → Parsed
parse_def source =
    if source == "def"
    then no_syntax (record {
      message = "invalid syntax";
      msg = "invalid syntax";
      lineno = some 1;
      text = none;
      offset = some 1;
    })
    else tree add_tree

abbrev generated_state : WorkflowState
generated_state = record first_state {
  plan = some calc_plan;
  candidates =
      record add_candidate { validation_status = pending }
      ∷ record add_candidate {
        candidate_id = "broken";
        candidate_code = "def";
        imports = [];
        validation_status = pending;
      }
      ∷ [];
}

abbrev handed_over : Result WorkflowState × Session ℕ
handed_over =
    (validate_candidates_node
          (pipeline parse_def ticking collecting collection_config quiet calc_config)
          generated_state
        >>= execute_sandbox_node
            (execution parse_def ticking collecting collection_config quiet calc_config))
      idle

abbrev state_of : Result WorkflowState → WorkflowState
state_of (ok s) = s
state_of (err e) = first_state

execute_sandbox_node-IsExecuted_example :
    IsExecuted parse_def ticking collecting collection_config quiet calc_config generated_state
      (state_of handed_over.0)
unfolding validate_candidates_node validate_candidates syntax_gate security_gate collection_gate
    execute_sandbox_node execute_candidates tests_paths checked_after compute_tree_hash sort_by
    observe deltas
execute_sandbox_node-IsExecuted_example =
    execute_sandbox_node-IsExecuted parse_def ticking collecting collection_config quiet calc_config
      generated_state (state_of handed_over.0) idle handed_over.1 refl refl

-- The candidate with the syntax error is not executed.
one_is_executed : map (λ e. e.candidate_id) (state_of handed_over.0).evidences ≡ some "cand" ∷ []
unfolding validate_candidates_node validate_candidates syntax_gate security_gate collection_gate
    execute_sandbox_node execute_candidates tests_paths checked_after compute_tree_hash sort_by
    observe deltas
one_is_executed = refl
