-- ===== src/Tests/Runs.antt =====
-- A run on concrete services, to its report and to a failure, and the attempt to resume it.
use agentic_test_system.Prelude.{
  suc, ℕ, ◌≡◌, refl, arith, Bool, true, false, none, some, [], ◌∷◌, is_missing, Ends, string_eq,
  nat_eq,
}
use agentic_test_system.Core.{WorkflowState, Exn, runtime_error, ok, err, for_each}
use agentic_test_system.Storage.Table.{find_row, upsert}
use agentic_test_system.Storage.Database.{RunRecord}
use agentic_test_system.Storage.Runs.{get_run, save_run}
use agentic_test_system.Storage.Candidates.{save_candidate}
use agentic_test_system.Storage.Evidence.{save_evidence}
use agentic_test_system.Storage.Diagnoses.{save_diagnosis}
use agentic_test_system.Storage.Checkpoints.{save_checkpoint}
use agentic_test_system.Storage.Events.{emit_event}
use agentic_test_system.Workflow.Edges.{
  route_after_planning, route_after_validation, route_after_execution,
}
use agentic_test_system.Workflow.Nodes.{
  ingest_and_analyze_node, plan_execution_node, generate_tests_node, validate_candidates_node,
  execute_sandbox_node, diagnose_failure_node, report_node,
}
use agentic_test_system.Workflow.Nodes.SameRun.{OfRun, dispatch_node-OfRun}
use agentic_test_system.Workflow.Machine.{Machine, track_run, emit, checkpoint}
use agentic_test_system.Workflow.Engine.Loop.{
  Outcome, loop, iteration, node_body, enter, dispatch, persist, complete_report,
}
use agentic_test_system.Workflow.Engine.Dispatch.{
  step_of, dispatch_node, node_step_index, some_result, resolve_next_node,
}
use agentic_test_system.Workflow.Engine.Artifacts.{persist_node_artifacts}
use agentic_test_system.Workflow.Engine.Run.{run, resolve_initial_git_meta}
use agentic_test_system.Workflow.Engine.Lifecycle.{run-Ends, run_completed, run_failed}
use agentic_test_system.Workflow.Recovery.{resolve_resume_node, resume}
use agentic_test_system.Workflow.Recovery.Agreement.{
  IsRefusal, resolve_resume_node_agrees, resume-run_completed, resume-run_failed, resume-Ends,
}
use agentic_test_system.Tests.Data.{
  counting, steady, unplanned, first_machine, first_state, calc_snapshot, calc_plan, add_candidate,
  add_evidence, add_diagnosis,
}

-- The object behind a run; the run's own start where it has no end.
abbrev machine_after : Outcome counting → Machine counting
machine_after none = first_machine
machine_after (some (r, m)) = m

-- The state that a run returns, and what a run raises.
abbrev state_after : Outcome counting → WorkflowState
state_after (some (ok s, m)) = s
state_after _ = first_state

abbrev error_after : Outcome counting → Exn
error_after (some (err e, m)) = e
error_after _ = runtime_error ""

abbrev has_returned : Outcome counting → Bool
has_returned (some (ok s, m)) = true
has_returned _ = false

abbrev has_raised : Outcome counting → Bool
has_raised (some (err e, m)) = true
has_raised _ = false

returned_lem :
    (o : Outcome counting) → has_returned o ≡ true → o ≡ some (ok (state_after o), machine_after o)
returned_lem none h = absurd cc
returned_lem (some (ok s, m)) h = refl
returned_lem (some (err e, m)) h = absurd cc

raised_lem :
    (o : Outcome counting) → has_raised o ≡ true → o ≡ some (err (error_after o), machine_after o)
raised_lem none h = absurd cc
raised_lem (some (ok s, m)) h = absurd cc
raised_lem (some (err e, m)) h = refl

abbrev finished : Machine counting
finished = machine_after (run counting steady first_machine)

abbrev broken : Machine counting
broken = machine_after (run counting unplanned first_machine)

abbrev last_state : WorkflowState
last_state = record first_state {
  snapshot = some calc_snapshot;
  plan = some calc_plan;
  candidates = add_candidate ∷ [];
  evidences = add_evidence ∷ [];
  diagnoses = add_diagnosis ∷ [];
  final_status = "COMPLETED";
}

run_is_named : is_missing "run" ≡ false
unfolding is_missing
run_is_named = refl

returns :
    run counting steady first_machine
    ≡ some (ok (state_after (run counting steady first_machine)), finished)
unfolding run resolve_initial_git_meta track_run emit checkpoint loop iteration node_body enter
    dispatch persist complete_report dispatch_node node_step_index resolve_next_node
    persist_node_artifacts save_run save_candidate save_evidence save_diagnosis save_checkpoint
    emit_event is_missing find_row upsert ingest_and_analyze_node plan_execution_node
    route_after_planning generate_tests_node for_each validate_candidates_node
    route_after_validation execute_sandbox_node route_after_execution diagnose_failure_node
    report_node
returns = returned_lem (run counting steady first_machine) refl

raises :
    run counting unplanned first_machine
    ≡ some (err (error_after (run counting unplanned first_machine)), broken)
unfolding run resolve_initial_git_meta track_run emit checkpoint loop iteration node_body enter
    dispatch persist complete_report dispatch_node node_step_index resolve_next_node
    persist_node_artifacts save_run save_candidate save_evidence save_diagnosis save_checkpoint
    emit_event is_missing find_row upsert ingest_and_analyze_node plan_execution_node
    route_after_planning generate_tests_node for_each validate_candidates_node
    route_after_validation execute_sandbox_node route_after_execution diagnose_failure_node
    report_node
raises = raised_lem (run counting unplanned first_machine) refl

run-Ends_example : Ends (run counting steady first_machine)
run-Ends_example = run-Ends counting steady first_machine

run_completed_example :
    (r : RunRecord) × (get_run "run" finished.db ≡ (ok (some r), finished.db))
    × (r.final_status ≡ "COMPLETED")
    × ((w : ℕ) × (finished.world ≡ suc w) × (r.completed_at ≡ some w))
run_completed_example =
    run_completed counting steady first_machine finished
      (state_after (run counting steady first_machine)) run_is_named returns

run_failed_example :
    (r : RunRecord) × (get_run "run" broken.db ≡ (ok (some r), broken.db))
    × (r.final_status ≡ "FAILED")
    × ((w : ℕ) × (broken.world ≡ suc (suc (suc w))) × (r.completed_at ≡ some w))
run_failed_example =
    run_failed counting unplanned first_machine broken
      (error_after (run counting unplanned first_machine)) run_is_named raises

resume-run_completed_example : IsRefusal finished (resume counting steady "run" finished)
resume-run_completed_example =
    resume-run_completed counting steady first_machine finished
      (state_after (run counting steady first_machine)) run_is_named returns

resume-run_failed_example : IsRefusal broken (resume counting unplanned "run" broken)
resume-run_failed_example =
    resume-run_failed counting unplanned first_machine broken
      (error_after (run counting unplanned first_machine)) run_is_named raises

resume-Ends_example : Ends (resume counting steady "run" broken)
resume-Ends_example = resume-Ends counting steady "run" broken

resolve_resume_node_agrees_example :
    some_result (resolve_resume_node 4 last_state)
    ≡ resolve_next_node "validate_candidates_node" last_state
unfolding step_of
resolve_resume_node_agrees_example =
    resolve_resume_node_agrees "validate_candidates_node" 4 last_state refl (omega arith)

dispatch_node-OfRun_example : OfRun "run" (dispatch_node steady "report_node" last_state 0).0
dispatch_node-OfRun_example = dispatch_node-OfRun last_state steady "report_node" 0
