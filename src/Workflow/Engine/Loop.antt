-- ===== src/Workflow/Engine/Loop.antt =====
-- workflow/engine.py: the body of the loop of `run`, and the loop.
use agentic_test_system.Prelude.{
  ℕ, zero, suc, String, Option, none, some, [], ◌∷◌, ◌==◌, string_eq, ◌<>◌, contains, if◌then◌else◌,
}
use agentic_test_system.Core.{
  Timestamp, WorkflowState, ExecutionPlan, Platform, runtime_error, route_value, Result, ok, err,
  Action, lift, raise_if, continue, ◌>>=◌, ◌>>◌,
}
use agentic_test_system.Storage.Database.{RunRecord, Payload, text, number}
use agentic_test_system.Storage.Runs.{RunFields}
use agentic_test_system.Workflow.Services.{Services}
use agentic_test_system.Workflow.Machine.{
  Machine, on_world, read_clock, track_run, emit, checkpoint,
}
use agentic_test_system.Workflow.Engine.Dispatch.{node_step_index, dispatch_node, resolve_next_node}
use agentic_test_system.Workflow.Engine.Artifacts.{persist_node_artifacts}

abbrev cycle_message : String → String
cycle_message n = "Cycle detected: Node '" <> n <> "' has already been executed in this run."

-- `state.plan.route.value if state.plan else current_run.route_selected`
abbrev pub route_or : Option ExecutionPlan → Option String → Option String
route_or none selected = selected
route_or (some plan) selected = some (route_value plan.route)

abbrev pub step_payload : ℕ → Payload
step_payload i = ("step_index", number i) ∷ []

abbrev pub failure_payload : String → ℕ → Payload
failure_payload message i = ("error", text message) ∷ ("step_index", number i) ∷ []

-- The run's record at its end.
abbrev pub final_fields : WorkflowState → RunRecord → Timestamp → String → Option String → RunFields
final_fields s r now status message = record {
  run_id = some s.run_id;
  repo_path = some s.repo_path;
  current_commit = some r.current_commit;
  base_commit = some r.base_commit;
  branch_name = some r.branch_name;
  route_selected = route_or s.plan r.route_selected;
  started_at = some r.started_at;
  completed_at = some now;
  final_status = status;
  error_message = message;
}

-- What the loop or the run ends with.
abbrev pub Outcome : Platform → Type 0
Outcome p = Option (Result WorkflowState × Machine p)

module _ (p : Platform) (services : Services p.World) where
  -- `executed_nodes.add(node); step_index = NODE_STEP_INDICES[node]`
  unfoldable pub enter : String → Action (Machine p) ℕ
  enter n m =
      (do
        raise_if (contains n m.executed_nodes) (runtime_error (cycle_message n))
        λ m'. (ok tt, record m' { executed_nodes = n ∷ m'.executed_nodes })
        i ← lift (node_step_index n)
        λ m'. (ok i, record m' { step_index = i }))
        m

  -- `state = self._dispatch_node(node, state)`
  unfoldable pub dispatch : String → Action (Machine p) (Unit {0})
  dispatch n m =
      (do s ← on_world (dispatch_node services n m.state); λ m'. (ok tt, record m' { state = s })) m

  unfoldable pub persist : String → Action (Machine p) (Unit {0})
  persist n m = persist_node_artifacts p n m.state m

  unfoldable pub complete : Option RunRecord → Action (Machine p) (Unit {0})
  complete none m = (ok tt, m)
  complete (some r) m =
      (do
        t ← read_clock p
        track_run p (final_fields m.state r t "COMPLETED" m.state.error_message))
        m

  -- `if current_node == "report_node": …`
  unfoldable pub complete_report : String → Action (Machine p) (Unit {0})
  unfolding complete
  complete_report n m = if n == "report_node" then complete m.current_run m else (ok tt, m)

  -- An event of the run of the current state.
  unfoldable pub emit_own : String → Payload → String → Action (Machine p) (Unit {0})
  emit_own event_type payload n m = emit p m.state.run_id event_type payload (some n) m

  -- The node, its artifacts and its checkpoint, between the two events.
  unfoldable pub node_steps : String → ℕ → Action (Machine p) (Unit {0})
  unfolding emit_own
  node_steps n i = do
    emit_own "NODE_STARTED" (step_payload i) n
    dispatch n
    persist n
    emit_own "NODE_COMPLETED" (step_payload i) n
    checkpoint p i n

  -- The body of the loop, up to the router.
  unfoldable pub node_body : String → Action (Machine p) (Unit {0})
  unfolding node_steps
  node_body n m =
      (do i ← enter n; node_steps n i; complete_report n) (record m { current_node = some n })

  abbrev pub route : String → Unit {0} → Action (Machine p) (Option String)
  route n _ m = (resolve_next_node n m.state, m)

  unfoldable pub iteration : String → Action (Machine p) (Option String)
  unfolding node_body
  iteration n m = let (r, m') = node_body n m in continue (route n) r m'

  -- How a round ends: by an exception, by `return state`, or by the next node.
  abbrev pub after_round :
      (String → Machine p → Outcome p) → Result (Option String) → Machine p → Outcome p
  after_round next (err e) m = some (err e, m)
  after_round next (ok none) m = some (ok m.state, record m { current_node = none })
  after_round next (ok (some n)) m = next n m

  -- `while current_node is not None`, with fuel; `none` means that the fuel ran out.
  unfoldable pub loop : ℕ → String → Machine p → Outcome p
  loop zero n m = none
  loop (suc fuel) n m = let (r, m') = iteration n m in after_round (loop fuel) r m'
