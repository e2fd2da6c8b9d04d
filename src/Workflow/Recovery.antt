-- ===== src/Workflow/Recovery.antt =====
-- workflow/recovery.py: `_resolve_resume_node` and `resume`.
pub mod Agreement
use agentic_test_system.Prelude.{
  shown, ℕ, String, Bool, true, false, ◌||◌, not, Option, none, some, List, [], ◌∷◌, ◌==◌,
  string_eq, nat_eq, leb, map, filter, is_missing, ◌<>◌, if◌then◌else◌, contains,
}
use agentic_test_system.Core.{
  WorkflowState, RepositorySnapshot, Timestamp, Platform, Exn, value_error, recovery_error, str,
  Result, ok, err, Action, pure, raise, lift, raise_if, continue, ◌>>=◌, ◌>>◌, for_each,
}
use agentic_test_system.Storage.Database.{RunRecord, Payload, text, number}
use agentic_test_system.Storage.Runs.{RunFields, get_run}
use agentic_test_system.Storage.Checkpoints.{
  CheckpointRecord, get_latest_checkpoint, get_checkpoints,
}
use agentic_test_system.Workflow.Edges.{
  route_after_planning, route_after_validation, route_after_execution,
}
use agentic_test_system.Workflow.Services.{Services}
use agentic_test_system.Workflow.Machine.{Machine, read_clock, track_run, emit}
use agentic_test_system.Workflow.Engine.Artifacts.{persist_candidate}
use agentic_test_system.Workflow.Engine.Loop.{
  route_or, final_fields, failure_payload, Outcome, loop,
}
use agentic_test_system.Workflow.Engine.Run.{GitMeta, handled}

unfoldable pub resolve_resume_node : ℕ → WorkflowState → Result String
resolve_resume_node step s =
    if step == 0
    then ok "ingest_and_analyze_node"
    else if step == 1
    then ok "plan_execution_node"
    else if step == 2
    then route_after_planning s
    else if step == 3
    then ok "validate_candidates_node"
    else if step == 4
    then ok (route_after_validation s)
    else if step == 5
    then ok (route_after_execution s)
    else if step == 6
    then ok "report_node"
    else err (recovery_error ("Cannot resume from terminal step index " <> shown step))

abbrev pub is_terminal : String → Bool
is_terminal status = status == "COMPLETED" || status == "FAILED"

-- The run's row, if there is one, refuses the resumption.
abbrev pub refuses : Option RunRecord → Bool
refuses none = false
refuses (some r) = is_terminal r.final_status

abbrev status_of : Option RunRecord → String
status_of none = ""
status_of (some r) = r.final_status

abbrev snapshot_meta : Option RepositorySnapshot → GitMeta
snapshot_meta none = ("unknown", "unknown", "unknown")
snapshot_meta (some s) = (s.current_commit, s.base_commit, s.branch_name)

-- The metadata of the row, or of the snapshot, or "unknown".
abbrev pub resumed_meta : Option RunRecord → WorkflowState → GitMeta
resumed_meta none s = snapshot_meta s.snapshot
resumed_meta (some r) s = (r.current_commit, r.base_commit, r.branch_name)

abbrev row_route : Option RunRecord → Option String
row_route none = none
row_route (some r) = r.route_selected

abbrev pub resumed_fields :
    String → WorkflowState → Option RunRecord → GitMeta → Timestamp → RunFields
resumed_fields run s r (commit, base, branch) started = record {
  run_id = some run;
  repo_path = some s.repo_path;
  current_commit = some commit;
  base_commit = some base;
  branch_name = some branch;
  route_selected = route_or s.plan (row_route r);
  started_at = some started;
  completed_at = none;
  final_status = "RUNNING";
  error_message = none;
}

abbrev pub resumed_payload : String → CheckpointRecord → Payload
resumed_payload run c =
    ("run_id", text run)
    ∷ ("step_index", number c.step_index)
    ∷ ("node_name", text c.node_name)
    ∷ []

-- `self.engine._current_run or run_record`.
abbrev pub either_run : Option RunRecord → Option RunRecord → Option RunRecord
either_run none r = r
either_run (some t) r = some t

module _ (p : Platform) (services : Services p.World) where
  started_or_now : Option RunRecord → Action (Machine p) Timestamp
  started_or_now none = read_clock p
  started_or_now (some r) = pure r.started_at

  -- Steps 6 to 8: the event, the row and the candidates.
  unfoldable pub restore_records :
      String → CheckpointRecord → Option RunRecord → Action (Machine p) (Unit {0})
  unfolding started_or_now
  restore_records run c r m =
      (do
        emit p run "RUN_RESUMED" (resumed_payload run c) (some c.node_name)
        started ← started_or_now r
        track_run p (resumed_fields run m.state r (resumed_meta r m.state) started)
        for_each (persist_candidate p run) m.state.candidates)
        m

  -- Step 9: the next node.
  abbrev pub next_node : Result String → Action (Machine p) String
  next_node r = do n ← lift r; λ m. (ok n, record m { current_node = some n })

  unfoldable pub restore : String → CheckpointRecord → Option RunRecord → Action (Machine p) String
  unfolding restore_records
  restore run c r m =
      let s = m.state in
      (do restore_records run c r; next_node (resolve_resume_node c.step_index s)) m

  unfoldable pub record_resumed_failure : Exn → Option RunRecord → Action (Machine p) (Unit {0})
  record_resumed_failure e (some r) m =
      (do t ← read_clock p; track_run p (final_fields m.state r t "FAILED" (some (str e)))) m
  record_resumed_failure e none m =
      (do
        started ← read_clock p
        t ← read_clock p
        track_run p
            (record (resumed_fields m.state.run_id m.state none ("unknown", "unknown", "unknown")
              started) {
                completed_at = some t;
                final_status = "FAILED";
                error_message = some (str e);
              }))
        m

  -- `except Exception as exc: …; raise`
  unfoldable pub fail_resumed : Option RunRecord → Exn → Action (Machine p) WorkflowState
  unfolding record_resumed_failure
  fail_resumed r e m =
      (do
        record_resumed_failure e (either_run m.current_run r)
        λ m'.
            emit p m'.state.run_id "RUN_FAILED" (failure_payload (str e) m'.step_index)
              m'.current_node m'
        raise e)
        m

  abbrev pub proceed : Result String → Machine p → Outcome p
  proceed (err e) m = some (err e, m)
  proceed (ok n) m = loop p services 7 n m

  -- What is left to do when nothing refuses the resumption.
  unfoldable pub resume_from :
      String → CheckpointRecord → Option RunRecord → List CheckpointRecord → Machine p → Outcome p
  unfolding restore fail_resumed
  resume_from run c r existing m =
      let at_start : Machine p = record m {
        state = c.state;
        current_node = some c.node_name;
        step_index = c.step_index;
        executed_nodes =
            filter (λ n. not (n == "initialized"))
              (map (λ (e : CheckpointRecord). e.node_name) existing);
      } in
      let (n, m') = restore run c r at_start in handled p services (fail_resumed r) (proceed n m')

  abbrev pub resume_existing :
      String
      → CheckpointRecord
      → Option RunRecord
      → Result (List CheckpointRecord)
      → Machine p
      → Outcome p
  resume_existing run c r (err e) m = some (err e, m)
  resume_existing run c r (ok existing) m = resume_from run c r existing m

  unfoldable pub resume_checked :
      String → CheckpointRecord → Option RunRecord → Machine p → Outcome p
  unfolding resume_from
  resume_checked run c r m =
      if refuses r
      then some (
        err (
            recovery_error (
              "Cannot resume run '"
              <> run
              <> "': run is already in terminal status '"
              <> status_of r
              <> "'.")),
        m,
      )
      else if leb 7 c.step_index || is_terminal c.state.final_status
      then some (
        err (
            recovery_error (
              "Cannot resume run '"
              <> run
              <> "': latest checkpoint (step "
              <> shown c.step_index
              <> ") is terminal.")),
        m,
      )
      else resume_existing run c r (get_checkpoints p run m.db).0 m

  abbrev pub resume_run_row :
      String → CheckpointRecord → Result (Option RunRecord) → Machine p → Outcome p
  resume_run_row run c (err e) m = some (err e, m)
  resume_run_row run c (ok r) m = resume_checked run c r m

  abbrev pub resume_latest : String → Result (Option CheckpointRecord) → Machine p → Outcome p
  resume_latest run (err e) m = some (err e, m)
  resume_latest run (ok none) m =
      some (err (recovery_error ("No checkpoint found for run '" <> run <> "'. Cannot resume.")), m)
  resume_latest run (ok (some c)) m = resume_run_row run c (get_run run m.db).0 m

  unfoldable pub resume : String → Machine p → Outcome p
  unfolding resume_checked
  resume run m =
      if is_missing run
      then some (err (recovery_error "run_id must be a non-empty string"), m)
      else resume_latest run (get_latest_checkpoint p run m.db).0 m
