-- ===== src/Workflow/Engine/Run.antt =====
-- workflow/engine.py: `_resolve_initial_git_meta`, the exception handler, and `run`.
use agentic_test_system.Prelude.{String, Option, none, some, [], is_missing, if◌then◌else◌}
use agentic_test_system.Core.{
  WorkflowState, FilePath, RepositorySnapshot, Timestamp, Platform, Exn, value_error, str, Result,
  ok, err, Action, pure, raise, ◌>>=◌, ◌>>◌,
}
use agentic_test_system.Storage.Database.{RunRecord}
use agentic_test_system.Storage.Runs.{RunFields}
use agentic_test_system.Workflow.Services.{Services}
use agentic_test_system.Workflow.Machine.{Machine, read_clock, track_run, emit, checkpoint}
use agentic_test_system.Workflow.Engine.Loop.{final_fields, failure_payload, Outcome, loop}

-- The commit, the base commit and the branch.
abbrev pub GitMeta : Type 0
GitMeta = String × String × String

abbrev pub initial_fields : WorkflowState → GitMeta → Timestamp → String → RunFields
initial_fields s (commit, base, branch) started status = record {
  run_id = some s.run_id;
  repo_path = some s.repo_path;
  current_commit = some commit;
  base_commit = some base;
  branch_name = some branch;
  route_selected = none;
  started_at = some started;
  completed_at = none;
  final_status = status;
  error_message = none;
}

-- The record of the run that was just written, under the status RUNNING.
abbrev pub running_fields : WorkflowState → RunRecord → RunFields
running_fields s r =
    initial_fields s (r.current_commit, r.base_commit, r.branch_name) r.started_at "RUNNING"

-- `try: … except Exception: return "unknown", "unknown", "unknown"`
abbrev or_unknown : Result GitMeta → GitMeta
or_unknown (ok g) = g
or_unknown (err e) = ("unknown", "unknown", "unknown")

module _ (p : Platform) (services : Services p.World) where
  git_meta_from : Option RepositorySnapshot → FilePath → p.World → GitMeta × p.World
  git_meta_from (some s) path w = ((s.current_commit, s.base_commit, s.branch_name), w)
  git_meta_from none path w =
      let (r, w') =
        (do
          commit ← services.git_head path
          branch ← services.git_branch path
          pure (commit, commit, branch))
          w in
      (or_unknown r, w')

  unfoldable pub resolve_initial_git_meta : Action (Machine p) GitMeta
  unfolding git_meta_from
  resolve_initial_git_meta m =
      let (g, w) = git_meta_from m.state.snapshot m.state.repo_path m.world in
      (ok g, record m { world = w })

  unfoldable pub mark_running : Option RunRecord → Action (Machine p) (Unit {0})
  mark_running none m = (ok tt, m)
  mark_running (some r) m = track_run p (running_fields m.state r) m

  -- Steps 1 to 3 of `run`: the record, the first checkpoint, and the status RUNNING.
  unfoldable pub prologue : Action (Machine p) (Unit {0})
  unfolding mark_running
  prologue m =
      (do
        g ← resolve_initial_git_meta
        t ← read_clock p
        track_run p (initial_fields m.state g t "INITIALIZED")
        checkpoint p 0 "initialized"
        λ m'. mark_running m'.current_run m')
        m

  unfoldable pub record_failure : Exn → Option RunRecord → Action (Machine p) (Unit {0})
  record_failure e none m = (ok tt, m)
  record_failure e (some r) m =
      (do t ← read_clock p; track_run p (final_fields m.state r t "FAILED" (some (str e)))) m

  -- `except Exception as exc: …; raise`
  unfoldable pub fail : Exn → Action (Machine p) WorkflowState
  unfolding record_failure
  fail e m =
      (do
        record_failure e m.current_run
        λ m'.
            emit p m'.state.run_id "RUN_FAILED" (failure_payload (str e) m'.step_index)
              m'.current_node m'
        raise e)
        m

  abbrev pub handled : (Exn → Action (Machine p) WorkflowState) → Outcome p → Outcome p
  handled handler none = none
  handled handler (some (ok s, m)) = some (ok s, m)
  handled handler (some (err e, m)) = some (handler e m)

  abbrev pub begin : Result (Unit {0}) → Machine p → Outcome p
  begin (ok _) m = loop p services 7 "ingest_and_analyze_node" m
  begin (err e) m = some (err e, m)

  -- The local variables as `run` initialises them.
  abbrev pub start : Machine p → Machine p
  start m = record m { current_node = some "initialized"; step_index = 0; executed_nodes = [] }

  -- `run` on the engine and the initial state that the object holds; `none` would mean that the
  -- fuel of the loop ran out.
  unfoldable pub run : Machine p → Outcome p
  unfolding prologue fail
  run m =
      if is_missing m.state.run_id
      then some (err (value_error "initial_state.run_id must be a non-empty string"), m)
      else (let (r, m') = prologue (start m) in handled fail (begin r m'))
