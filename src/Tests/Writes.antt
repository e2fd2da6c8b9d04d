-- ===== src/Tests/Writes.antt =====
-- Writes to a database and what its queries find, on concrete rows.
use agentic_test_system.Prelude.{
  any, List, String, map, ◌≡◌, refl, true, Option, none, some, [], ◌∷◌, strip, is_missing, sort_by,
  filter, all, leb,
}
use agentic_test_system.Core.{Result, ok, err}
use agentic_test_system.Storage.Table.{find_row, upsert}
use agentic_test_system.Storage.Database.{EventRecord, RunRecord, Database, empty_database}
use agentic_test_system.Storage.Runs.{RunFields, target_run, save_run, get_run}
use agentic_test_system.Storage.Candidates.{save_candidate, get_candidate}
use agentic_test_system.Storage.Checkpoints.{
  CheckpointRecord, of_run, save_checkpoint, get_latest_checkpoint,
}
use agentic_test_system.Storage.History.{
  Write, write_run, write_evidence, write_checkpoint, write_event, perform, created, written,
  reachable-IsConsistent,
}
use agentic_test_system.Storage.Integrity.Invariant.{IsConsistent}
use agentic_test_system.Storage.AppendOnly.{IsAppend, perform-IsAppend}
use agentic_test_system.Storage.Retrieval.{
  get_run-save_run, get_candidate-save_candidate, is_row_of, latest_is_highest,
}
use agentic_test_system.Storage.Log.{perform_all}
use agentic_test_system.Storage.Events.{emit_event, get_events}
use agentic_test_system.Storage.Resumption.{get_latest_checkpoint-save_checkpoint}
use agentic_test_system.Tests.Data.{counting, first_state, add_candidate, add_evidence}

abbrev run_fields : RunFields
run_fields = record {
  run_id = some " run ";
  repo_path = some "/repo";
  current_commit = some "c1";
  base_commit = some "c0";
  branch_name = some "main";
  route_selected = none;
  started_at = some 0;
  completed_at = none;
  final_status = "RUNNING";
  error_message = none;
}

abbrev run_row : RunRecord
run_row = record {
  run_id = "run";
  repo_path = "/repo";
  current_commit = "c1";
  base_commit = "c0";
  branch_name = "main";
  route_selected = none;
  started_at = 0;
  completed_at = none;
  final_status = "RUNNING";
  error_message = none;
}

abbrev run_database : Database
run_database = record empty_database { runs = run_row ∷ [] }

abbrev step_write : Write
step_write = write_checkpoint first_state 3 "generate_tests_node" none none "k1" 5

get_run-save_run_example :
    (get_run " run " (save_run none run_fields 0 empty_database).1).0 ≡ ok (some run_row)
unfolding target_run is_missing strip
get_run-save_run_example = get_run-save_run run_fields 0 " run " empty_database run_row refl refl

get_candidate-save_candidate_example :
    (get_candidate "cand" (save_candidate add_candidate run_database).1).0 ≡ ok (some add_candidate)
unfolding is_missing strip save_candidate find_row upsert
get_candidate-save_candidate_example =
    get_candidate-save_candidate add_candidate add_candidate run_database refl refl refl

abbrev latest_after : Result (Option CheckpointRecord) → CheckpointRecord
latest_after (ok (some c)) = c
latest_after _ = record {
  checkpoint_id = "";
  run_id = "";
  step_index = 0;
  node_name = "";
  state = first_state;
  created_at = 0;
}

-- Two checkpoints of one run, the later step first.
abbrev two_steps : Database
two_steps =
    (save_checkpoint counting first_state 2 "plan_execution_node" none none "k2" 6
      (save_checkpoint counting first_state 3 "generate_tests_node" none none "k1" 5
        run_database).1).1

latest_is_highest_example :
    (any
        (is_row_of counting "run" (latest_after (get_latest_checkpoint counting "run" two_steps).0))
        two_steps.checkpoints
      ≡ true)
    × (all (λ r. leb r.step_index 3) (filter (of_run (strip "run")) two_steps.checkpoints) ≡ true)
unfolding get_latest_checkpoint save_checkpoint is_missing strip find_row sort_by
latest_is_highest_example =
    latest_is_highest counting "run" two_steps
      (latest_after (get_latest_checkpoint counting "run" two_steps).0) refl

perform-IsAppend_example : IsAppend run_database (perform counting step_write run_database)
perform-IsAppend_example = perform-IsAppend counting run_database step_write

reachable-IsConsistent_example : IsConsistent (
    perform counting
      (write_evidence add_evidence)
      (perform counting step_write (perform counting (write_run none run_fields 0) empty_database)))
reachable-IsConsistent_example =
    reachable-IsConsistent counting
      (perform counting (write_evidence add_evidence) (
        perform counting step_write
          (perform counting (write_run none run_fields 0) empty_database)))
      (written (write_evidence add_evidence) _
        (written step_write _ (written (write_run none run_fields 0) _ created)))

abbrev after_first : Result CheckpointRecord × Database
after_first =
    save_checkpoint counting first_state 3 "generate_tests_node" none none "k1" 5 run_database

abbrev record_after : Result CheckpointRecord → CheckpointRecord
record_after (ok c) = c
record_after (err e) = latest_after (err e)

get_latest_checkpoint-save_checkpoint_example :
    (get_latest_checkpoint counting "run" after_first.1).0 ≡ ok (some (record_after after_first.0))
unfolding save_checkpoint is_missing strip find_row
get_latest_checkpoint-save_checkpoint_example =
    get_latest_checkpoint-save_checkpoint counting first_state refl 3 "generate_tests_node" none
      none "k1" 5 run_database after_first.1 (record_after after_first.0) refl refl tt refl

-- Two events of a run, the later one emitted first, and one between them of a run that is not there.
abbrev event_writes : List Write
event_writes =
    write_run none run_fields 0
    ∷ write_event "run" "NODE_STARTED" [] none (some (record { wall = 9; offset = "+02:00" })) none
        "e1" 5
    ∷ write_event "other" "NODE_STARTED" [] none none none "e2" 6
    ∷ write_event "run" "RUN_STARTED" [] none none none "e3" 7
    ∷ []

abbrev events_found : Result (List EventRecord) → List String
events_found (ok es) = map (λ e. e.event_id) es
events_found (err e) = []

events_in_time :
    events_found (get_events " run" none (perform_all counting event_writes empty_database)).0
    ≡ "e3" ∷ "e1" ∷ []
unfolding perform_all get_events sort_by is_missing strip emit_event find_row save_run upsert
events_in_time = refl
