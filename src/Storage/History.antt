-- ===== src/Storage/History.antt =====
-- The databases that the writes of storage/repository.py and storage/events.py lead to, one write
-- after another, failed ones included.
use agentic_test_system.Prelude.{ℕ, String, refl, Option}
use agentic_test_system.Core.{
  Timestamp, TestCandidate, ExecutionEvidence, FailureDiagnosis, WorkflowState, Platform,
}
use agentic_test_system.Storage.Database.{Moment, RunRecord, Database, Payload, empty_database}
use agentic_test_system.Storage.Runs.{RunFields, save_run}
use agentic_test_system.Storage.Candidates.{save_candidate}
use agentic_test_system.Storage.Evidence.{save_evidence}
use agentic_test_system.Storage.Diagnoses.{save_diagnosis}
use agentic_test_system.Storage.Checkpoints.{save_checkpoint}
use agentic_test_system.Storage.Events.{emit_event}
use agentic_test_system.Storage.Integrity.Invariant.{IsConsistent}
use agentic_test_system.Storage.Integrity.Writes.{
  save_run-IsConsistent, save_candidate-IsConsistent, save_evidence-IsConsistent,
  save_diagnosis-IsConsistent, emit_event-IsConsistent, save_checkpoint-IsConsistent,
}

-- One write of the repository or of the event store.
pub data Write : Type 0 where
  write_run : Option RunRecord → RunFields → Timestamp → Write
  write_candidate : TestCandidate → Write
  write_evidence : ExecutionEvidence → Write
  write_diagnosis : FailureDiagnosis → Option String → Write
  write_checkpoint :
      WorkflowState → ℕ → String → Option String → Option Timestamp → String → Timestamp → Write
  write_event :
      String
      → String
      → Payload
      → Option String
      → Option Moment
      → Option String
      → String
      → Timestamp
      → Write

module _ (p : Platform) where
  -- The database behind a write, raised or not.
  unfoldable pub perform : Write → Database → Database
  perform (write_run r f now) db = (save_run r f now db).1
  perform (write_candidate c) db = (save_candidate c db).1
  perform (write_evidence e) db = (save_evidence e db).1
  perform (write_diagnosis d run) db = (save_diagnosis d run db).1
  perform (write_checkpoint s step node k t fresh now) db =
      (save_checkpoint p s step node k t fresh now db).1
  perform (write_event run event_type payload node t k fresh now) db =
      (emit_event run event_type payload node t k fresh now db).1

  pub data IsReachable : Database → Type 0 where
    created : IsReachable empty_database
    written : (w : Write) (db : Database) → IsReachable db → IsReachable (perform w db)

  pub perform-IsConsistent :
      (w : Write) (db : Database) → IsConsistent db → IsConsistent (perform w db)
  unfolding perform
  perform-IsConsistent (write_run r f now) db h = save_run-IsConsistent db h r f now
  perform-IsConsistent (write_candidate c) db h = save_candidate-IsConsistent db h c
  perform-IsConsistent (write_evidence e) db h = save_evidence-IsConsistent db h e
  perform-IsConsistent (write_diagnosis d run) db h = save_diagnosis-IsConsistent db h d run
  perform-IsConsistent (write_checkpoint s step node k t fresh now) db h =
      save_checkpoint-IsConsistent p db h s step node k t fresh now
  perform-IsConsistent (write_event run event_type payload node t k fresh now) db h =
      emit_event-IsConsistent db h run event_type payload node t k fresh now

  -- Whatever is written to an empty database, in whatever order and whether the writes succeed or
  -- raise, every foreign key of the schema holds afterwards.
  pub reachable-IsConsistent : (db : Database) → IsReachable db → IsConsistent db
  reachable-IsConsistent db created = record {
    checkpoint_runs = refl;
    event_runs = refl;
    candidate_runs = refl;
    evidence_runs = refl;
    evidence_candidates = refl;
    diagnosis_runs = refl;
    diagnosis_evidence = refl;
  }
  reachable-IsConsistent db (written w before h) =
      perform-IsConsistent w before (reachable-IsConsistent before h)
