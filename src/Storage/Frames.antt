-- ===== src/Storage/Frames.antt =====
-- The writes of storage/repository.py and storage/events.py and the table of runs.
use agentic_test_system.Prelude.{ℕ, String, ◌≡◌, refl, Option, arith, or_else}
use agentic_test_system.Core.{
  Timestamp, TestCandidate, ExecutionEvidence, FailureDiagnosis, WorkflowState, Platform, Result,
  ok, err,
}
use agentic_test_system.Storage.Database.{Moment, Database, CheckpointRow, EventRecord, Payload}
use agentic_test_system.Storage.Candidates.{save_candidate}
use agentic_test_system.Storage.Evidence.{
  store_evidence, store_checked, candidate_conflict, save_evidence,
}
use agentic_test_system.Storage.Diagnoses.{store_diagnosis, store_under, save_diagnosis}
use agentic_test_system.Storage.Checkpoints.{
  insert_checkpoint, save_checkpoint, stored, checkpoint_row, given_id,
}
use agentic_test_system.Storage.Events.{insert_event, insert_chosen, chosen_id, emit_event}

module _ (db : Database) where
  pub runs-save_candidate : (c : TestCandidate) → (save_candidate c db).1.runs ≡ db.runs
  unfolding save_candidate
  runs-save_candidate c = ground arith

  runs-store_checked :
      (e : ExecutionEvidence) (c : Result (Unit {0})) → (store_checked e c db).1.runs ≡ db.runs
  unfolding store_evidence
  runs-store_checked e (ok u) = ground arith
  runs-store_checked e (err x) = refl

  pub runs-save_evidence : (e : ExecutionEvidence) → (save_evidence e db).1.runs ≡ db.runs
  unfolding save_evidence
  runs-save_evidence e = runs-store_checked e (candidate_conflict db e.candidate_id e.run_id)

  runs-store_under :
      (d : FailureDiagnosis) (r : Result String) → (store_under d r db).1.runs ≡ db.runs
  unfolding store_diagnosis
  runs-store_under d (ok run) = ground arith
  runs-store_under d (err e) = refl

  pub runs-save_diagnosis :
      (d : FailureDiagnosis) (run : Option String) → (save_diagnosis d run db).1.runs ≡ db.runs
  unfolding save_diagnosis
  runs-save_diagnosis d run = runs-store_under d _

  runs-insert_chosen :
      (f : String → EventRecord) (k : Result String) → (insert_chosen f k db).1.runs ≡ db.runs
  unfolding insert_event
  runs-insert_chosen f (ok k) = ground arith
  runs-insert_chosen f (err e) = refl

  pub runs-emit_event :
      (run event_type : String) (payload : Payload) (at_node : Option String) (t : Option Moment)
      (k : Option String) (fresh : String) (now : Timestamp)
      → (emit_event run event_type payload at_node t k fresh now db).1.runs ≡ db.runs
  unfolding emit_event
  runs-emit_event run event_type payload at_node t k fresh now =
      ground (arith, runs-insert_chosen _ (chosen_id k fresh))

module _ (p : Platform) (db : Database) where
  runs-stored :
      (r : CheckpointRow) (s : WorkflowState) (x : Result (Unit {0}) × Database)
      → (stored p r s x).1.runs ≡ x.1.runs
  runs-stored r s (ok u, d) = refl
  runs-stored r s (err e, d) = refl

  runs-insert_checkpoint : (r : CheckpointRow) → (insert_checkpoint r db).1.runs ≡ db.runs
  unfolding insert_checkpoint
  runs-insert_checkpoint r = ground arith

  pub runs-save_checkpoint :
      (s : WorkflowState) (step : ℕ) (node : String) (k : Option String) (t : Option Timestamp)
      (fresh : String) (now : Timestamp)
      → (save_checkpoint p s step node k t fresh now db).1.runs ≡ db.runs
  unfolding save_checkpoint checkpoint_row
  runs-save_checkpoint s step node k t fresh now =
      let r = checkpoint_row p s step node (given_id k fresh) (or_else t now) in
      ground (arith, runs-stored r s (insert_checkpoint r db), runs-insert_checkpoint r)
