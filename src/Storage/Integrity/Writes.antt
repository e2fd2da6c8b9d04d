-- ===== src/Storage/Integrity/Writes.antt =====
-- The writes of storage/repository.py and storage/events.py under the foreign keys of the schema.
use agentic_test_system.Prelude.{
  ℕ, String, ◌≡◌, refl, Bool, true, false, not, Option, none, some, [], ◌∷◌, ◌++◌, arith,
  if◌then◌else◌, string_eq, or_else, is_some, is_missing, Bool-cases, inl, inr,
}
use agentic_test_system.Core.{
  Timestamp, TestCandidate, ExecutionEvidence, FailureDiagnosis, WorkflowState, Platform, Result,
  ok, err,
}
use agentic_test_system.Storage.Table.{find_row, upsert, all_mono, all-append_one, all-upsert}
use agentic_test_system.Storage.Database.{
  Moment, RunRecord, CheckpointRow, EventRecord, CandidateRow, EvidenceRow, DiagnosisRow, Database,
  Payload,
}
use agentic_test_system.Storage.Runs.{run_key, has_run, RunFields, target_run, store_run, save_run}
use agentic_test_system.Storage.Candidates.{
  candidate_key, candidate_row, moves_candidate, save_candidate,
}
use agentic_test_system.Storage.Evidence.{
  evidence_key, evidence_row, has_candidate, candidate_conflict, moves_evidence, store_evidence,
  store_checked, save_evidence,
}
use agentic_test_system.Storage.Diagnoses.{
  diagnosis_key, diagnosis_row, has_evidence, store_diagnosis, store_under, save_diagnosis,
}
use agentic_test_system.Storage.Checkpoints.{
  checkpoint_key, checkpoint_row, given_id, insert_checkpoint, stored, save_checkpoint,
}
use agentic_test_system.Storage.Events.{
  event_key, insert_event, insert_chosen, chosen_id, emit_event,
}
use agentic_test_system.Storage.Integrity.Invariant.{
  IsConsistent, has_run-upsert, evidence_candidates-upsert, diagnosis_evidence-upsert,
}

module _ (db : Database) (h : IsConsistent db) where
  runs-IsConsistent : (r : RunRecord) → IsConsistent (record db { runs = upsert run_key r db.runs })
  runs-IsConsistent r = record {
    checkpoint_runs =
        all_mono _ _ db.checkpoints (λ c. has_run-upsert db r c.run_id) h.checkpoint_runs;
    event_runs = all_mono _ _ db.events (λ c. has_run-upsert db r c.run_id) h.event_runs;
    candidate_runs =
        all_mono _ _ db.test_candidates (λ c. has_run-upsert db r c.run_id) h.candidate_runs;
    evidence_runs =
        all_mono _ _ db.execution_evidence (λ c. has_run-upsert db r c.run_id) h.evidence_runs;
    evidence_candidates = h.evidence_candidates;
    diagnosis_runs =
        all_mono _ _ db.failure_diagnoses (λ c. has_run-upsert db r c.run_id) h.diagnosis_runs;
    diagnosis_evidence = h.diagnosis_evidence;
  }

  store_run-IsConsistent : (r : Result RunRecord) → IsConsistent (store_run r db).1
  unfolding store_run
  store_run-IsConsistent (ok r) = runs-IsConsistent r
  store_run-IsConsistent (err e) = h

  pub save_run-IsConsistent :
      (r : Option RunRecord) (f : RunFields) (now : Timestamp)
      → IsConsistent (save_run r f now db).1
  unfolding save_run
  save_run-IsConsistent (some r) f now = store_run-IsConsistent (ok r)
  save_run-IsConsistent none f now = store_run-IsConsistent (target_run f now)

  -- A refused statement changes nothing.
  guarded-IsConsistent :
      {A : Type 0} (refused : Bool) (x : Result A) (r : Result A × Database)
      → (refused ≡ false → IsConsistent r.1)
      → IsConsistent (if◌then◌else◌ {A = Result A × Database} refused (x, db) r).1
  guarded-IsConsistent true x r k = h
  guarded-IsConsistent false x r k = k refl

  candidates-IsConsistent :
      (r : CandidateRow)
      → has_run db r.run_id ≡ true
      → moves_candidate r
          (find_row candidate_key r.candidate_id db.test_candidates)
          db.execution_evidence
        ≡ false
      → IsConsistent (record db { test_candidates = upsert candidate_key r db.test_candidates })
  candidates-IsConsistent r k m = record {
    checkpoint_runs = h.checkpoint_runs;
    event_runs = h.event_runs;
    candidate_runs = all-upsert candidate_key _ r db.test_candidates k h.candidate_runs;
    evidence_runs = h.evidence_runs;
    evidence_candidates = evidence_candidates-upsert r db m h.evidence_candidates;
    diagnosis_runs = h.diagnosis_runs;
    diagnosis_evidence = h.diagnosis_evidence;
  }

  pub save_candidate-IsConsistent : (c : TestCandidate) → IsConsistent (save_candidate c db).1
  unfolding save_candidate
  save_candidate-IsConsistent c =
      guarded-IsConsistent _ _ _
        (λ q. candidates-IsConsistent (candidate_row c) (ground arith) (ground arith))

  evidence-IsConsistent :
      (r : EvidenceRow)
      → has_run db r.run_id ≡ true
      → has_candidate db r.candidate_id r.run_id ≡ true
      → moves_evidence r
          (find_row evidence_key r.evidence_id db.execution_evidence)
          db.failure_diagnoses
        ≡ false
      → IsConsistent
          (record db { execution_evidence = upsert evidence_key r db.execution_evidence })
  evidence-IsConsistent r k c m = record {
    checkpoint_runs = h.checkpoint_runs;
    event_runs = h.event_runs;
    candidate_runs = h.candidate_runs;
    evidence_runs = all-upsert evidence_key _ r db.execution_evidence k h.evidence_runs;
    evidence_candidates = all-upsert evidence_key _ r db.execution_evidence c h.evidence_candidates;
    diagnosis_runs = h.diagnosis_runs;
    diagnosis_evidence = diagnosis_evidence-upsert r db m h.diagnosis_evidence;
  }

  store_evidence-IsConsistent :
      (r : EvidenceRow) (e : ExecutionEvidence) → IsConsistent (store_evidence r e db).1
  unfolding store_evidence
  store_evidence-IsConsistent r e =
      guarded-IsConsistent _ _ _
        (λ q. evidence-IsConsistent r (ground arith) (ground arith) (ground arith))

  checked_evidence-IsConsistent :
      (e : ExecutionEvidence) (c : Result (Unit {0})) → IsConsistent (store_checked e c db).1
  checked_evidence-IsConsistent e (ok _) = store_evidence-IsConsistent (evidence_row e) e
  checked_evidence-IsConsistent e (err x) = h

  pub save_evidence-IsConsistent : (e : ExecutionEvidence) → IsConsistent (save_evidence e db).1
  unfolding save_evidence
  save_evidence-IsConsistent e =
      checked_evidence-IsConsistent e (candidate_conflict db e.candidate_id e.run_id)

  diagnoses-IsConsistent :
      (r : DiagnosisRow)
      → has_run db r.run_id ≡ true
      → has_evidence db r.evidence_id r.run_id ≡ true
      → IsConsistent (record db { failure_diagnoses = upsert diagnosis_key r db.failure_diagnoses })
  diagnoses-IsConsistent r k e = record {
    checkpoint_runs = h.checkpoint_runs;
    event_runs = h.event_runs;
    candidate_runs = h.candidate_runs;
    evidence_runs = h.evidence_runs;
    evidence_candidates = h.evidence_candidates;
    diagnosis_runs = all-upsert diagnosis_key _ r db.failure_diagnoses k h.diagnosis_runs;
    diagnosis_evidence = all-upsert diagnosis_key _ r db.failure_diagnoses e h.diagnosis_evidence;
  }

  store_under-IsConsistent :
      (d : FailureDiagnosis) (run : Result String) → IsConsistent (store_under d run db).1
  unfolding store_diagnosis
  store_under-IsConsistent d (err e) = h
  store_under-IsConsistent d (ok run) =
      guarded-IsConsistent _ _ _
        (λ q. diagnoses-IsConsistent (diagnosis_row d run) (ground arith) (ground arith))

  pub save_diagnosis-IsConsistent :
      (d : FailureDiagnosis) (run : Option String) → IsConsistent (save_diagnosis d run db).1
  unfolding save_diagnosis
  save_diagnosis-IsConsistent d run = store_under-IsConsistent d _

  checkpoints-IsConsistent :
      (r : CheckpointRow)
      → has_run db r.run_id ≡ true
      → IsConsistent (record db { checkpoints = db.checkpoints ++ r ∷ [] })
  checkpoints-IsConsistent r k = record {
    checkpoint_runs = all-append_one _ db.checkpoints r k h.checkpoint_runs;
    event_runs = h.event_runs;
    candidate_runs = h.candidate_runs;
    evidence_runs = h.evidence_runs;
    evidence_candidates = h.evidence_candidates;
    diagnosis_runs = h.diagnosis_runs;
    diagnosis_evidence = h.diagnosis_evidence;
  }

  insert_checkpoint-IsConsistent : (r : CheckpointRow) → IsConsistent (insert_checkpoint r db).1
  unfolding insert_checkpoint
  insert_checkpoint-IsConsistent r =
      elim (Bool-cases (is_some (find_row checkpoint_key r.checkpoint_id db.checkpoints))) [
        | inl e ↦ rw e h
        | inr e ↦ rw e (
            guarded-IsConsistent (not (has_run db r.run_id)) _ _
              (λ q. checkpoints-IsConsistent r (ground arith)))
      ]

  events-IsConsistent :
      (r : EventRecord)
      → has_run db r.run_id ≡ true
      → IsConsistent (record db { events = db.events ++ r ∷ [] })
  events-IsConsistent r k = record {
    checkpoint_runs = h.checkpoint_runs;
    event_runs = all-append_one _ db.events r k h.event_runs;
    candidate_runs = h.candidate_runs;
    evidence_runs = h.evidence_runs;
    evidence_candidates = h.evidence_candidates;
    diagnosis_runs = h.diagnosis_runs;
    diagnosis_evidence = h.diagnosis_evidence;
  }

  insert_event-IsConsistent : (r : EventRecord) → IsConsistent (insert_event r db).1
  unfolding insert_event
  insert_event-IsConsistent r =
      elim (Bool-cases (is_some (find_row event_key r.event_id db.events))) [
        | inl e ↦ rw e h
        | inr e ↦ rw e (
            guarded-IsConsistent (not (has_run db r.run_id)) _ _
              (λ q. events-IsConsistent r (ground arith)))
      ]

  insert_chosen-IsConsistent :
      (event : String → EventRecord) (k : Result String) → IsConsistent (insert_chosen event k db).1
  insert_chosen-IsConsistent event (ok k) = insert_event-IsConsistent (event k)
  insert_chosen-IsConsistent event (err e) = h

  pub emit_event-IsConsistent :
      (run event_type : String) (payload : Payload) (at_node : Option String) (t : Option Moment)
      (k : Option String) (fresh : String) (now : Timestamp)
      → IsConsistent (emit_event run event_type payload at_node t k fresh now db).1
  unfolding emit_event
  emit_event-IsConsistent run event_type payload at_node t k fresh now =
      elim (Bool-cases (is_missing run)) [
        | inl e ↦ rw e h
        | inr e ↦ rw e (elim (Bool-cases (is_missing event_type)) [
          | inl e' ↦ rw e' h
          | inr e' ↦ rw e' (insert_chosen-IsConsistent _ (chosen_id k fresh))
        ])
      ]

module _ (p : Platform) (db : Database) (h : IsConsistent db) where
  stored-IsConsistent :
      (r : CheckpointRow) (s : WorkflowState) (x : Result (Unit {0}) × Database)
      → IsConsistent x.1
      → IsConsistent (stored p r s x).1
  stored-IsConsistent r s (ok u, d) k = k
  stored-IsConsistent r s (err e, d) k = k

  pub save_checkpoint-IsConsistent :
      (s : WorkflowState) (step : ℕ) (node : String) (k : Option String) (t : Option Timestamp)
      (fresh : String) (now : Timestamp)
      → IsConsistent (save_checkpoint p s step node k t fresh now db).1
  unfolding save_checkpoint checkpoint_row
  save_checkpoint-IsConsistent s step node k t fresh now = elim (Bool-cases (is_missing node)) [
    | inl e ↦ rw e h
    | inr e ↦ rw e (
        let r = checkpoint_row p s step node (given_id k fresh) (or_else t now) in
        stored-IsConsistent r s (insert_checkpoint r db) (insert_checkpoint-IsConsistent db h r))
  ]
