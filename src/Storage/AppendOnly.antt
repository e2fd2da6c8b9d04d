-- ===== src/Storage/AppendOnly.antt =====
-- The tables of the event log (storage/events.py) and of the checkpoints (storage/repository.py),
-- before and after each write.
use agentic_test_system.Prelude.{
  ℕ, String, ◌≡◌, refl, ◌⊎◌, inl, inr, Bool, true, false, Option, none, some, List, [], ◌∷◌, ◌++◌,
  arith, is_missing, is_some, not, strip, or_else, if◌then◌else◌,
}
use agentic_test_system.Core.{
  Timestamp, TestCandidate, ExecutionEvidence, FailureDiagnosis, WorkflowState, Platform, Result,
  ok, err, value_error, integrity_error,
}
use agentic_test_system.Storage.Database.{
  Moment, in_utc, RunRecord, EventRecord, CheckpointRow, Database, Payload,
}
use agentic_test_system.Storage.Table.{find_row}
use agentic_test_system.Storage.Runs.{has_run, RunFields, target_run, store_run, save_run}
use agentic_test_system.Storage.Candidates.{save_candidate}
use agentic_test_system.Storage.Evidence.{
  candidate_conflict, store_evidence, store_checked, save_evidence,
}
use agentic_test_system.Storage.Diagnoses.{store_diagnosis, store_under, save_diagnosis}
use agentic_test_system.Storage.Checkpoints.{
  CheckpointRecord, checkpoint_key, insert_checkpoint, stored, checkpoint_row, given_id,
  save_checkpoint,
}
use agentic_test_system.Storage.Events.{
  event_key, insert_event, insert_chosen, chosen_id, emit_event,
}
use agentic_test_system.Storage.History.{
  Write, write_run, write_candidate, write_evidence, write_diagnosis, write_checkpoint, write_event,
  perform,
}

-- The second list is the first, or the first with one more element at its end.
abbrev pub Grows : {A : Type 0} → List A → List A → Type 0
Grows {A = A} xs ys = (ys ≡ xs) ⊎ ((x : A) × (ys ≡ xs ++ x ∷ []))

-- What a write leaves of the two tables that are only appended to.
pub record IsAppend (db db' : Database) : Type 0 where
  pub events_grow : Grows db.events db'.events
  pub checkpoints_grow : Grows db.checkpoints db'.checkpoints

module _ (db : Database) where
  IsAppend-same :
      (db' : Database) → db'.events ≡ db.events → db'.checkpoints ≡ db.checkpoints → IsAppend db db'
  IsAppend-same db' e c = record { events_grow = inl e; checkpoints_grow = inl c }

  store_run-IsAppend : (r : Result RunRecord) → IsAppend db (store_run r db).1
  unfolding store_run
  store_run-IsAppend (ok r) = IsAppend-same _ refl refl
  store_run-IsAppend (err e) = IsAppend-same _ refl refl

  save_run-IsAppend :
      (r : Option RunRecord) (f : RunFields) (now : Timestamp) → IsAppend db (save_run r f now db).1
  unfolding save_run
  save_run-IsAppend (some r) f now = store_run-IsAppend (ok r)
  save_run-IsAppend none f now = store_run-IsAppend (target_run f now)

  save_candidate-IsAppend : (c : TestCandidate) → IsAppend db (save_candidate c db).1
  unfolding save_candidate
  save_candidate-IsAppend c = IsAppend-same _ (ground arith) (ground arith)

  store_checked-IsAppend :
      (e : ExecutionEvidence) (c : Result (Unit {0})) → IsAppend db (store_checked e c db).1
  unfolding store_evidence
  store_checked-IsAppend e (ok u) = IsAppend-same _ (ground arith) (ground arith)
  store_checked-IsAppend e (err x) = IsAppend-same _ refl refl

  save_evidence-IsAppend : (e : ExecutionEvidence) → IsAppend db (save_evidence e db).1
  unfolding save_evidence
  save_evidence-IsAppend e =
      store_checked-IsAppend e (candidate_conflict db e.candidate_id e.run_id)

  store_under-IsAppend :
      (d : FailureDiagnosis) (run : Result String) → IsAppend db (store_under d run db).1
  unfolding store_diagnosis
  store_under-IsAppend d (ok run) = IsAppend-same _ (ground arith) (ground arith)
  store_under-IsAppend d (err e) = IsAppend-same _ refl refl

  save_diagnosis-IsAppend :
      (d : FailureDiagnosis) (run : Option String) → IsAppend db (save_diagnosis d run db).1
  unfolding save_diagnosis
  save_diagnosis-IsAppend d run = store_under-IsAppend d _

  guarded-IsAppend :
      {A : Type 0} (refused : Bool) (x : Result A) (r : Result A × Database)
      → IsAppend db r.1
      → IsAppend db (if◌then◌else◌ {A = Result A × Database} refused (x, db) r).1
  guarded-IsAppend true x r h = IsAppend-same _ refl refl
  guarded-IsAppend false x r h = h

  twice_guarded-IsAppend :
      {A : Type 0} (b c : Bool) (x y : Result A) (r : Result A × Database)
      → IsAppend db r.1
      → IsAppend db
          (if◌then◌else◌ {A = Result A × Database} b
            (x, db)
            (if◌then◌else◌ {A = Result A × Database} c (y, db) r)).1
  twice_guarded-IsAppend b c x y r h = guarded-IsAppend b x _ (guarded-IsAppend c y r h)

  insert_event-IsAppend : (r : EventRecord) → IsAppend db (insert_event r db).1
  unfolding insert_event
  insert_event-IsAppend r =
      twice_guarded-IsAppend {A = EventRecord} (is_some (find_row event_key r.event_id db.events))
        (not (has_run db r.run_id))
        (err (integrity_error "UNIQUE constraint failed: events.event_id"))
        (err (integrity_error "FOREIGN KEY constraint failed"))
        (ok r, record db { events = db.events ++ r ∷ [] })
        (record { events_grow = inr (r, refl); checkpoints_grow = inl refl })

  insert_chosen-IsAppend :
      (event : String → EventRecord) (k : Result String) → IsAppend db (insert_chosen event k db).1
  insert_chosen-IsAppend event (ok k) = insert_event-IsAppend (event k)
  insert_chosen-IsAppend event (err e) = IsAppend-same _ refl refl

  emit_event-IsAppend :
      (run event_type : String) (payload : Payload) (at_node : Option String) (t : Option Moment)
      (k : Option String) (fresh : String) (now : Timestamp)
      → IsAppend db (emit_event run event_type payload at_node t k fresh now db).1
  unfolding emit_event
  emit_event-IsAppend run event_type payload at_node t k fresh now =
      twice_guarded-IsAppend {A = EventRecord} (is_missing run) (is_missing event_type)
        (err (value_error "run_id must be a non-empty string"))
        (err (value_error "event_type must be a non-empty string"))
        (insert_chosen
          (λ event_id. record {
            event_id = event_id;
            run_id = strip run;
            event_type = strip event_type;
            node_name = at_node;
            payload = payload;
            emitted_at = or_else t (in_utc now);
          })
          (chosen_id k fresh) db)
        (insert_chosen-IsAppend _ (chosen_id k fresh))

  insert_checkpoint-IsAppend : (r : CheckpointRow) → IsAppend db (insert_checkpoint r db).1
  unfolding insert_checkpoint
  insert_checkpoint-IsAppend r =
      twice_guarded-IsAppend {A = Unit {0}}
        (is_some (find_row checkpoint_key r.checkpoint_id db.checkpoints))
        (not (has_run db r.run_id))
        (err (integrity_error "UNIQUE constraint failed: checkpoints.checkpoint_id"))
        (err (integrity_error "FOREIGN KEY constraint failed"))
        (ok tt, record db { checkpoints = db.checkpoints ++ r ∷ [] })
        (record { events_grow = inl refl; checkpoints_grow = inr (r, refl) })

module _ (p : Platform) (db : Database) where
  stored-IsAppend :
      (r : CheckpointRow) (s : WorkflowState) (x : Result (Unit {0}) × Database)
      → IsAppend db x.1
      → IsAppend db (stored p r s x).1
  stored-IsAppend r s (ok u, d) h = h
  stored-IsAppend r s (err e, d) h = h

  save_checkpoint-IsAppend :
      (s : WorkflowState) (step : ℕ) (node : String) (k : Option String) (t : Option Timestamp)
      (fresh : String) (now : Timestamp)
      → IsAppend db (save_checkpoint p s step node k t fresh now db).1
  unfolding save_checkpoint checkpoint_row
  save_checkpoint-IsAppend s step node k t fresh now =
      let r = checkpoint_row p s step node (given_id k fresh) (or_else t now) in
      guarded-IsAppend db {A = CheckpointRecord} (is_missing node)
        (err (value_error "node_name must be a non-empty string"))
        (stored p r s (insert_checkpoint r db))
        (stored-IsAppend r s (insert_checkpoint r db) (insert_checkpoint-IsAppend db r))

  -- No write of the repository or the event store, whether it succeeds or raises, changes or removes
  -- an event or a checkpoint: each of the two tables is as before, or has one more row at its end.
  pub perform-IsAppend : (w : Write) → IsAppend db (perform p w db)
  unfolding perform
  perform-IsAppend (write_run r f now) = save_run-IsAppend db r f now
  perform-IsAppend (write_candidate c) = save_candidate-IsAppend db c
  perform-IsAppend (write_evidence e) = save_evidence-IsAppend db e
  perform-IsAppend (write_diagnosis d run) = save_diagnosis-IsAppend db d run
  perform-IsAppend (write_checkpoint s step node k t fresh now) =
      save_checkpoint-IsAppend s step node k t fresh now
  perform-IsAppend (write_event run event_type payload at_node t k fresh now) =
      emit_event-IsAppend db run event_type payload at_node t k fresh now
