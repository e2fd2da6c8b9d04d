-- ===== src/Storage/Diagnoses.antt =====
-- storage/repository.py: `save_diagnosis`, `get_diagnosis` and `get_diagnoses`.
use agentic_test_system.Prelude.{
  String, Bool, false, ◌||◌, not, Option, none, some, List, map, strip, is_missing, ◌==◌, ◌<>◌,
  string_eq, filter, leb, if◌then◌else◌, sort_by, then_by, text_leb,
}
use agentic_test_system.Core.{
  FailureDiagnosis, value_error, integrity_error, Result, ok, err, Action,
}
use agentic_test_system.Storage.Table.{find_row, upsert}
use agentic_test_system.Storage.Database.{EvidenceRow, DiagnosisRow, Database}
use agentic_test_system.Storage.Runs.{has_run}
use agentic_test_system.Storage.Evidence.{evidence_key}

abbrev pub diagnosis_key : DiagnosisRow → String
diagnosis_key r = r.diagnosis_id

abbrev pub evidence_in_run : Option EvidenceRow → String → Bool
evidence_in_run none run = false
evidence_in_run (some e) run = e.run_id == run

-- Whether the foreign key (evidence_id, run_id) is met.
abbrev pub has_evidence : Database → String → String → Bool
has_evidence db k run = evidence_in_run (find_row evidence_key k db.execution_evidence) run

unfoldable pub diagnosis_row : FailureDiagnosis → String → DiagnosisRow
diagnosis_row d run = record {
  diagnosis_id = d.diagnosis_id;
  run_id = run;
  evidence_id = d.evidence_id;
  canonical_category = d.canonical_category;
  confidence = d.confidence;
  triage_engine = d.triage_engine;
  explanation = d.explanation;
  is_application_bug = d.is_application_bug;
  created_at = d.created_at;
}

unfoldable pub diagnosis_of_row : DiagnosisRow → FailureDiagnosis
diagnosis_of_row r = record {
  diagnosis_id = r.diagnosis_id;
  evidence_id = r.evidence_id;
  canonical_category = r.canonical_category;
  confidence = r.confidence;
  triage_engine = r.triage_engine;
  explanation = r.explanation;
  is_application_bug = r.is_application_bug;
  created_at = r.created_at;
}

-- The run that the row is written under: that of the evidence, and the caller's must agree.
unfoldable pub effective_run : String → Option EvidenceRow → Option String → Result String
effective_run k none none =
    err (value_error ("Evidence '" <> k <> "' not found; run_id must be provided"))
effective_run k none (some run) = ok run
effective_run k (some e) none = ok e.run_id
effective_run k (some e) (some run) =
    if run == e.run_id
    then ok e.run_id
    else err (
        value_error (
          "Run consistency violation: evidence '" <> k <> "' belongs to run '" <> e.run_id
          <> "', but diagnosis specifies run '" <> run <> "'"))

unfoldable pub store_diagnosis : DiagnosisRow → FailureDiagnosis → Action Database FailureDiagnosis
store_diagnosis r d db =
    if not (has_run db r.run_id) || not (has_evidence db r.evidence_id r.run_id)
    then (err (integrity_error "FOREIGN KEY constraint failed"), db)
    else (ok d, record db { failure_diagnoses = upsert diagnosis_key r db.failure_diagnoses })

abbrev pub store_under : FailureDiagnosis → Result String → Action Database FailureDiagnosis
store_under d (ok run) db = store_diagnosis (diagnosis_row d run) d db
store_under d (err e) db = (err e, db)

unfoldable pub save_diagnosis : FailureDiagnosis → Option String → Action Database FailureDiagnosis
unfolding store_diagnosis diagnosis_row effective_run
save_diagnosis d run db =
    store_under d
      (effective_run d.evidence_id (find_row evidence_key d.evidence_id db.execution_evidence) run)
      db

found_diagnosis : Option DiagnosisRow → Option FailureDiagnosis
unfolding diagnosis_of_row
found_diagnosis none = none
found_diagnosis (some r) = some (diagnosis_of_row r)

unfoldable pub get_diagnosis : String → Action Database (Option FailureDiagnosis)
unfolding found_diagnosis
get_diagnosis k db =
    if is_missing k
    then (err (value_error "diagnosis_id must be a non-empty string"), db)
    else (ok (found_diagnosis (find_row diagnosis_key (strip k) db.failure_diagnoses)), db)

-- ORDER BY created_at ASC, diagnosis_id ASC
abbrev diagnosis_order : DiagnosisRow → DiagnosisRow → Bool
diagnosis_order =
    then_by (λ a b. leb a.created_at b.created_at) (λ a b. text_leb a.diagnosis_id b.diagnosis_id)

unfoldable pub get_diagnoses : String → Action Database (List FailureDiagnosis)
unfolding diagnosis_of_row
get_diagnoses k db =
    if is_missing k then (err (value_error "run_id must be a non-empty string"), db) else (
      ok (
          map diagnosis_of_row
            (sort_by diagnosis_order (filter (λ r. r.run_id == strip k) db.failure_diagnoses))),
      db,
    )
