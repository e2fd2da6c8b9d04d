-- ===== src/Storage/Evidence.antt =====
-- storage/repository.py: `save_evidence`, `get_evidence` and `get_run_evidence`.
use agentic_test_system.Prelude.{
  String, Bool, true, false, ◌&&◌, ◌||◌, not, Option, none, some, List, map, strip, is_missing,
  ◌==◌, ◌<>◌, string_eq, any, filter, leb, if◌then◌else◌, is_none, sort_by, then_by, text_leb,
}
use agentic_test_system.Core.{
  ExecutionEvidence, value_error, integrity_error, Result, ok, err, Action,
}
use agentic_test_system.Storage.Table.{find_row, upsert}
use agentic_test_system.Storage.Database.{CandidateRow, EvidenceRow, DiagnosisRow, Database}
use agentic_test_system.Storage.Runs.{has_run}
use agentic_test_system.Storage.Candidates.{candidate_key}

abbrev pub evidence_key : EvidenceRow → String
evidence_key r = r.evidence_id

abbrev pub in_run : Option CandidateRow → String → Bool
in_run none run = false
in_run (some c) run = c.run_id == run

-- Whether the foreign key (candidate_id, run_id) is met; a null candidate meets it.
abbrev pub has_candidate : Database → Option String → String → Bool
has_candidate db none run = true
has_candidate db (some k) run = in_run (find_row candidate_key k db.test_candidates) run

abbrev pub refers_to_evidence : String → String → DiagnosisRow → Bool
refers_to_evidence k r d = d.evidence_id == k && d.run_id == r

-- An update that moves evidence to another run breaks the key that its diagnoses refer to.
abbrev pub moves_evidence : EvidenceRow → Option EvidenceRow → List DiagnosisRow → Bool
moves_evidence r none diagnoses = false
moves_evidence r (some old) diagnoses =
    not (old.run_id == r.run_id) && any (refers_to_evidence r.evidence_id old.run_id) diagnoses

unfoldable pub evidence_row : ExecutionEvidence → EvidenceRow
evidence_row e = record {
  evidence_id = e.evidence_id;
  run_id = e.run_id;
  candidate_id = e.candidate_id;
  exit_code = e.exit_code;
  stdout = e.stdout;
  stderr = e.stderr;
  duration_sec = e.duration_sec;
  timed_out = e.timed_out;
  line_coverage = e.line_coverage;
  branch_coverage = e.branch_coverage;
  line_coverage_delta = e.line_coverage_delta;
  branch_coverage_delta = e.branch_coverage_delta;
  traceback = e.traceback;
  created_at = e.created_at;
}

unfoldable pub evidence_of_row : EvidenceRow → ExecutionEvidence
evidence_of_row r = record {
  evidence_id = r.evidence_id;
  run_id = r.run_id;
  candidate_id = r.candidate_id;
  exit_code = r.exit_code;
  stdout = r.stdout;
  stderr = r.stderr;
  duration_sec = r.duration_sec;
  timed_out = r.timed_out;
  line_coverage = r.line_coverage;
  branch_coverage = r.branch_coverage;
  line_coverage_delta = r.line_coverage_delta;
  branch_coverage_delta = r.branch_coverage_delta;
  traceback = r.traceback;
  created_at = r.created_at;
}

-- The check before the statement: a candidate that is there belongs to the run of the evidence.
abbrev conflict : String → Option CandidateRow → String → Result (Unit {0})
conflict k none run = ok tt
conflict k (some c) run =
    if c.run_id == run
    then ok tt
    else err (
        value_error (
          "Run consistency violation: candidate '" <> k <> "' belongs to run '" <> c.run_id
          <> "', but evidence specifies run '" <> run <> "'"))

abbrev pub candidate_conflict : Database → Option String → String → Result (Unit {0})
candidate_conflict db none run = ok tt
candidate_conflict db (some k) run = conflict k (find_row candidate_key k db.test_candidates) run

unfoldable pub store_evidence : EvidenceRow → ExecutionEvidence → Action Database ExecutionEvidence
store_evidence r e db =
    if not (has_run db r.run_id)
      || not (has_candidate db r.candidate_id r.run_id)
      || moves_evidence r (find_row evidence_key r.evidence_id db.execution_evidence)
          db.failure_diagnoses
    then (err (integrity_error "FOREIGN KEY constraint failed"), db)
    else (ok e, record db { execution_evidence = upsert evidence_key r db.execution_evidence })

abbrev pub store_checked : ExecutionEvidence → Result (Unit {0}) → Action Database ExecutionEvidence
store_checked e (ok _) db = store_evidence (evidence_row e) e db
store_checked e (err x) db = (err x, db)

unfoldable pub save_evidence : ExecutionEvidence → Action Database ExecutionEvidence
unfolding store_evidence evidence_row
save_evidence e db = store_checked e (candidate_conflict db e.candidate_id e.run_id) db

found_evidence : Option EvidenceRow → Option ExecutionEvidence
unfolding evidence_of_row
found_evidence none = none
found_evidence (some r) = some (evidence_of_row r)

unfoldable pub get_evidence : String → Action Database (Option ExecutionEvidence)
unfolding found_evidence
get_evidence k db =
    if is_missing k
    then (err (value_error "evidence_id must be a non-empty string"), db)
    else (ok (found_evidence (find_row evidence_key (strip k) db.execution_evidence)), db)

-- ORDER BY created_at ASC, evidence_id ASC
abbrev evidence_order : EvidenceRow → EvidenceRow → Bool
evidence_order =
    then_by (λ a b. leb a.created_at b.created_at) (λ a b. text_leb a.evidence_id b.evidence_id)

abbrev is_candidate : Option String → String → Bool
is_candidate none k = false
is_candidate (some c) k = c == k

-- The WHERE clause beyond the run: baseline rows, the rows of one candidate, or all.
abbrev selects : Bool → Option String → EvidenceRow → Bool
selects true candidate r = is_none r.candidate_id
selects false (some k) r = is_candidate r.candidate_id (strip k)
selects false none r = true

unfoldable pub get_run_evidence :
    String → Option String → Bool → Action Database (List ExecutionEvidence)
unfolding evidence_of_row
get_run_evidence k candidate baseline_only db =
    if is_missing k then (err (value_error "run_id must be a non-empty string"), db) else (
      ok (
          map evidence_of_row (
            sort_by evidence_order (
              filter (λ r. r.run_id == strip k && selects baseline_only candidate r)
                db.execution_evidence))),
      db,
    )
