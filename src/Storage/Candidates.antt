-- ===== src/Storage/Candidates.antt =====
-- storage/repository.py: `save_candidate`, `get_candidate` and `get_candidates`.
use agentic_test_system.Prelude.{
  String, Bool, false, ◌&&◌, ◌||◌, not, Option, none, some, List, [], map, strip, is_missing, ◌==◌,
  nat_eq, string_eq, any, filter, leb, if◌then◌else◌, sort_by, then_by, text_leb,
}
use agentic_test_system.Core.{TestCandidate, value_error, integrity_error, ok, err, Action}
use agentic_test_system.Storage.Table.{find_row, upsert}
use agentic_test_system.Storage.Database.{CandidateRow, EvidenceRow, Database}
use agentic_test_system.Storage.Runs.{has_run}

abbrev pub candidate_key : CandidateRow → String
candidate_key r = r.candidate_id

-- Whether evidence refers to the candidate `k` of the run `r`.
abbrev pub refers_to_candidate : String → String → EvidenceRow → Bool
refers_to_candidate k r e = elim e.candidate_id [ none ↦ false | some c ↦ c == k && e.run_id == r ]

-- An update that moves a candidate to another run breaks the key that its evidence refers to.
abbrev pub moves_candidate : CandidateRow → Option CandidateRow → List EvidenceRow → Bool
moves_candidate r none evidence = false
moves_candidate r (some old) evidence =
    not (old.run_id == r.run_id) && any (refers_to_candidate r.candidate_id old.run_id) evidence

unfoldable pub candidate_row : TestCandidate → CandidateRow
candidate_row c = record {
  candidate_id = c.candidate_id;
  run_id = c.run_id;
  target_symbol = c.target_symbol_name;
  test_file_path = c.test_file_path;
  candidate_code = c.candidate_code;
  validation_status = c.validation_status;
  quarantine_reason = c.quarantine_reason;
  retry_count = c.retry_count;
  created_at = c.created_at;
}

-- The entity that a row is read back as; the table has no column for the imports.
unfoldable pub candidate_of_row : CandidateRow → TestCandidate
candidate_of_row r = record {
  candidate_id = r.candidate_id;
  run_id = r.run_id;
  target_symbol_name = r.target_symbol;
  test_file_path = r.test_file_path;
  candidate_code = r.candidate_code;
  imports = [];
  validation_status = r.validation_status;
  quarantine_reason = r.quarantine_reason;
  retry_count = r.retry_count;
  created_at = r.created_at;
}

unfoldable pub store_candidate : CandidateRow → TestCandidate → Action Database TestCandidate
store_candidate r c db =
    if not (has_run db r.run_id)
      || moves_candidate r (find_row candidate_key r.candidate_id db.test_candidates)
          db.execution_evidence
    then (err (integrity_error "FOREIGN KEY constraint failed"), db)
    else (ok c, record db { test_candidates = upsert candidate_key r db.test_candidates })

unfoldable pub save_candidate : TestCandidate → Action Database TestCandidate
unfolding store_candidate candidate_row
save_candidate c = store_candidate (candidate_row c) c

found_candidate : Option CandidateRow → Option TestCandidate
unfolding candidate_of_row
found_candidate none = none
found_candidate (some r) = some (candidate_of_row r)

unfoldable pub get_candidate : String → Action Database (Option TestCandidate)
unfolding found_candidate
get_candidate k db =
    if is_missing k
    then (err (value_error "candidate_id must be a non-empty string"), db)
    else (ok (found_candidate (find_row candidate_key (strip k) db.test_candidates)), db)

-- ORDER BY created_at ASC, candidate_id ASC
abbrev candidate_order : CandidateRow → CandidateRow → Bool
candidate_order =
    then_by (λ a b. leb a.created_at b.created_at) (λ a b. text_leb a.candidate_id b.candidate_id)

unfoldable pub get_candidates : String → Action Database (List TestCandidate)
unfolding candidate_of_row
get_candidates k db =
    if is_missing k then (err (value_error "run_id must be a non-empty string"), db) else (
      ok (
          map candidate_of_row
            (sort_by candidate_order (filter (λ r. r.run_id == strip k) db.test_candidates))),
      db,
    )
