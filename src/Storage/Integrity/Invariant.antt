-- ===== src/Storage/Integrity/Invariant.antt =====
-- The foreign keys of the schema as an invariant, and how lookups answer after an upsert.
use agentic_test_system.Prelude.{
  String, ◌≡◌, refl, true, false, Option, none, some, arith, ◌==◌, string_eq, all, Option-cases,
  Bool-cases, inl, inr, ◌⊎◌,
}
use text.Mathlib.TextEquality.{eq_iff}
use agentic_test_system.Storage.Table.{find_row, upsert, find_row-upsert, all_mono, all_mono_none}
use agentic_test_system.Storage.Database.{
  RunRecord, CandidateRow, EvidenceRow, DiagnosisRow, Database,
}
use agentic_test_system.Storage.Runs.{run_key, has_run}
use agentic_test_system.Storage.Candidates.{candidate_key, refers_to_candidate, moves_candidate}
use agentic_test_system.Storage.Evidence.{
  evidence_key, has_candidate, refers_to_evidence, moves_evidence,
}
use agentic_test_system.Storage.Diagnoses.{has_evidence}

pub record IsConsistent (db : Database) : Type 0 where
  pub checkpoint_runs : all (λ c. has_run db c.run_id) db.checkpoints ≡ true
  pub event_runs : all (λ e. has_run db e.run_id) db.events ≡ true
  pub candidate_runs : all (λ c. has_run db c.run_id) db.test_candidates ≡ true
  pub evidence_runs : all (λ e. has_run db e.run_id) db.execution_evidence ≡ true
  pub evidence_candidates :
      all (λ e. has_candidate db e.candidate_id e.run_id) db.execution_evidence ≡ true
  pub diagnosis_runs : all (λ d. has_run db d.run_id) db.failure_diagnoses ≡ true
  pub diagnosis_evidence :
      all (λ d. has_evidence db d.evidence_id d.run_id) db.failure_diagnoses ≡ true

-- An upsert of a run keeps every run that was there.
pub has_run-upsert :
    (db : Database) (r : RunRecord) (k : String)
    → has_run db k ≡ true
    → has_run (record db { runs = upsert run_key r db.runs }) k ≡ true
has_run-upsert db r k h = ground (arith, find_row-upsert run_key k r db.runs)

-- The run that was just written is there.
pub has_run-upsert_self :
    (db : Database) (r : RunRecord)
    → has_run (record db { runs = upsert run_key r db.runs }) r.run_id ≡ true
has_run-upsert_self db r =
    ground (arith, find_row-upsert run_key r.run_id r db.runs, eq_iff r.run_id r.run_id)

-- What an upsert of a candidate leaves to the evidence that refers to candidates.
module _ (r : CandidateRow) (db : Database) where
  abbrev with_candidate : Database
  with_candidate = record db { test_candidates = upsert candidate_key r db.test_candidates }

  abbrev old_candidate : Option CandidateRow
  old_candidate = find_row candidate_key r.candidate_id db.test_candidates

  kept_if_new :
      (c : Option String) (run : String)
      → old_candidate ≡ none
      → has_candidate db c run ≡ true
      → has_candidate with_candidate c run ≡ true
  kept_if_new none run o h = refl
  kept_if_new (some c) run o h =
      ground (arith, find_row-upsert candidate_key c r db.test_candidates, eq_iff r.candidate_id c)

  kept_if_same_run :
      (c : Option String) (run : String) (old : CandidateRow)
      → old_candidate ≡ some old
      → (old.run_id == r.run_id) ≡ true
      → has_candidate db c run ≡ true
      → has_candidate with_candidate c run ≡ true
  kept_if_same_run none run old o q h = refl
  kept_if_same_run (some c) run old o q h = ground (
    arith,
    find_row-upsert candidate_key c r db.test_candidates,
    eq_iff r.candidate_id c,
    eq_iff old.run_id r.run_id,
    eq_iff r.run_id run,
    eq_iff old.run_id run,
  )

  kept_if_unreferred :
      (e : EvidenceRow) (old : CandidateRow)
      → old_candidate ≡ some old
      → has_candidate db e.candidate_id e.run_id ≡ true
      → refers_to_candidate r.candidate_id old.run_id e ≡ false
      → has_candidate with_candidate e.candidate_id e.run_id ≡ true
  kept_if_unreferred e old o h n = elim (Option-cases e.candidate_id) [
    | inl q ↦ rw q
    | inr (c, q) ↦ ground (
      arith,
      find_row-upsert candidate_key c r db.test_candidates,
      eq_iff r.candidate_id c,
      eq_iff c r.candidate_id,
      eq_iff old.run_id e.run_id,
      eq_iff e.run_id old.run_id,
    )
  ]

  -- An upsert of a candidate that moves no referred one keeps the key of all evidence.
  pub evidence_candidates-upsert :
      moves_candidate r old_candidate db.execution_evidence ≡ false
      → all (λ e. has_candidate db e.candidate_id e.run_id) db.execution_evidence ≡ true
      → all (λ e. has_candidate with_candidate e.candidate_id e.run_id) db.execution_evidence ≡ true
  evidence_candidates-upsert m h = elim (Option-cases old_candidate) [
    | inl o ↦ all_mono _ _ db.execution_evidence (λ e. kept_if_new e.candidate_id e.run_id o) h
    | inr (old, o) ↦ elim (Bool-cases (old.run_id == r.run_id)) [
      | inl q ↦
          all_mono _ _ db.execution_evidence (λ e. kept_if_same_run e.candidate_id e.run_id old o q)
            h
      | inr q ↦
          all_mono_none (λ e. has_candidate db e.candidate_id e.run_id) _
            (refers_to_candidate r.candidate_id old.run_id) db.execution_evidence
            (λ e. kept_if_unreferred e old o) (ground arith) h
    ]
  ]

-- The same for an upsert of evidence and the diagnoses that refer to it.
module _ (r : EvidenceRow) (db : Database) where
  abbrev with_evidence : Database
  with_evidence = record db { execution_evidence = upsert evidence_key r db.execution_evidence }

  abbrev old_evidence : Option EvidenceRow
  old_evidence = find_row evidence_key r.evidence_id db.execution_evidence

  diagnosis_kept :
      (d : DiagnosisRow)
      → has_evidence db d.evidence_id d.run_id ≡ true
      → (old : EvidenceRow) → old_evidence ≡ some old
      → ((old.run_id == r.run_id) ≡ true) ⊎ (refers_to_evidence r.evidence_id old.run_id d ≡ false)
      → has_evidence with_evidence d.evidence_id d.run_id ≡ true
  diagnosis_kept d h old o m = ground (
    arith,
    find_row-upsert evidence_key d.evidence_id r db.execution_evidence,
    eq_iff r.evidence_id d.evidence_id,
    eq_iff d.evidence_id r.evidence_id,
    eq_iff old.run_id r.run_id,
    eq_iff r.run_id d.run_id,
    eq_iff old.run_id d.run_id,
    eq_iff d.run_id old.run_id,
  )

  diagnosis_kept_if_new :
      (d : DiagnosisRow)
      → old_evidence ≡ none
      → has_evidence db d.evidence_id d.run_id ≡ true
      → has_evidence with_evidence d.evidence_id d.run_id ≡ true
  diagnosis_kept_if_new d o h = ground (
    arith,
    find_row-upsert evidence_key d.evidence_id r db.execution_evidence,
    eq_iff r.evidence_id d.evidence_id,
  )

  pub diagnosis_evidence-upsert :
      moves_evidence r old_evidence db.failure_diagnoses ≡ false
      → all (λ d. has_evidence db d.evidence_id d.run_id) db.failure_diagnoses ≡ true
      → all (λ d. has_evidence with_evidence d.evidence_id d.run_id) db.failure_diagnoses ≡ true
  diagnosis_evidence-upsert m h = elim (Option-cases old_evidence) [
    | inl o ↦ all_mono _ _ db.failure_diagnoses (λ d. diagnosis_kept_if_new d o) h
    | inr (old, o) ↦ elim (Bool-cases (old.run_id == r.run_id)) [
      | inl q ↦ all_mono _ _ db.failure_diagnoses (λ d k. diagnosis_kept d k old o (inl q)) h
      | inr q ↦
          all_mono_none (λ d. has_evidence db d.evidence_id d.run_id) _
            (refers_to_evidence r.evidence_id old.run_id) db.failure_diagnoses
            (λ d k n. diagnosis_kept d k old o (inr n)) (ground arith) h
    ]
  ]
