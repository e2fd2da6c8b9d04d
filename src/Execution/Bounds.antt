-- ===== src/Execution/Bounds.antt =====
-- The size of the registry of coverage settings in execution/service.py.
use agentic_test_system.Prelude.{
  ◌+◌, ◌≤◌, ◌<◌, String, ◌≡◌, refl, Bool, true, false, Option, none, some, List, [], ◌∷◌, arith,
  length, leb, Bool-cases, inl, inr, string_eq,
}
use agentic_test_system.Core.{
  FilePath, ExecutionPlan, TestCandidate, ExecutionEvidence, Result, ok, err, continue,
}
use agentic_test_system.Execution.Sources.{SourceTree, compute_tree_hash}
use agentic_test_system.Execution.Settings.{
  CoverageSettings, Registry, drop_oldest, put, register_evidence_settings,
  release_evidence_settings,
}
use agentic_test_system.Execution.Session.{ExecutionConfig, ExecutionTools, Session, Observation}
use agentic_test_system.Execution.Execute.{deltas, verified_or, checked_after}
use agentic_test_system.Execution.Service.{
  Job, remember, close_session, line_of, branch_of, evidence_for, registers, packaged_evidence,
  prepare, contained, attempt_job, settle, released, clean_up, fresh_session, guarded, start_job,
  checked_job, start_checked, execute,
}

put-length :
    (k : String) (s : CoverageSettings) (xs : Registry) → length (put k s xs) ≤ length xs + 1
unfolding put
put-length k s [] = omega arith
put-length k s (x ∷ xs) = ground (arith, put-length k s xs)

drop_oldest-length : (xs : Registry) → 50 ≤ length xs → length (drop_oldest xs) + 1 ≤ length xs
unfolding drop_oldest
drop_oldest-length [] h = omega arith
drop_oldest-length (x ∷ xs) h = omega arith

register_evidence_settings-length :
    (k : String) (s : CoverageSettings) (xs : Registry)
    → length xs ≤ 50
    → length (register_evidence_settings k s xs) ≤ 50
unfolding register_evidence_settings
register_evidence_settings-length k s xs h = elim (Bool-cases (leb 50 (length xs))) [
  | inl full ↦
      rw full (omega (arith, put-length k s (drop_oldest xs), drop_oldest-length xs (ground arith)))
  | inr free ↦
      rw free (let below : length xs < 50 = ground arith in omega (arith, put-length k s xs))
]

release_evidence_settings-length :
    (k : String) (xs : Registry) → length (release_evidence_settings k xs) ≤ length xs
unfolding release_evidence_settings
release_evidence_settings-length k [] = omega arith
release_evidence_settings-length k (x ∷ xs) = ground (arith, release_evidence_settings-length k xs)

module _ {World : Type 0} (tools : ExecutionTools World) (config : ExecutionConfig) where
  -- At most fifty settings are behind a step.
  record IsBounded {A : Type 0} (x : Result A × Session World) : Type 0 where
    bounded : length x.1.evidence_settings ≤ 50

  continue-IsBounded :
      {A B : Type 0} (f : A → Session World → Result B × Session World) (r : Result A)
      (m : Session World)
      → length m.evidence_settings ≤ 50
      → ((a : A) (m' : Session World) → length m'.evidence_settings ≤ 50 → IsBounded (f a m'))
      → IsBounded (continue f r m)
  continue-IsBounded f (ok a) m b k = k a m b
  continue-IsBounded f (err e) m b k = record { bounded = b }

  remember-length :
      (registers : Bool) (e : ExecutionEvidence) (o : Observation) (m : Session World)
      → length m.evidence_settings ≤ 50
      → length (remember tools config registers e o m).evidence_settings ≤ 50
  unfolding remember
  remember-length true e (raw, summary, coverage) m b =
      register_evidence_settings-length e.evidence_id _ m.evidence_settings b
  remember-length false e (raw, summary, coverage) m b = b

  packaged_evidence-IsBounded :
      (job : Job) (o : Observation) (m : Session World)
      → length m.evidence_settings ≤ 50
      → IsBounded (packaged_evidence tools config job o m)
  unfolding packaged_evidence close_session
  packaged_evidence-IsBounded job o m b =
      continue-IsBounded (close_session tools config job o)
        (deltas tools config m.evidence_settings o.0 (line_of tools config o)
          (branch_of tools config o) job.baseline)
        m b
        (λ d m' b.
          let w1 = (tools.uuid4_hex12 m'.world).1 in
          let e =
            evidence_for tools config job o d (tools.uuid4_hex12 m'.world).0 (tools.now w1).0 in
          record {
            bounded =
                remember-length (registers tools config job o) e o
                  (record m' { world = (tools.now w1).1 }) b;
          })

  prepare-IsBounded :
      (job : Job) (m : Session World)
      → length m.evidence_settings ≤ 50
      → IsBounded (prepare tools config job m)
  unfolding prepare
  prepare-IsBounded job m b = record { bounded = ground arith }

  verified_or-settings :
      {A : Type 0} (r : Result A) (v : Result (Unit {0})) (w : World) (m : Session World)
      → (verified_or tools config r (v, w) m).1.evidence_settings ≡ m.evidence_settings
  verified_or-settings r (ok u) w m = refl
  verified_or-settings r (err e) w m = refl

  contained-IsBounded :
      (pre : String) (job : Job) (d : FilePath × FilePath × List String) (m : Session World)
      → length m.evidence_settings ≤ 50
      → IsBounded (contained tools config pre job d m)
  unfolding contained checked_after
  contained-IsBounded pre job (staging, scratch, cmd) m b = record {
    bounded = rw (verified_or-settings _ _ _ _) b;
  }

  attempt_job-IsBounded :
      (pre : String) (job : Job) (m : Session World)
      → length m.evidence_settings ≤ 50
      → IsBounded (attempt_job tools config pre job m)
  unfolding attempt_job
  attempt_job-IsBounded pre job m b =
      continue-IsBounded
        (λ d m'.
          continue (packaged_evidence tools config job) (contained tools config pre job d m').0
            (contained tools config pre job d m').1)
        (prepare tools config job m).0 (prepare tools config job m).1
        (prepare-IsBounded job m b).bounded
        (λ d m' b.
          continue-IsBounded (packaged_evidence tools config job)
            (contained tools config pre job d m').0 (contained tools config pre job d m').1
            (contained-IsBounded pre job d m' b).bounded
            (λ o m' b. packaged_evidence-IsBounded job o m' b))

  settle-settings :
      (pre : String) (x : Result ExecutionEvidence × Session World)
      → (settle tools config pre x).1.evidence_settings ≡ x.1.evidence_settings
  unfolding settle
  settle-settings pre (ok e, m) = refl
  settle-settings pre (err e, m) = ground arith

  released-length :
      (release : Bool) (base : Option ExecutionEvidence) (xs : Registry)
      → length xs ≤ 50
      → length (released tools config release base xs) ≤ 50
  released-length release none xs b = b
  released-length true (some base) xs b =
      omega (arith, release_evidence_settings-length base.evidence_id xs)
  released-length false (some base) xs b = b

  guarded-IsBounded :
      (release : Bool) (job : Job) (r : Result SourceTree) (m : Session World)
      → length m.evidence_settings ≤ 50
      → length (guarded tools config release job r m).1.evidence_settings ≤ 50
  unfolding guarded clean_up
  guarded-IsBounded release job (err e) m b = b
  guarded-IsBounded release job (ok t) m b =
      let pre = compute_tree_hash tools.digest t in
      let x = attempt_job tools config pre job (fresh_session tools config m) in
      released-length release job.baseline (settle tools config pre x).1.evidence_settings (
        rw (settle-settings pre x)
          (attempt_job-IsBounded pre job (fresh_session tools config m) b).bounded)

  start_checked-IsBounded :
      (release : Bool) (job : Result Job) (m : Session World)
      → length m.evidence_settings ≤ 50
      → length (start_checked tools config release job m).1.evidence_settings ≤ 50
  unfolding start_job
  start_checked-IsBounded release (err e) m b = b
  start_checked-IsBounded release (ok job) m b =
      guarded-IsBounded release job (tools.walk m.world).0
        (record m { world = (tools.walk m.world).1 }) b

  -- An execution, whether it returns or raises, leaves at most fifty settings in the registry where
  -- there were at most fifty before.
  pub execute-length :
      (plan : ExecutionPlan) (cs : List TestCandidate) (run k : Option String)
      (base : Option ExecutionEvidence) (release : Bool) (m : Session World)
      → length m.evidence_settings ≤ 50
      → length (execute tools config plan cs run k base release m).1.evidence_settings ≤ 50
  unfolding execute
  execute-length plan cs run k base release m b =
      start_checked-IsBounded release (checked_job tools config plan cs run k base) m b
