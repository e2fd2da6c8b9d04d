-- ===== src/Execution/Batches.antt =====
-- execution/service.py: `execute_candidates`.
use agentic_test_system.Prelude.{
  String, Bool, false, Option, some, List, [], ◌∷◌, ◌<>◌, if◌then◌else◌,
}
use agentic_test_system.Core.{
  ExecutionPlan, TestCandidate, ExecutionEvidence, staging_validation_error, other_error, lift,
  Result, ok, err, Action, pure, ◌>>=◌,
}
use agentic_test_system.Workflow.Edges.{is_passed}
use agentic_test_system.Execution.Session.{ExecutionConfig, ExecutionTools, Session}
use agentic_test_system.Execution.Service.{execute, released}

module _ {World : Type 0} (tools : ExecutionTools World) (config : ExecutionConfig) where
  -- The first candidate that did not pass.
  unfoldable pub refused_candidate : List TestCandidate → Result (Unit {0})
  refused_candidate [] = ok tt
  refused_candidate (c ∷ cs) =
      let rest = refused_candidate cs in
      if is_passed c
      then rest
      else err (
          staging_validation_error (
            "Candidate '"
            <> c.candidate_id
            <> "' has validation_status="
            <> tools.shown_status c.validation_status
            <> ". Only candidates with validation_status == PASSED can be executed (INV-04)."))

  -- One session for each candidate, in their order, up to the first that raises.
  unfoldable pub execute_each :
      ExecutionPlan
      → Option String
      → Option ExecutionEvidence
      → List TestCandidate
      → Action (Session World) (List ExecutionEvidence)
  unfolding execute
  execute_each plan run base [] = pure []
  execute_each plan run base (c ∷ cs) = do
    e ← execute tools config plan (c ∷ []) run (some c.candidate_id) base false
    es ← execute_each plan run base cs
    pure (e ∷ es)

  abbrev pub release_after :
      Bool
      → Option ExecutionEvidence
      → Result (List ExecutionEvidence) × Session World
      → Result (List ExecutionEvidence) × Session World
  release_after release base (r, m) =
      (r, record m { evidence_settings = released tools config release base m.evidence_settings })

  abbrev pub unless_refused :
      Result (Unit {0})
      → Result (List ExecutionEvidence) × Session World
      → Session World
      → Result (List ExecutionEvidence) × Session World
  unless_refused (err e) x m = (err e, m)
  unless_refused (ok _) x m = x

  unfoldable pub execute_candidates :
      ExecutionPlan
      → List TestCandidate
      → Option ExecutionEvidence
      → Option String
      → Bool
      → Action (Session World) (List ExecutionEvidence)
  unfolding execute_each refused_candidate
  execute_candidates plan [] base run release m = (ok [], m)
  execute_candidates plan (c ∷ cs) base run release m =
      unless_refused (refused_candidate (c ∷ cs))
        (release_after release base (execute_each plan run base (c ∷ cs) m)) m

  -- `evs[0]`
  abbrev pub first_evidence : List ExecutionEvidence → Result ExecutionEvidence
  first_evidence [] = err (other_error "IndexError" "list index out of range")
  first_evidence (e ∷ es) = ok e

  unfoldable pub execute_candidate :
      ExecutionPlan
      → TestCandidate
      → Option String
      → Option ExecutionEvidence
      → Bool
      → Action (Session World) ExecutionEvidence
  unfolding execute_candidates
  execute_candidate plan c run base release = do
    evs ← execute_candidates plan (c ∷ []) base run release
    lift (first_evidence evs)
