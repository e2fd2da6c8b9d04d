-- ===== src/Workflow/Recovery/Agreement.antt =====
-- `resume` of workflow/recovery.py beside the engine's `run` and router.
use agentic_test_system.Prelude.{
  Ends, ℕ, String, ◌≡◌, ◌≢◌, refl, ◌≤◌, Bool, true, false, ◌||◌, Option, none, some, List, arith,
  string_eq, nat_eq, any, leb, inl, inr, if◌then◌else◌, is_missing,
}
use agentic_test_system.Core.{
  WorkflowState, ExecutionPlan, route_no_op, route_to_docker_execution, route_to_test_generation,
  Platform, Exn, Result, Result-cases, ok, err, continue,
}
use agentic_test_system.Storage.Database.{RunRecord}
use agentic_test_system.Storage.Runs.{get_run}
use agentic_test_system.Storage.Checkpoints.{
  CheckpointRecord, get_latest_checkpoint, get_checkpoints,
}
use agentic_test_system.Workflow.Edges.{
  failed, is_passed, baseline_failed, route_target, plan_target, route_after_planning,
  route_after_validation, route_after_execution,
}
use agentic_test_system.Workflow.Services.{Services}
use agentic_test_system.Workflow.Machine.{Machine}
use agentic_test_system.Workflow.Engine.Dispatch.{step_of, some_result, resolve_next_node}
use agentic_test_system.Workflow.Engine.Loop.{Outcome}
use agentic_test_system.Workflow.Engine.Run.{run}
use agentic_test_system.Workflow.Engine.Progress.{rank, loop-Ends}
use agentic_test_system.Workflow.Engine.Lifecycle.{handled-Ends, run_completed, run_failed}
use agentic_test_system.Workflow.Recovery.{
  resolve_resume_node, is_terminal, refuses, restore_records, next_node, restore, proceed,
  resume_from, resume_existing, resume_checked, resume_run_row, resume_latest, resume,
}

-- Behind the checkpoint of a node that has a step, and not the last step 7, a resumption and the
-- engine's own router choose the same next node of a state, or raise the same exception.
pub resolve_resume_node_agrees :
    (n : String) (i : ℕ) (s : WorkflowState)
    → step_of n ≡ some i
    → i ≢ 7
    → some_result (resolve_resume_node i s) ≡ resolve_next_node n s
unfolding resolve_resume_node resolve_next_node step_of
resolve_resume_node_agrees n i s h last = ground arith

-- An outcome that is an exception and leaves the object as it was.
pub data IsRefusal {p : Platform} (m : Machine p) : Outcome p → Type 0 where
  refusal : (e : Exn) → IsRefusal m (some (err e, m))

module _ (p : Platform) (services : Services p.World) (k : String) (m : Machine p) where
  -- A row that says that the run is over refuses every resumption, and nothing is written.
  refused :
      (r : RunRecord)
      → is_missing k ≡ false
      → get_run k m.db ≡ (ok (some r), m.db)
      → refuses (some r) ≡ true
      → IsRefusal m (resume p services k m)
  unfolding resume resume_checked
  refused r named row over = elim (Result-cases (get_latest_checkpoint p k m.db).0) [
    | inr (e, q) ↦ rw (named, q) (refusal e)
    | inl (none, q) ↦ rw (named, q) (refusal _)
    | inl (some c, q) ↦ rw (named, q, row, over) (refusal _)
  ]

module _ (p : Platform) (services : Services p.World) where
  -- A run under a name that is not blank which returned cannot be resumed: the attempt raises, and it
  -- leaves the database and everything else as it was.
  pub resume-run_completed :
      (m m' : Machine p) (s : WorkflowState)
      → is_missing m.state.run_id ≡ false
      → run p services m ≡ some (ok s, m')
      → IsRefusal m' (resume p services m.state.run_id m')
  resume-run_completed m m' s named h =
      let (r, row, status, ended) = run_completed p services m m' s named h in
      refused p services m.state.run_id m' r named row (rw status refl)

  -- A run under a name that is not blank which raised cannot be resumed: the attempt raises, and it
  -- leaves the database and everything else as it was.
  pub resume-run_failed :
      (m m' : Machine p) (e : Exn)
      → is_missing m.state.run_id ≡ false
      → run p services m ≡ some (err e, m')
      → IsRefusal m' (resume p services m.state.run_id m')
  resume-run_failed m m' e named h =
      let (r, row, status, ended) = run_failed p services m m' e named h in
      refused p services m.state.run_id m' r named row (rw status refl)

  abbrev Onward : Result String → Type 0
  Onward (ok n) = (1 ≤ rank n) × (rank n ≤ 7)
  Onward (err e) = Unit

  record Ahead (r : Result String) : Type 0 where
    onward : Onward r

  if-Ahead : (b : Bool) (r r' : Result String) → Ahead r → Ahead r' → Ahead (if b then r else r')
  if-Ahead true r r' h h' = h
  if-Ahead false r r' h h' = h'

  ok-Ahead :
      (b : Bool) (n n' : String) → Ahead (ok n) → Ahead (ok n') → Ahead (ok (if b then n else n'))
  ok-Ahead true n n' h h' = h
  ok-Ahead false n n' h h' = h'

  planned-Ahead : (plan : Option ExecutionPlan) → Ahead (plan_target plan)
  unfolding step_of
  planned-Ahead none = record { onward = tt }
  planned-Ahead (some plan) = elim plan.route as (λ r. Ahead (ok (route_target r))) [
    | route_no_op ↦ omega arith
    | route_to_docker_execution ↦ omega arith
    | route_to_test_generation ↦ omega arith
  ]

  resume_node-Ahead : (step : ℕ) (s : WorkflowState) → Ahead (resolve_resume_node step s)
  unfolding resolve_resume_node route_after_planning route_after_validation route_after_execution
      step_of
  resume_node-Ahead step s =
      let ingest : Ahead (ok "ingest_and_analyze_node") = omega arith in
      let planned : Ahead (ok "plan_execution_node") = omega arith in
      let validate : Ahead (ok "validate_candidates_node") = omega arith in
      let execute : Ahead (ok "execute_sandbox_node") = omega arith in
      let diagnose : Ahead (ok "diagnose_failure_node") = omega arith in
      let report : Ahead (ok "report_node") = omega arith in
      let stopped : (e : Exn) → Ahead (err e) = λ e. record { onward = tt } in
      if-Ahead _ _ _ ingest (
        if-Ahead _ _ _ planned (
          if-Ahead _ _ _ (planned-Ahead s.plan) (
            if-Ahead _ _ _ validate (
              if-Ahead _ _ _ (ok-Ahead (any is_passed s.candidates) _ _ execute report) (
                if-Ahead _ _ _
                  (ok-Ahead (baseline_failed s.baseline_evidence) _ _ diagnose
                    (ok-Ahead (any failed s.evidences) _ _ diagnose report))
                  (if-Ahead _ _ _ report (stopped _)))))))

  next_node-Ahead :
      (r : Result String) (u : Result (Unit {0})) (m : Machine p) (n : String)
      → Ahead r
      → (continue (λ _. next_node p services r) u m).0 ≡ ok n
      → Ahead (ok n)
  next_node-Ahead r (err x) m n h e = absurd cc
  next_node-Ahead (err x) (ok u) m n h e = absurd cc
  next_node-Ahead (ok n') (ok u) m n h e = let same : n' ≡ n = cc in rw same at h

  restore-Ahead :
      (k : String) (c : CheckpointRecord) (r : Option RunRecord) (m : Machine p) (n : String)
      → (restore p services k c r m).0 ≡ ok n
      → Ahead (ok n)
  unfolding restore
  restore-Ahead k c r m n e =
      next_node-Ahead (resolve_resume_node c.step_index m.state)
        (restore_records p services k c r m).0 (restore_records p services k c r m).1 n
        (resume_node-Ahead c.step_index m.state) e

  proceed-Ends :
      (r : Result String) (m : Machine p)
      → ((n : String) → r ≡ ok n → Ahead (ok n))
      → Ends (proceed p services r m)
  proceed-Ends (err e) m h = ((err e, m), refl)
  proceed-Ends (ok n) m h =
      let (above, below) = (h n refl).onward in loop-Ends p services 7 n m below (omega arith)

  existing-Ends :
      (k : String) (c : CheckpointRecord) (r : Option RunRecord)
      (l : Result (List CheckpointRecord)) (m : Machine p)
      → Ends (resume_existing p services k c r l m)
  unfolding resume_from
  existing-Ends k c r (err e) m = ((err e, m), refl)
  existing-Ends k c r (ok l) m =
      handled-Ends p services _ _ (proceed-Ends _ _ (restore-Ahead k c r _))

  if-Ends : (b : Bool) (o o' : Outcome p) → Ends o → Ends o' → Ends (if b then o else o')
  if-Ends true o o' h h' = h
  if-Ends false o o' h h' = h'

  checked-Ends :
      (k : String) (c : CheckpointRecord) (r : Option RunRecord) (m : Machine p)
      → Ends (resume_checked p services k c r m)
  unfolding resume_checked
  checked-Ends k c r m =
      if-Ends (refuses r) _ _ (_, refl)
        (if-Ends (leb 7 c.step_index || is_terminal c.state.final_status) _ _ (_, refl)
          (existing-Ends k c r (get_checkpoints p k m.db).0 m))

  row-Ends :
      (k : String) (c : CheckpointRecord) (r : Result (Option RunRecord)) (m : Machine p)
      → Ends (resume_run_row p services k c r m)
  row-Ends k c (err e) m = (_, refl)
  row-Ends k c (ok r) m = checked-Ends k c r m

  latest-Ends :
      (k : String) (c : Result (Option CheckpointRecord)) (m : Machine p)
      → Ends (resume_latest p services k c m)
  latest-Ends k (err e) m = (_, refl)
  latest-Ends k (ok none) m = (_, refl)
  latest-Ends k (ok (some c)) m = row-Ends k c (get_run k m.db).0 m

  -- A resumption ends within the seven rounds of the loop, whatever the database holds and whatever
  -- the services answer.
  pub resume-Ends : (k : String) (m : Machine p) → Ends (resume p services k m)
  unfolding resume
  resume-Ends k m =
      if-Ends (is_missing k) _ _ (_, refl) (latest-Ends k (get_latest_checkpoint p k m.db).0 m)
