-- ===== src/Workflow/Engine/Progress.antt =====
-- The steps of the nodes along the router of workflow/engine.py, and the rounds of the loop.
use agentic_test_system.Prelude.{
  Ends, ℕ, zero, suc, ◌+◌, ◌≤◌, ◌<◌, String, ◌≡◌, refl, Bool, true, false, Option, none, some,
  string_eq, arith, any, if◌then◌else◌,
}
use text.Mathlib.TextEquality.{eq_iff}
use agentic_test_system.Core.{
  WorkflowState, ExecutionPlan, Platform, Exn, route_no_op, route_to_docker_execution,
  route_to_test_generation, Result, ok, err, continue,
}
use agentic_test_system.Workflow.Edges.{
  failed, is_passed, baseline_failed, route_target, plan_target, route_after_planning,
  route_after_validation, route_after_execution,
}
use agentic_test_system.Workflow.Services.{Services}
use agentic_test_system.Workflow.Machine.{Machine}
use agentic_test_system.Workflow.Engine.Dispatch.{step_of, some_result, resolve_next_node}
use agentic_test_system.Workflow.Engine.Loop.{
  Outcome, iteration, node_body, route, after_round, loop,
}

-- The step of a node, and 0 for what is no node.
abbrev pub rank_of : Option ℕ → ℕ
rank_of none = 0
rank_of (some i) = i

abbrev pub rank : String → ℕ
rank n = rank_of (step_of n)

-- What a router may answer at a node of a step: no node, or one of a later step.
abbrev Ahead : Option ℕ → Result (Option String) → Type 0
Ahead o (err e) = Unit
Ahead o (ok none) = Unit
Ahead o (ok (some n)) = (rank_of o < rank n) × (rank n ≤ 7)

record Later (o : Option ℕ) (r : Result (Option String)) : Type 0 where
  ahead : Ahead o r

Later-if :
    (b : Bool) (o o' : Option ℕ) (r r' : Result (Option String))
    → Later o r
    → Later o' r'
    → Later (if b then o else o') (if b then r else r')
Later-if true o o' r r' h k = h
Later-if false o o' r r' h k = k

Later-choice :
    (b : Bool) (o : Option ℕ) (n n' : String)
    → Later o (ok (some n))
    → Later o (ok (some n'))
    → Later o (ok (some (if b then n else n')))
Later-choice true o n n' h k = h
Later-choice false o n n' h k = k

Later-plan : (plan : Option ExecutionPlan) → Later (some 2) (some_result (plan_target plan))
unfolding step_of
Later-plan none = record { ahead = tt }
Later-plan (some plan) = elim plan.route as (λ r. Later (some 2) (ok (some (route_target r)))) [
  | route_no_op ↦ omega arith
  | route_to_docker_execution ↦ omega arith
  | route_to_test_generation ↦ omega arith
]

Later-resolve : (n : String) (s : WorkflowState) → Later (step_of n) (resolve_next_node n s)
unfolding resolve_next_node route_after_planning route_after_validation route_after_execution
    step_of
Later-resolve n s =
    let planned : Later (some 1) (ok (some "plan_execution_node")) = omega arith in
    let validated : Later (some 3) (ok (some "validate_candidates_node")) = omega arith in
    let executed : Later (some 4) (ok (some "execute_sandbox_node")) = omega arith in
    let rejected : Later (some 4) (ok (some "report_node")) = omega arith in
    let diagnosed : Later (some 5) (ok (some "diagnose_failure_node")) = omega arith in
    let succeeded : Later (some 5) (ok (some "report_node")) = omega arith in
    let reported : Later (some 6) (ok (some "report_node")) = omega arith in
    let stopped : Later (some 7) (ok none) = record { ahead = tt } in
    let unknown : (e : Exn) → Later none (err e) = λ e. record { ahead = tt } in
    Later-if _ _ _ _ _ planned (
      Later-if _ _ _ _ _ (Later-plan s.plan) (
        Later-if _ _ _ _ _ validated (
          Later-if _ _ _ _ _ (Later-choice (any is_passed s.candidates) _ _ _ executed rejected) (
            Later-if _ _ _ _ _
              (Later-choice (baseline_failed s.baseline_evidence) _ _ _ diagnosed
                (Later-choice (any failed s.evidences) _ _ _ diagnosed succeeded))
              (Later-if _ _ _ _ _ reported (Later-if _ _ _ _ _ stopped (unknown _)))))))

-- A node that the engine's router names has a later step than the node behind which it is asked, and
-- its step is at most seven.
pub resolve_next_node_later :
    (n : String) (s : WorkflowState) (n' : String)
    → resolve_next_node n s ≡ ok (some n')
    → (rank n < rank n') × (rank n' ≤ 7)
resolve_next_node_later n s n' h = (rw h at (Later-resolve n s)).ahead

-- It stops at the report and nowhere else.
pub resolve_next_node_stops :
    (n : String) (s : WorkflowState) → resolve_next_node n s ≡ ok none → n ≡ "report_node"
unfolding resolve_next_node route_after_planning
resolve_next_node_stops n s h = ground (arith, eq_iff n "report_node")

module _ (p : Platform) (services : Services p.World) where
  routed :
      (n : String) (r : Result (Unit {0})) (m : Machine p) (n' : String)
      → (continue (route p services n) r m).0 ≡ ok (some n')
      → resolve_next_node n (continue (route p services n) r m).1.state ≡ ok (some n')
  routed n (ok u) m n' h = h
  routed n (err e) m n' h = cc

  -- A round that goes on goes on to the node that the router chose.
  pub iteration-resolve :
      (n : String) (m : Machine p) (n' : String)
      → (iteration p services n m).0 ≡ ok (some n')
      → resolve_next_node n (iteration p services n m).1.state ≡ ok (some n')
  unfolding iteration
  iteration-resolve n m n' h =
      routed n (node_body p services n m).0 (node_body p services n m).1 n' h

  after_round-Ends :
      (next : String → Machine p → Outcome p) (r : Result (Option String)) (m : Machine p)
      → ((n : String) → r ≡ ok (some n) → Ends (next n m))
      → Ends (after_round p services next r m)
  after_round-Ends next (err e) m h = ((err e, m), refl)
  after_round-Ends next (ok none) m h = ((ok m.state, record m { current_node = none }), refl)
  after_round-Ends next (ok (some n)) m h = h n refl

  -- From a node of step `i` the loop ends within 8 - i rounds.
  pub loop-Ends :
      (fuel : ℕ) (n : String) (m : Machine p)
      → rank n ≤ 7
      → 7 < fuel + rank n
      → Ends (loop p services fuel n m)
  unfolding loop
  loop-Ends zero n m small enough = absurd (omega arith)
  loop-Ends (suc fuel) n m small enough =
      after_round-Ends (loop p services fuel) (iteration p services n m).0
        (iteration p services n m).1
        (λ n' h.
          let (later, small') =
            resolve_next_node_later n (iteration p services n m).1.state n'
              (iteration-resolve n m n' h) in
          loop-Ends fuel n' (iteration p services n m).1 small' (omega arith))
