-- ===== src/Workflow/Nodes/Screened.antt =====
-- workflow/nodes.py, with validation/pipeline.py and execution/service.py as its services: what the
-- validation of the candidates means for their execution.
use agentic_test_system.Prelude.{
  String, ◌≡◌, refl, true, Option, none, some, List, [], ◌∷◌, map, filter, ◌==◌, Bool-cases, inl,
  inr,
}
use agentic_test_system.Core.{
  Timestamp, WorkflowState, ExecutionPlan, TestCandidate, ExecutionEvidence, passed, quarantined,
  status_eq, ok, Action, pure, ◌>>=◌,
}
use agentic_test_system.Core.Syntax.{Node, Parsed, tree}
use agentic_test_system.Workflow.Services.{ExecutionMethods}
use agentic_test_system.Workflow.Edges.{is_passed}
use agentic_test_system.Workflow.Nodes.{
  validate_candidates_node, execute_sandbox_node, execute_from, baseline, candidate_evidences,
}
use agentic_test_system.Validation.Pipeline.{
  Gate, Screened, with_status, collect, screen, validate_candidate, validate_candidates,
}
use agentic_test_system.Validation.Security.{build_source, security_gate}
use agentic_test_system.Validation.Syntax.{syntax_gate}
use agentic_test_system.Validation.Allowed.{is_allowed, Throughout}
use agentic_test_system.Validation.Collection.{CollectionConfig, CollectionTools, collection_gate}
use agentic_test_system.Validation.Collected.{WasCollected}
use agentic_test_system.Validation.Screening.{accepted-collected}
use agentic_test_system.Execution.Session.{ExecutionConfig, ExecutionTools, Session}
use agentic_test_system.Execution.Execute.{on_world}
use agentic_test_system.Execution.Service.{execute_regression_baseline}
use agentic_test_system.Execution.Batches.{execute_candidates}
use agentic_test_system.Execution.Candidates.{ids_of, execute_candidates-candidate_ids}
use agentic_test_system.Core.Ensures.{Ensures, of_values, value-Ensures, bind-Ensures, bind-any}

-- The two services of the nodes, in one world, which the execution service keeps its fields beside:
-- the default pipeline with its collection gate, and the execution service with the default
-- arguments of its methods.
module _ {World : Type 0} (ast_parse : String → Parsed) (clock : Action World Timestamp)
    (collecting : CollectionTools World) (limits : CollectionConfig) (tools : ExecutionTools World)
    (config : ExecutionConfig) where
  abbrev pub default_gates : List (Gate World)
  default_gates = syntax_gate ast_parse clock ∷ security_gate ast_parse clock ∷ []

  abbrev pub pipeline : List TestCandidate → Action (Session World) (List Screened)
  pipeline cs =
      on_world tools config
        (validate_candidates clock default_gates (some (collection_gate collecting limits)) cs)

  abbrev pub execution : ExecutionMethods (Session World)
  execution = record {
    execute_regression_baseline = execute_regression_baseline tools config;
    execute_candidates = λ plan cs base run. execute_candidates tools config plan cs base run true;
  }

  -- The candidate parses, its syntax tree is free of what the security gate forbids, and it was
  -- collected in a container.
  abbrev pub IsScreened : TestCandidate → Type 0
  IsScreened c =
      (n : Node) × (ast_parse (build_source c) ≡ tree n)
      × Throughout is_allowed n
      × WasCollected collecting limits c

  -- The candidates of a state behind the validation, beside those of the state before: the same
  -- ones, in their order, under a new status, which is PASSED for screened ones only.
  pub data Validated : List TestCandidate → List TestCandidate → Type 0 where
    no_candidates : Validated [] []
    next_candidate :
        (c d : TestCandidate) (cs ds : List TestCandidate)
        → d ≡ with_status c d.validation_status
        → (d.validation_status ≡ passed → IsScreened c)
        → Validated cs ds
        → Validated (c ∷ cs) (d ∷ ds)

  abbrev Answers : TestCandidate → Screened → Type 0
  Answers c x =
      (x.0 ≡ with_status c x.0.validation_status) × (x.0.validation_status ≡ passed → IsScreened c)

  abbrev Keeps : TestCandidate → Screened → Type 0
  Keeps c x = x.0 ≡ with_status c x.0.validation_status

  screen-Keeps :
      (gates : List (Gate World)) (coll : Option (Gate World)) (c : TestCandidate) (w : World)
      → Ensures (Keeps c) (screen clock gates coll c w).0
  unfolding screen collect
  screen-Keeps [] none c w = bind-any (Keeps c) _ clock w (λ t w'. refl)
  screen-Keeps [] (some g) c w = bind-any (Keeps c) _ (g c) w (λ r w'. refl)
  screen-Keeps (g ∷ gs) coll c w = bind-any (Keeps c) _ (g c) w (λ r w'.
      elim (Bool-cases r.passed) [ inl p ↦ rw p (screen-Keeps gs coll c w') | inr p ↦ rw p refl ])

  validate_candidate-Keeps :
      (gates : List (Gate World)) (coll : Option (Gate World)) (c : TestCandidate) (w : World)
      → Ensures (Keeps c) (validate_candidate clock gates coll c w).0
  unfolding validate_candidate
  validate_candidate-Keeps gates coll c w = elim (Bool-cases (c.validation_status == quarantined)) [
    | inl q ↦ rw q (bind-any (Keeps c) _ clock w (λ t w'. refl))
    | inr q ↦ rw q (screen-Keeps gates coll c w)
  ]

  abbrev validated : TestCandidate → Action World Screened
  validated c = validate_candidate clock default_gates (some (collection_gate collecting limits)) c

  validate_candidate-Answers :
      (c : TestCandidate) (w : World) → Ensures (Answers c) (validated c w).0
  validate_candidate-Answers c w = of_values (Answers c) (validated c w) (λ x w' e. (
    value-Ensures (Keeps c) (validated c w) x w'
        (validate_candidate-Keeps default_gates (some (collection_gate collecting limits)) c w) e,
    accepted-collected ast_parse clock collecting limits c w w' x e,
  ))

  validate_candidates-Validated :
      (cs : List TestCandidate) (w : World)
      → Ensures
          (λ xs. Validated cs (map (λ x. x.0) xs))
          (validate_candidates clock default_gates
            (some (collection_gate collecting limits))
            cs
            w).0
  unfolding validate_candidates
  validate_candidates-Validated [] w = no_candidates
  validate_candidates-Validated (c ∷ cs) w =
      let Q : List Screened → Type 0 = λ xs. Validated (c ∷ cs) (map (λ x. x.0) xs) in
      bind-Ensures Q _ (Answers c) (validated c) w (validate_candidate-Answers c w) (λ x w' a.
        bind-Ensures Q (λ xs. pure (x ∷ xs)) (λ xs. Validated cs (map (λ x. x.0) xs))
          (validate_candidates clock default_gates (some (collection_gate collecting limits)) cs) w'
          (validate_candidates-Validated cs w') (λ xs w'' h. next_candidate c x.0 cs _ a.0 a.1 h))

  abbrev NamesPassed : List TestCandidate → List ExecutionEvidence → Type 0
  NamesPassed cs es = map (λ e. e.candidate_id) es ≡ ids_of tools config cs

  candidate_evidences-NamesPassed :
      (plan : ExecutionPlan) (s : WorkflowState) (base : Option ExecutionEvidence)
      (cs : List TestCandidate) (m : Session World)
      → s.evidences ≡ []
      → Ensures (NamesPassed cs) (candidate_evidences execution plan s base cs m).0
  unfolding candidate_evidences
  candidate_evidences-NamesPassed plan s base [] m none_yet = rw none_yet refl
  candidate_evidences-NamesPassed plan s base (c ∷ cs) m none_yet =
      of_values (NamesPassed (c ∷ cs))
        (execute_candidates tools config plan (c ∷ cs) base (some s.run_id) true m)
        (λ es m' e.
          (execute_candidates-candidate_ids tools config plan (c ∷ cs) base (some s.run_id) true m
            m' es e).1)

  -- What the state behind both nodes holds, beside the state before them.
  abbrev pub IsExecuted : WorkflowState → WorkflowState → Type 0
  IsExecuted s s' =
      Validated s.candidates s'.candidates
      × NamesPassed (filter is_passed s'.candidates) s'.evidences

  execute_from-IsExecuted :
      (s0 s : WorkflowState) (plan : Option ExecutionPlan) (m : Session World)
      → s.evidences ≡ []
      → Validated s0.candidates s.candidates
      → Ensures (IsExecuted s0) (execute_from execution s plan m).0
  execute_from-IsExecuted s0 s none m none_yet v = tt
  execute_from-IsExecuted s0 s (some plan) m none_yet v =
      bind-any (IsExecuted s0) _ (baseline execution plan s.run_id s.baseline_evidence) m
        (λ base m'.
          bind-Ensures (IsExecuted s0)
            (λ es. pure (record s { baseline_evidence = base; evidences = es }))
            (NamesPassed (filter is_passed s.candidates))
            (candidate_evidences execution plan s base (filter is_passed s.candidates)) m'
            (candidate_evidences-NamesPassed plan s base (filter is_passed s.candidates) m'
              none_yet)
            (λ es m'' named. (v, named)))

  -- Between the nodes.
  abbrev IsReady : WorkflowState → WorkflowState → Type 0
  IsReady s s1 = (s1.evidences ≡ []) × Validated s.candidates s1.candidates

  both-IsExecuted :
      (s : WorkflowState) (m : Session World)
      → s.evidences ≡ []
      → Ensures
          (IsExecuted s)
          ((validate_candidates_node pipeline s >>= execute_sandbox_node execution) m).0
  unfolding validate_candidates_node execute_sandbox_node
  both-IsExecuted s m none_yet =
      bind-Ensures (IsExecuted s) (execute_sandbox_node execution) (IsReady s)
        (validate_candidates_node pipeline s) m
        (bind-Ensures (IsReady s) (λ xs. pure (record s { candidates = map (λ x. x.0) xs }))
          (λ xs. Validated s.candidates (map (λ x. x.0) xs)) (pipeline s.candidates) m
          (validate_candidates-Validated s.candidates m.world) (λ xs m' v. (none_yet, v)))
        (λ s1 m' ready. execute_from-IsExecuted s s1 s1.plan m' ready.0 ready.1)

  -- Where the node of the validation and behind it the node of the execution return, from a state
  -- without evidences and with the default pipeline and its collection gate: the candidates are those
  -- of the state before, in their order, each under a status that is PASSED only if it parses, its
  -- syntax tree is free of what the security gate forbids, and it was collected in a container; and
  -- there is one evidence for each candidate that passed, in their order, which names it, and no
  -- other.
  pub execute_sandbox_node-IsExecuted :
      (s s' : WorkflowState) (m m' : Session World)
      → s.evidences ≡ []
      → (validate_candidates_node pipeline s >>= execute_sandbox_node execution) m ≡ (ok s', m')
      → IsExecuted s s'
  execute_sandbox_node-IsExecuted s s' m m' none_yet e =
      value-Ensures (IsExecuted s) _ s' m' (both-IsExecuted s m none_yet) e
