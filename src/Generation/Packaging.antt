-- ===== src/Generation/Packaging.antt =====
-- The candidates that generation/service.py returns for the symbols of a plan.
use agentic_test_system.Prelude.{
  ◌<>◌, ℕ, zero, suc, ◌+◌, ◌-◌, ◌≤◌, String, ◌≡◌, refl, Bool, true, false, Option, none, some, List,
  [], ◌∷◌, arith, ltb, if◌then◌else◌,
}
use agentic_test_system.Core.{
  SymbolContract, ExecutionPlan, TestCandidate, ValidationStatus, pending, quarantined, Timestamp,
  Exn, Result, ok, err, context_budget_error,
}
use agentic_test_system.Generation.Context.{GenerationContext, format_prompt, assemble}
use agentic_test_system.Generation.Synthesis.{
  CandidateSynthesisSchema, r_max_repairs, is_repairable, derive_test_file_path, GenerationTools,
  Draft, Target, target_of, candidate_for, Generated, verify_syntax, checked, attempt, built,
  repaired, after_attempt, synthesize, first_draft, from_context, named,
  generate_candidate_for_symbol, with_rest, with_candidate, generate_for, effective_run_id,
  generate,
}
use agentic_test_system.Generation.Repairs.{attempt-repair_count}

module _ {World : Type 0} (tools : GenerationTools World) where
  -- How a candidate came out: pending, with code that the parser accepts, after at most two repairs;
  -- or quarantined, after two repairs or because the assembly of its context raised that
  -- it was above the budget, which the reason tells.
  pub data Fate (s : SymbolContract) (c : TestCandidate) : Type 0 where
    verified :
        c.validation_status ≡ pending
        → c.quarantine_reason ≡ none
        → verify_syntax tools c.candidate_code c.imports ≡ ok tt
        → c.retry_count ≤ 2
        → Fate s c
    exhausted :
        c.validation_status ≡ quarantined
        → c.quarantine_reason ≡ some "EXHAUSTED_GENERATION_REPAIRS"
        → c.retry_count ≡ 2
        → Fate s c
    over_budget :
        (m : String) (w w' : World)
        → assemble tools.context tools.max_token_budget s tools.repo_root [] [] none w
          ≡ (err (context_budget_error m), w')
        → c.validation_status ≡ quarantined
        → c.quarantine_reason ≡ some ("CONTEXT_BUDGET_EXCEEDED: " <> m)
        → c.candidate_code ≡ ""
        → c.retry_count ≡ 0
        → Fate s c

  -- The candidate of a symbol under a run.
  pub record IsCandidateOf (run : String) (s : SymbolContract) (c : TestCandidate) : Type 0 where
    pub own_run : c.run_id ≡ run
    pub own_symbol : c.target_symbol_name ≡ s.qualified_name
    pub own_file : c.test_file_path ≡ derive_test_file_path s
    pub fate : Fate s c

  -- One candidate for each symbol, in the order of the symbols.
  abbrev pub Matched : String → List SymbolContract → List TestCandidate → Type 0
  Matched run [] [] = Unit
  Matched run (s ∷ ss) (c ∷ cs) = IsCandidateOf run s c × Matched run ss cs
  Matched run _ _ = ⊥

  -- What holds of the value that a computation returns.
  pub data Returns {A : Type 0} (P : A → Type 0) : Generated World A → Type 0 where
    starved : Returns P none
    raised : (e : Exn) (w : World) → Returns P (some (err e, w))
    returned : (a : A) (w : World) → P a → Returns P (some (ok a, w))

  pub Returns-value :
      {A : Type 0} {P : A → Type 0} {o : Generated World A}
      → Returns P o
      → (a : A) (w : World) → o ≡ some (ok a, w)
      → P a
  Returns-value starved a w e = absurd cc
  Returns-value (raised x w') a w e = absurd cc
  Returns-value {P = P} (returned b w' h) a w e = let same : b ≡ a = cc in rw same at h

  built-Returns :
      (t : Target) (code : String) (imports : List String) (status : ValidationStatus)
      (reason : Option String) (retries : ℕ) (w : World)
      → ((now : Timestamp) → Fate t.symbol (candidate_for t code imports status reason retries now))
      → Returns
          (IsCandidateOf t.run_id t.symbol)
          (built tools t code imports status reason retries w)
  unfolding built candidate_for
  built-Returns t code imports status reason retries w h =
      returned _ _
        (record { own_run = refl; own_symbol = refl; own_file = refl; fate = h (tools.now w).0 })

  -- Where the parser accepted, the draft holds what it accepted.
  pub checked_verified :
      (d : Draft) (x : Result CandidateSynthesisSchema × World) (u : Unit {0})
      → (checked tools d x).0 ≡ ok u
      → verify_syntax tools (checked tools d x).1.last_code (checked tools d x).1.last_imports
        ≡ ok tt
  unfolding checked
  checked_verified d (ok s, w) u h = h
  checked_verified d (err e, w) u h = absurd cc

  Returns-if :
      {A : Type 0} {P : A → Type 0} (b : Bool) (o o' : Generated World A)
      → (b ≡ true → Returns P o)
      → (b ≡ false → Returns P o')
      → Returns P (if b then o else o')
  Returns-if true o o' h h' = h refl
  Returns-if false o o' h h' = h' refl

  after_attempt-Returns :
      (t : Target) (initial : String) (next : Draft → World → Generated World TestCandidate)
      (r : Result (Unit {0})) (d : Draft) (w : World)
      → d.repair_count ≤ 2
      → ((u : Unit {0}) → r ≡ ok u → verify_syntax tools d.last_code d.last_imports ≡ ok tt)
      → ((d' : Draft) (w' : World)
          → d'.repair_count ≤ 2
          → Returns (IsCandidateOf t.run_id t.symbol) (next d' w'))
      → Returns (IsCandidateOf t.run_id t.symbol) (after_attempt tools t initial next r d w)
  unfolding after_attempt repaired
  after_attempt-Returns t initial next (ok u) d w small accepted later =
      built-Returns t d.last_code d.last_imports pending none d.repair_count w
        (unfold candidate_for in λ now. verified refl refl (accepted u refl) small)
  after_attempt-Returns t initial next (err e) d w small accepted later =
      Returns-if (is_repairable e) _ _
        (λ _.
          Returns-if (ltb r_max_repairs (d.repair_count + 1)) _ _
            (λ spent.
              built-Returns t d.last_code d.last_imports quarantined
                (some "EXHAUSTED_GENERATION_REPAIRS") (d.repair_count + 1 - 1) w
                (unfold candidate_for in λ now. exhausted refl refl (ground arith)))
            (λ room. later (repaired tools initial e d) w (ground arith)))
        (λ _. raised e w)

  synthesize-Returns :
      (fuel : ℕ) (t : Target) (initial : String) (d : Draft) (w : World)
      → d.repair_count ≤ 2
      → Returns (IsCandidateOf t.run_id t.symbol) (synthesize tools fuel t initial d w)
  unfolding synthesize attempt
  synthesize-Returns zero t initial d w small = starved
  synthesize-Returns (suc fuel) t initial d w small =
      let x = attempt tools d w in
      after_attempt-Returns t initial (synthesize tools fuel t initial) x.0 x.1 x.2
        (omega (arith, attempt-repair_count tools d w)) (λ u e. checked_verified d _ u e)
        (λ d' w'. synthesize-Returns fuel t initial d' w')

  from_context-Returns :
      (t : Target) (r : Result GenerationContext) (w0 w : World)
      → assemble tools.context tools.max_token_budget t.symbol tools.repo_root [] [] none w0
        ≡ (r, w)
      → Returns (IsCandidateOf t.run_id t.symbol) (from_context tools t r w)
  unfolding from_context
  from_context-Returns t (ok c) w0 w q =
      synthesize-Returns 3 t (format_prompt c) (first_draft tools (format_prompt c)) w (omega arith)
  from_context-Returns t (err (context_budget_error m)) w0 w q =
      built-Returns t "" [] quarantined _ 0 w
        (unfold candidate_for in λ now. over_budget m w0 w q refl refl refl refl)
  from_context-Returns t (err e) w0 w q = raised e w

  named-Returns :
      (s : SymbolContract) (run : String) (x : Result String × World)
      → Returns (IsCandidateOf run s) (named tools s run x)
  unfolding named
  named-Returns s run (err e, w) = raised e w
  named-Returns s run (ok k, w) = from_context-Returns (target_of s run k) _ w _ refl

  with_rest-Returns :
      (run : String) (s : SymbolContract) (ss : List SymbolContract) (c : TestCandidate)
      {o : Generated World (List TestCandidate)}
      → IsCandidateOf run s c
      → Returns (Matched run ss) o
      → Returns (Matched run (s ∷ ss)) (with_rest tools c o)
  with_rest-Returns run s ss c h starved = starved
  with_rest-Returns run s ss c h (raised e w) = raised e w
  with_rest-Returns run s ss c h (returned cs w m) = returned (c ∷ cs) w (h, m)

  with_candidate-Returns :
      (run : String) (s : SymbolContract) (ss : List SymbolContract)
      (rest : World → Generated World (List TestCandidate)) {o : Generated World TestCandidate}
      → ((w : World) → Returns (Matched run ss) (rest w))
      → Returns (IsCandidateOf run s) o
      → Returns (Matched run (s ∷ ss)) (with_candidate tools rest o)
  with_candidate-Returns run s ss rest h starved = starved
  with_candidate-Returns run s ss rest h (raised e w) = raised e w
  with_candidate-Returns run s ss rest h (returned c w m) = with_rest-Returns run s ss c m (h w)

  generate_for-Returns :
      (ss : List SymbolContract) (run : String) (w : World)
      → Returns (Matched run ss) (generate_for tools ss run w)
  unfolding generate_for generate_candidate_for_symbol
  generate_for-Returns [] run w = returned [] w tt
  generate_for-Returns (s ∷ ss) run w =
      with_candidate-Returns run s ss (generate_for tools ss run) (generate_for-Returns ss run)
        (named-Returns s run (tools.uuid4_hex w))

  -- The candidates that the generation for a plan returns match the target symbols one to one and
  -- in order: each bears the run, the symbol's name and its test file, and is either pending with
  -- code that the parser accepts after at most two repairs, or quarantined, with its repairs used
  -- up, or without code because the assembly of its context raised that it was above the budget,
  -- with that error as the reason.
  pub generate-Matched :
      (plan : ExecutionPlan) (w w' : World) (cs : List TestCandidate)
      → generate tools plan w ≡ some (ok cs, w')
      → Matched (effective_run_id tools tools.run_id plan.plan_id) plan.target_symbols cs
  unfolding generate
  generate-Matched plan w w' cs e =
      Returns-value (generate_for-Returns plan.target_symbols _ w) cs w' e
