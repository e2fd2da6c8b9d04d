-- ===== src/Generation/Repairs.antt =====
-- The rounds of the repair loop of generation/service.py.
use agentic_test_system.Prelude.{
  ℕ, zero, suc, ◌+◌, ◌≤◌, ◌<◌, String, ◌≡◌, refl, Bool, true, false, Option, none, some, List, [],
  ◌∷◌, arith, Ends, ltb, if◌then◌else◌,
}
use agentic_test_system.Core.{
  SymbolContract, ExecutionPlan, TestCandidate, Result, ok, err, context_budget_error,
}
use agentic_test_system.Generation.Context.{GenerationContext, format_prompt}
use agentic_test_system.Generation.Synthesis.{
  CandidateSynthesisSchema, r_max_repairs, is_repairable, GenerationTools, Draft, Target, target_of,
  Generated, checked, attempt, built, repaired, after_attempt, synthesize, first_draft,
  from_context, named, generate_candidate_for_symbol, with_rest, with_candidate, generate_for,
  generate,
}

module _ {World : Type 0} (tools : GenerationTools World) where
  checked-repair_count :
      (d : Draft) (x : Result CandidateSynthesisSchema × World)
      → (checked tools d x).1.repair_count ≡ d.repair_count
  unfolding checked
  checked-repair_count d (ok s, w) = refl
  checked-repair_count d (err e, w) = refl

  pub attempt-repair_count :
      (d : Draft) (w : World) → (attempt tools d w).1.repair_count ≡ d.repair_count
  unfolding attempt
  attempt-repair_count d w = checked-repair_count d _

  if-Ends :
      {A : Type 0} (b : Bool) (o o' : Option A)
      → (b ≡ true → Ends o)
      → (b ≡ false → Ends o')
      → Ends (if b then o else o')
  if-Ends true o o' h h' = h refl
  if-Ends false o o' h h' = h' refl

  after_attempt-Ends :
      (t : Target) (initial : String) (next : Draft → World → Generated World TestCandidate)
      (r : Result (Unit {0})) (d : Draft) (w : World)
      → ((d' : Draft) (w' : World)
          → d'.repair_count ≡ d.repair_count + 1
          → d.repair_count + 1 ≤ 2
          → Ends (next d' w'))
      → Ends (after_attempt tools t initial next r d w)
  unfolding after_attempt repaired built
  after_attempt-Ends t initial next (ok u) d w h = (_, refl)
  after_attempt-Ends t initial next (err e) d w h =
      if-Ends (is_repairable e) _ _
        (λ _.
          if-Ends (ltb r_max_repairs (d.repair_count + 1)) _ _ (λ _. (_, refl))
            (λ small. h (repaired tools initial e d) w refl (ground arith)))
        (λ _. (_, refl))

  -- With three rounds less the repairs made, and one more, the loop ends.
  synthesize-Ends :
      (fuel : ℕ) (t : Target) (initial : String) (d : Draft) (w : World)
      → d.repair_count ≤ 2
      → 2 < fuel + d.repair_count
      → Ends (synthesize tools fuel t initial d w)
  unfolding synthesize
  synthesize-Ends zero t initial d w small enough = absurd (omega arith)
  synthesize-Ends (suc fuel) t initial d w small enough =
      let (r, d', w') = attempt tools d w in
      after_attempt-Ends t initial (synthesize tools fuel t initial) r d' w' (λ d'' w'' one few.
        synthesize-Ends fuel t initial d'' w'' (omega arith)
          (omega (arith, attempt-repair_count d w)))

  from_context-Ends :
      (t : Target) (r : Result GenerationContext) (w : World) → Ends (from_context tools t r w)
  unfolding from_context built
  from_context-Ends t (ok c) w =
      synthesize-Ends 3 t (format_prompt c) (first_draft tools (format_prompt c)) w (omega arith)
        (omega arith)
  from_context-Ends t (err (context_budget_error m)) w = (_, refl)
  from_context-Ends t (err e) w = (_, refl)

  named-Ends :
      (s : SymbolContract) (run : String) (x : Result String × World) → Ends (named tools s run x)
  unfolding named
  named-Ends s run (err e, w) = (_, refl)
  named-Ends s run (ok k, w) = from_context-Ends (target_of s run k) _ _

  with_rest-Ends :
      (c : TestCandidate) (o : Generated World (List TestCandidate))
      → Ends o
      → Ends (with_rest tools c o)
  with_rest-Ends c none (x, e) = absurd cc
  with_rest-Ends c (some (err e, w)) h = (_, refl)
  with_rest-Ends c (some (ok cs, w)) h = (_, refl)

  with_candidate-Ends :
      (rest : World → Generated World (List TestCandidate)) (o : Generated World TestCandidate)
      → ((w : World) → Ends (rest w))
      → Ends o
      → Ends (with_candidate tools rest o)
  with_candidate-Ends rest none h (x, e) = absurd cc
  with_candidate-Ends rest (some (err e, w)) h k = (_, refl)
  with_candidate-Ends rest (some (ok c, w)) h k = with_rest-Ends c (rest w) (h w)

  generate_for-Ends :
      (ss : List SymbolContract) (run : String) (w : World) → Ends (generate_for tools ss run w)
  unfolding generate_for generate_candidate_for_symbol
  generate_for-Ends [] run w = (_, refl)
  generate_for-Ends (s ∷ ss) run w =
      with_candidate-Ends (generate_for tools ss run) (generate_candidate_for_symbol tools s run w)
        (generate_for-Ends ss run) (named-Ends s run (tools.uuid4_hex w))

  -- Whatever the model, the parser and the files answer, the generation for a plan ends: the three
  -- rounds for each symbol are enough.
  pub generate-Ends : (plan : ExecutionPlan) (w : World) → Ends (generate tools plan w)
  unfolding generate
  generate-Ends plan w = generate_for-Ends plan.target_symbols _ w
