-- ===== src/Generation/Calls.antt =====
-- The calls of the model by generation/service.py.
use agentic_test_system.Prelude.{
  ℕ, zero, suc, ◌+◌, ◌*◌, ◌≤◌, String, ◌≡◌, refl, ap, ◌∙◌, Bool, true, false, Option, none, some,
  List, [], ◌∷◌, arith, length, ltb, if◌then◌else◌,
}
use agentic_test_system.Core.{
  FilePath, DiffHunk, SymbolContract, continue, lift, ExecutionPlan, TestCandidate,
  ValidationStatus, Result, ok, err, context_budget_error,
}
use agentic_test_system.Generation.Context.{
  GenerationContext, format_prompt, raw_source, extract_symbol_source, assemble, source_path,
  source_of_lines,
}
use agentic_test_system.Generation.Synthesis.{
  CandidateSynthesisSchema, system_instruction, r_max_repairs, is_repairable, GenerationTools,
  Draft, Target, target_of, Generated, checked, attempt, built, repaired, after_attempt, synthesize,
  first_draft, from_context, named, generate_candidate_for_symbol, with_rest, with_candidate,
  generate_for, generate,
}
use agentic_test_system.Generation.Repairs.{attempt-repair_count}

module _ {World : Type 0} (tools : GenerationTools World) (calls : World → ℕ) where
  -- A count of the model's calls: each adds one, and nothing else does.
  pub record IsCallCount : Type 0 where
    pub asks :
        (prompt instruction : String) (w : World)
        → calls (tools.generate_structured prompt instruction w).1 ≡ calls w + 1
    pub names : (w : World) → calls (tools.uuid4_hex w).1 ≡ calls w
    pub clocks : (w : World) → calls (tools.now w).1 ≡ calls w
    pub reads : (f : FilePath) (w : World) → calls (tools.context.read_lines f w).1 ≡ calls w

module _ {World : Type 0} (tools : GenerationTools World) (calls : World → ℕ)
    (counts : IsCallCount tools calls) where
  -- A computation that ends with at most so many calls on the count.
  pub data Within {A : Type 0} (n : ℕ) : Generated World A → Type 0 where
    starved : Within n none
    ended : (r : Result A) (w : World) → calls w ≤ n → Within n (some (r, w))

  built-Within :
      (t : Target) (code : String) (imports : List String) (status : ValidationStatus)
      (reason : Option String) (retries : ℕ) (w : World) (n : ℕ)
      → calls w ≤ n
      → Within n (built tools t code imports status reason retries w)
  unfolding built
  built-Within t code imports status reason retries w n h =
      ended _ _ (omega (arith, counts.clocks w))

  checked-calls :
      (d : Draft) (x : Result CandidateSynthesisSchema × World)
      → calls (checked tools d x).2 ≡ calls x.1
  unfolding checked
  checked-calls d (ok s, w) = refl
  checked-calls d (err e, w) = refl

  attempt-calls : (d : Draft) (w : World) → calls (attempt tools d w).2 ≡ calls w + 1
  unfolding attempt
  attempt-calls d w = omega (
    arith,
    checked-calls d (tools.generate_structured d.current_prompt system_instruction w),
    counts.asks d.current_prompt system_instruction w,
  )

  Within-if :
      {A : Type 0} (n : ℕ) (b : Bool) (o o' : Generated World A)
      → Within n o
      → (b ≡ false → Within n o')
      → Within n (if b then o else o')
  Within-if n true o o' h h' = h
  Within-if n false o o' h h' = h' refl

  after_attempt-Within :
      (t : Target) (initial : String) (next : Draft → World → Generated World TestCandidate)
      (r : Result (Unit {0})) (d : Draft) (w : World) (n : ℕ)
      → calls w ≤ n
      → ((d' : Draft)
          → d'.repair_count ≡ d.repair_count + 1
          → d.repair_count + 1 ≤ 2
          → Within n (next d' w))
      → Within n (after_attempt tools t initial next r d w)
  unfolding after_attempt repaired
  after_attempt-Within t initial next (ok u) d w n small later = built-Within t _ _ _ _ _ w n small
  after_attempt-Within t initial next (err e) d w n small later =
      Within-if n (is_repairable e) _ _
        (Within-if n (ltb r_max_repairs (d.repair_count + 1)) _ _
          (built-Within t _ _ _ _ _ w n small)
          (λ room. later (repaired tools initial e d) refl (ground arith)))
        (λ _. ended (err e) w small)

  synthesize-Within :
      (fuel : ℕ) (t : Target) (initial : String) (d : Draft) (w : World) (n : ℕ)
      → d.repair_count ≤ 2
      → calls w + 3 ≤ n + d.repair_count
      → Within n (synthesize tools fuel t initial d w)
  unfolding synthesize
  synthesize-Within zero t initial d w n few h = starved
  synthesize-Within (suc fuel) t initial d w n few h =
      let x = attempt tools d w in
      after_attempt-Within t initial (synthesize tools fuel t initial) x.0 x.1 x.2 n
        (omega (arith, attempt-calls d w, attempt-repair_count tools d w))
        (λ d' one room.
          synthesize-Within fuel t initial d' x.2 n (omega arith)
            (omega (arith, attempt-calls d w, attempt-repair_count tools d w)))

  from_context-Within :
      (t : Target) (r : Result GenerationContext) (w : World) (n : ℕ)
      → calls w + 3 ≤ n
      → Within n (from_context tools t r w)
  unfolding from_context
  from_context-Within t (ok c) w n h =
      synthesize-Within 3 t (format_prompt c) (first_draft tools (format_prompt c)) w n
        (omega arith) (omega arith)
  from_context-Within t (err (context_budget_error m)) w n h =
      built-Within t _ _ _ _ _ w n (omega arith)
  from_context-Within t (err e) w n h = ended (err e) w (omega arith)

  -- What is made of an answer leaves the world alone.
  same_world :
      {A B : Type 0} (f : A → Result B) (r : Result A) (w : World)
      → (continue (λ a. lift (f a)) r w).1 ≡ w
  same_world f (ok a) w = refl
  same_world f (err e) w = refl

  assemble-calls :
      (budget : ℕ) (s : SymbolContract) (root : Option FilePath) (hunks : List DiffHunk)
      (samples : List String) (w : World)
      → calls (assemble tools.context budget s root hunks samples none w).1 ≡ calls w
  unfolding assemble raw_source extract_symbol_source
  assemble-calls budget s root hunks samples w =
      let x = tools.context.read_lines (source_path s root) w in
      ap calls (same_world _ (continue (λ l. lift (ok (source_of_lines s l))) x.0 x.1).0 _)
      ∙ ap calls (same_world (λ l. ok (source_of_lines s l)) x.0 x.1)
      ∙ counts.reads (source_path s root) w

  named-Within :
      (s : SymbolContract) (run : String) (x : Result String × World) (n : ℕ)
      → calls x.1 + 3 ≤ n
      → Within n (named tools s run x)
  unfolding named
  named-Within s run (err e, w) n h = ended (err e) w (omega arith)
  named-Within s run (ok k, w) n h =
      let x = assemble tools.context tools.max_token_budget s tools.repo_root [] [] none w in
      from_context-Within (target_of s run k) x.0 x.1 n
        (omega (arith, assemble-calls tools.max_token_budget s tools.repo_root [] [] w))

  with_rest-Within :
      (c : TestCandidate) (n : ℕ) {o : Generated World (List TestCandidate)}
      → Within n o
      → Within n (with_rest tools c o)
  with_rest-Within c n starved = starved
  with_rest-Within c n (ended (ok cs) w h) = ended _ w h
  with_rest-Within c n (ended (err e) w h) = ended _ w h

  with_candidate-Within :
      (rest : World → Generated World (List TestCandidate)) (k n : ℕ)
      {o : Generated World TestCandidate}
      → k ≤ n
      → ((w : World) → calls w ≤ k → Within n (rest w))
      → Within k o
      → Within n (with_candidate tools rest o)
  with_candidate-Within rest k n more h starved = starved
  with_candidate-Within rest k n more h (ended (err e) w few) = ended (err e) w (omega arith)
  with_candidate-Within rest k n more h (ended (ok c) w few) = with_rest-Within c n (h w few)

  generate_for-Within :
      (ss : List SymbolContract) (run : String) (w : World) (n : ℕ)
      → calls w + 3 * length ss ≤ n
      → Within n (generate_for tools ss run w)
  unfolding generate_for generate_candidate_for_symbol
  generate_for-Within [] run w n h = ended (ok []) w (omega arith)
  generate_for-Within (s ∷ ss) run w n h =
      with_candidate-Within (generate_for tools ss run) (calls w + 3) n (omega arith)
        (λ w' few. generate_for-Within ss run w' n (omega arith))
        (named-Within s run (tools.uuid4_hex w) (calls w + 3) (omega (arith, counts.names w)))

  Within-calls :
      {A : Type 0} (n : ℕ) {o : Generated World A}
      → Within n o
      → (r : Result A) (w : World) → o ≡ some (r, w)
      → calls w ≤ n
  Within-calls n starved r w e = absurd cc
  Within-calls n (ended r' w' h) r w e =
      let same : w' ≡ w = ap (λ (o : Option (Result _ × World)). world_or w' o) e in rw same at h
    where
      world_or : {A : Type 0} → World → Option (Result A × World) → World
      world_or w none = w
      world_or w (some (r, w')) = w'

  -- Whether it returns or raises, the generation for a plan asks the model at most three times for
  -- each target symbol, by any count of which each request adds one and nothing else does.
  pub generate-calls :
      (plan : ExecutionPlan) (w w' : World) (r : Result (List TestCandidate))
      → generate tools plan w ≡ some (r, w')
      → calls w' ≤ calls w + 3 * length plan.target_symbols
  unfolding generate
  generate-calls plan w w' r e =
      Within-calls _ (generate_for-Within plan.target_symbols _ w _ (omega arith)) r w' e
