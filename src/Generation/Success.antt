-- ===== src/Generation/Success.antt =====
-- When generation/service.py comes to a candidate that the parser accepts for every symbol.
use agentic_test_system.Prelude.{
  ◌∙◌, ℕ, zero, suc, ◌+◌, ◌≤◌, ◌<◌, String, ◌≡◌, refl, true, false, none, some, List, [], ◌∷◌, ◌⊎◌,
  inl, inr, All, arith, ltb,
}
use agentic_test_system.Core.{
  SymbolContract, ExecutionPlan, TestCandidate, pending, Exn, Result, ok, err,
}
use agentic_test_system.Generation.Context.{GenerationContext, assemble, format_prompt}
use agentic_test_system.Generation.Synthesis.{
  CandidateSynthesisSchema, system_instruction, r_max_repairs, is_repairable, GenerationTools,
  Draft, Target, target_of, candidate_for, Generated, verify_syntax, checked, attempt, built,
  repaired, after_attempt, synthesize, first_draft, from_context, named,
  generate_candidate_for_symbol, generate_for, generate,
}
use agentic_test_system.Generation.Packaging.{checked_verified}
use agentic_test_system.Generation.Repairs.{attempt-repair_count}

module _ {World : Type 0} (tools : GenerationTools World) where
  -- What the parser makes of an answer of the model.
  abbrev pub parsed_answer : Result CandidateSynthesisSchema → Result (Unit {0})
  parsed_answer (ok s) = verify_syntax tools s.test_code s.imports
  parsed_answer (err e) = err e

  -- What the model answers in a world, and the world behind it.
  abbrev pub asked_model : String → World → Result CandidateSynthesisSchema × World
  asked_model prompt w = tools.generate_structured prompt system_instruction w

  module _ (errs : World → ℕ) where
    -- An answer is one that the parser accepts, or else an error that can be repaired, and one less
    -- is to come.
    abbrev pub IsForgivable : String → World → Type 0
    IsForgivable prompt w =
        (parsed_answer (asked_model prompt w).0 ≡ ok tt)
        ⊎ ((e : Exn) × (parsed_answer (asked_model prompt w).0 ≡ err e)
            × (is_repairable e ≡ true)
            × (errs (asked_model prompt w).1 < errs w))

    -- A fresh identifier is drawn, and at most two errors are to come behind it.
    abbrev pub StartsAfresh : World → Type 0
    StartsAfresh w = (k : String) × (w' : World) × (tools.uuid4_hex w ≡ (ok k, w')) × (errs w' ≤ 2)

    -- The context of a symbol is assembled within the budget, and without new errors to come.
    abbrev pub HasContext : SymbolContract → World → Type 0
    HasContext s w =
        (c : GenerationContext) × (w' : World) × (assemble tools.context tools.max_token_budget s
            tools.repo_root [] [] none w
          ≡ (ok c, w'))
        × (errs w' ≤ errs w)

  -- A candidate that is pending, with code that the parser accepts.
  abbrev pub IsAccepted : TestCandidate → Type 0
  IsAccepted c =
      (c.validation_status ≡ pending) × (verify_syntax tools c.candidate_code c.imports ≡ ok tt)

  -- A computation returns, with a value of which something holds.
  abbrev pub Succeeds : {A : Type 0} → (A → Type 0) → Generated World A → Type 0
  Succeeds {A = A} P o = (a : A) × (w : World) × (o ≡ some (ok a, w)) × P a

  checked-outcome :
      (d : Draft) (x : Result CandidateSynthesisSchema × World)
      → (checked tools d x).0 ≡ parsed_answer x.0
  unfolding checked
  checked-outcome d (ok s, w) = refl
  checked-outcome d (err e, w) = refl

  checked-world :
      (d : Draft) (x : Result CandidateSynthesisSchema × World) → (checked tools d x).2 ≡ x.1
  unfolding checked
  checked-world d (ok s, w) = refl
  checked-world d (err e, w) = refl

  after_attempt-accepts :
      (t : Target) (initial : String) (next : Draft → World → Generated World TestCandidate)
      (r : Result (Unit {0})) (d : Draft) (w : World)
      → r ≡ ok tt
      → verify_syntax tools d.last_code d.last_imports ≡ ok tt
      → Succeeds IsAccepted (after_attempt tools t initial next r d w)
  unfolding after_attempt built candidate_for
  after_attempt-accepts t initial next (ok u) d w h v = (_, _, refl, (refl, v))
  after_attempt-accepts t initial next (err e) d w h v = absurd cc

  after_attempt-repairs :
      (t : Target) (initial : String) (next : Draft → World → Generated World TestCandidate)
      (r : Result (Unit {0})) (d : Draft) (w : World) (e : Exn)
      → r ≡ err e
      → is_repairable e ≡ true
      → d.repair_count + 1 ≤ 2
      → ((d' : Draft) → d'.repair_count ≡ d.repair_count + 1 → Succeeds IsAccepted (next d' w))
      → Succeeds IsAccepted (after_attempt tools t initial next r d w)
  unfolding after_attempt repaired
  after_attempt-repairs t initial next (ok u) d w e h mends room later = absurd cc
  after_attempt-repairs t initial next (err x) d w e h mends room later =
      let same : x ≡ e = cc in
      let few : ltb r_max_repairs (d.repair_count + 1) ≡ false = ground arith in
      rw (same, mends, few) (later (repaired tools initial e d) refl)

  module _ (errs : World → ℕ)
      (forgiving : (prompt : String) (w : World) → IsForgivable errs prompt w)
      (afresh : (w : World) → StartsAfresh errs w) where
    synthesize-Succeeds :
        (fuel : ℕ) (t : Target) (initial : String) (d : Draft) (w : World)
        → d.repair_count + errs w ≤ 2
        → 2 < fuel + d.repair_count
        → Succeeds IsAccepted (synthesize tools fuel t initial d w)
    unfolding synthesize attempt
    synthesize-Succeeds zero t initial d w left enough = absurd (omega arith)
    synthesize-Succeeds (suc fuel) t initial d w left enough =
        let x = asked_model d.current_prompt w in
        let outcome = checked-outcome d x in
        let behind = checked-world d x in
        let count = attempt-repair_count tools d w in
        elim (forgiving d.current_prompt w) [
          | inl good ↦
              after_attempt-accepts t initial (synthesize tools fuel t initial)
                (attempt tools d w).0 (attempt tools d w).1 (attempt tools d w).2 (outcome ∙ good)
                (checked_verified tools d x tt (outcome ∙ good))
          | inr (e, bad, mends, less) ↦
              after_attempt-repairs t initial (synthesize tools fuel t initial)
                (attempt tools d w).0 (attempt tools d w).1 (attempt tools d w).2 e (outcome ∙ bad)
                mends (omega (arith, count))
                (λ d' one.
                  synthesize-Succeeds fuel t initial d' (attempt tools d w).2
                    (let fewer : errs (attempt tools d w).2 < errs w = rw behind less in
                      omega (arith, count))
                    (omega (arith, count)))
        ]

    candidate-Succeeds :
        (s : SymbolContract) (run : String) (w : World)
        → ((w : World) → HasContext errs s w)
        → Succeeds IsAccepted (generate_candidate_for_symbol tools s run w)
    unfolding generate_candidate_for_symbol named from_context
    candidate-Succeeds s run w fits =
        let (k, w1, drawn, few) = afresh w in
        let (c, w2, assembled, no_more) = fits w1 in
        rw (drawn, assembled)
          (synthesize-Succeeds 3 (target_of s run k) (format_prompt c)
            (first_draft tools (format_prompt c)) w2 (omega arith) (omega arith))

    generate_for-Succeeds :
        (ss : List SymbolContract) (run : String) (w : World)
        → All (λ s. (w : World) → HasContext errs s w) ss
        → Succeeds (All IsAccepted) (generate_for tools ss run w)
    unfolding generate_for
    generate_for-Succeeds [] run w fits = (_, _, refl, tt)
    generate_for-Succeeds (s ∷ ss) run w fits =
        let (c, w1, e, accepted) = candidate-Succeeds s run w fits.0 in
        let (cs, w2, e', others) = generate_for-Succeeds ss run w1 fits.1 in
        (c ∷ cs, w2, rw (e, e') refl, (accepted, others))

    -- Where the model errs at most twice behind each fresh identifier, and only in ways that can be
    -- repaired, every fresh identifier is drawn, and the context of each target symbol is assembled
    -- within the budget, the generation for a plan returns, and every candidate is pending, with code
    -- that the parser accepts: none is given up.
    pub generate-Succeeds :
        (plan : ExecutionPlan) (w : World)
        → All (λ s. (w : World) → HasContext errs s w) plan.target_symbols
        → Succeeds (All IsAccepted) (generate tools plan w)
    unfolding generate
    generate-Succeeds plan w fits = generate_for-Succeeds plan.target_symbols _ w fits
