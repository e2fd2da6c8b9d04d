-- ===== src/Tests/Models.antt =====
-- Generation and triage with a concrete model that answers the same to every prompt.
use agentic_test_system.Prelude.{
  zero, inr, inl, arith, String, All, ℕ, suc, ◌+◌, ◌*◌, ◌≤◌, int_eq, ◌≡◌, refl, true, false, none,
  some, List, [], ◌∷◌, length, Ends,
}
use agentic_test_system.Core.{
  FailureDiagnosis, ExecutionEvidence, environment_failure, TestCandidate, schema_validation_error,
  Result, ok, err,
}
use agentic_test_system.Generation.Context.{
  GenerationContext, ContextTools, assemble, estimate_tokens, prune_and_package,
}
use agentic_test_system.Generation.Budget.{IsFaithfulPackage, prune_and_package-IsFaithful}
use agentic_test_system.Generation.Success.{
  IsForgivable, HasContext, Succeeds, IsAccepted, generate-Succeeds,
}
use agentic_test_system.Generation.Synthesis.{
  CandidateSynthesisSchema, verify_syntax, is_repairable, GenerationTools, Generated,
  effective_run_id, generate,
}
use agentic_test_system.Generation.Repairs.{generate-Ends}
use agentic_test_system.Generation.Packaging.{Matched, generate-Matched}
use agentic_test_system.Generation.Calls.{IsCallCount, generate-calls}
use agentic_test_system.Diagnosis.Rules.{TextTools, RuleClassificationResult}
use agentic_test_system.Diagnosis.Cognitive
use agentic_test_system.Diagnosis.Cognitive.{CognitiveTools, DiagnosisResponseSchema}
use agentic_test_system.Diagnosis.Service.{DiagnosisTools, by_name, diagnose}
use agentic_test_system.Diagnosis.Triage.{
  IsAllowed, classify-IsAllowed, IsDiagnosis, diagnose-IsDiagnosis,
}
use agentic_test_system.Tests.Data.{tally, add_symbol, calc_plan, add_evidence, add_candidate}

abbrev plain_texts : ContextTools ℕ
plain_texts = record {
  re_sub = λ pattern replacement text. text;
  llm_estimate = some (λ text. 7);
  read_lines = λ file w. (ok none, w);
}

abbrev small_context : GenerationContext
small_context = record {
  target_symbol = add_symbol;
  diff_content = "diff";
  source_code = "source";
  dependencies = "math" ∷ [];
  existing_test_samples = [];
  token_count = 7;
}

prune_and_package-IsFaithful_example :
    IsFaithfulPackage plain_texts 10 add_symbol "diff" "source" ("math" ∷ []) [] small_context
unfolding prune_and_package estimate_tokens
prune_and_package-IsFaithful_example =
    prune_and_package-IsFaithful plain_texts 10 add_symbol "diff" "source" ("math" ∷ []) []
      small_context refl

-- A model whose answers never conform to the schema. The world counts its calls.
abbrev stubborn : GenerationTools ℕ
stubborn = record {
  context = plain_texts;
  max_token_budget = 4000;
  run_id = some "run";
  repo_root = none;
  generate_structured = λ prompt instruction w. (err (schema_validation_error "no JSON"), w + 1);
  ast_parse = λ code. ok tt;
  uuid4_hex = λ w. (ok "0", w);
  now = λ w. (w, w);
}

-- A model whose first answer conforms.
abbrev obliging : GenerationTools ℕ
obliging = record stubborn {
  generate_structured = λ prompt instruction w. (
    ok (record {
      imports = "import calc" ∷ [];
      test_code = "def test_add(): assert calc.add(1, 1) == 2";
      rationale = "";
      mock_targets = [];
    }),
    w + 1,
  );
}

abbrev result_after : Generated ℕ (List TestCandidate) → Result (List TestCandidate)
result_after none = ok []
result_after (some (r, w)) = r

abbrev world_after : Generated ℕ (List TestCandidate) → ℕ
world_after none = 0
world_after (some (r, w)) = w

abbrev candidates_of : Result (List TestCandidate) → List TestCandidate
candidates_of (ok cs) = cs
candidates_of (err e) = []

generate-Ends_example : Ends (generate stubborn calc_plan 0)
generate-Ends_example = generate-Ends stubborn calc_plan 0

generate-Matched_example :
    Matched obliging
      (effective_run_id obliging (some "run") "plan")
      (add_symbol ∷ [])
      (candidates_of (result_after (generate obliging calc_plan 0)))
unfolding generate assemble
generate-Matched_example =
    generate-Matched obliging calc_plan 0 (world_after (generate obliging calc_plan 0))
      (candidates_of (result_after (generate obliging calc_plan 0))) refl

call_count : IsCallCount stubborn (λ w. w)
call_count = record {
  asks = λ prompt instruction w. refl;
  names = λ w. refl;
  clocks = λ w. refl;
  reads = λ f w. refl;
}

generate-calls_example :
    world_after (generate stubborn calc_plan 0) ≤ 0 + 3 * length (add_symbol ∷ [])
unfolding generate assemble
generate-calls_example =
    generate-calls stubborn (λ w. w) call_count calc_plan 0
      (world_after (generate stubborn calc_plan 0)) (result_after (generate stubborn calc_plan 0))
      refl

-- ---- Triage ----

abbrev no_patterns : TextTools
no_patterns = record {
  search = λ pattern text. false;
  findall = λ pattern text. [];
  lower = λ text. text;
}

-- A model that blames the environment, which only the rules may.
abbrev blaming : CognitiveTools ℕ
blaming = record {
  generate_structured = λ prompt instruction w. (
    ok (record { category = environment_failure; confidence = 950_000; explanation = "host" }),
    suc w,
  );
  two_places = λ d. "0.95";
}

abbrev triage : DiagnosisTools ℕ
triage = record {
  texts = no_patterns;
  cognitive = blaming;
  uuid4 = λ w. (tally w, suc w);
  now = λ w. (w, suc w);
}

classify-IsAllowed_example :
    (r : DiagnosisResponseSchema) × ((Cognitive.classify blaming add_evidence
        (some add_candidate)
        none
        none
        none
        none
        0).0
      ≡ ok r)
    × IsAllowed blaming r
classify-IsAllowed_example =
    classify-IsAllowed blaming add_evidence (some add_candidate) none none none none 0

diagnose-IsDiagnosis_example :
    (d : FailureDiagnosis) × ((diagnose triage add_evidence
        (some add_candidate)
        none
        (some (by_name "calc.add"))
        none
        none
        0).0
      ≡ ok d)
    × IsDiagnosis triage add_evidence d
diagnose-IsDiagnosis_example =
    diagnose-IsDiagnosis triage add_evidence (some add_candidate) none (some (by_name "calc.add"))
      none none 0

-- What the rules say of a run that was out of time.
abbrev timeout_evidence : ExecutionEvidence
timeout_evidence = record add_evidence { timed_out = true }

abbrev timeout_result : RuleClassificationResult
timeout_result = record {
  category = environment_failure;
  confidence = 1_000_000;
  explanation = "Execution timed out (timeout flag set or exit code 124).";
}

-- A model that errs twice for each symbol before an answer conforms. The world counts the errors
-- that are to come.
abbrev clumsy_answer : ℕ → Result CandidateSynthesisSchema × ℕ
clumsy_answer zero = (
  ok (record {
    imports = "import calc" ∷ [];
    test_code = "def test_add(): assert calc.add(1, 1) == 2";
    rationale = "";
    mock_targets = [];
  }),
  0,
)
clumsy_answer (suc n) = (err (schema_validation_error "no JSON"), n)

abbrev clumsy : GenerationTools ℕ
clumsy = record stubborn {
  generate_structured = λ prompt instruction w. clumsy_answer w;
  uuid4_hex = λ w. (ok "0", 2);
}

clumsy-IsForgivable : (prompt : String) (w : ℕ) → IsForgivable clumsy (λ w. w) prompt w
unfolding verify_syntax is_repairable
clumsy-IsForgivable prompt zero = inl refl
clumsy-IsForgivable prompt (suc n) =
    inr (schema_validation_error "no JSON", refl, refl, omega arith)

clumsy_context : (w : ℕ) → HasContext clumsy (λ w. w) add_symbol w
unfolding assemble
clumsy_context w = (_, _, refl, omega arith)

generate-Succeeds_example : Succeeds clumsy (All (IsAccepted clumsy)) (generate clumsy calc_plan 0)
generate-Succeeds_example =
    generate-Succeeds clumsy (λ w. w) clumsy-IsForgivable (λ w. ("0", 2, refl, omega arith))
      calc_plan 0 (clumsy_context, tt)
