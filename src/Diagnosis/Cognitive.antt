-- ===== src/Diagnosis/Cognitive.antt =====
-- diagnosis/llm_classifier.py: the triage by the model (engine 2).
use agentic_test_system.Prelude.{
  shown_int, String, Bool, true, false, ◌||◌, Option, none, some, List, [], ◌∷◌, ◌++◌, ◌==◌,
  string_eq, ◌<>◌, is_blank, ltb, join, if◌then◌else◌,
}
use agentic_test_system.Core.{
  Decimal, DiffHunk, ExecutionEvidence, FailureCategory, test_outdated, application_bug,
  invalid_generated_test, environment_failure, configuration_error, llm_failure, unknown,
  category_eq, SymbolContract, TestCandidate, Exn, llm_communication_error, schema_validation_error,
  other_error, str, Result, ok, err, Action,
}
use agentic_test_system.Generation.Context.{symbol_type_value}

pub record DiagnosisResponseSchema : Type 0 where
  pub category : FailureCategory
  pub confidence : Decimal
  pub explanation : String

-- CONFIDENCE_THRESHOLD, 0.70 in millionths.
abbrev pub confidence_threshold : Decimal
confidence_threshold = 700_000

-- `FailureCategory.value`.
unfoldable pub category_value : FailureCategory → String
category_value test_outdated = "TEST_OUTDATED"
category_value application_bug = "APPLICATION_BUG"
category_value invalid_generated_test = "INVALID_GENERATED_TEST"
category_value environment_failure = "ENVIRONMENT_FAILURE"
category_value configuration_error = "CONFIGURATION_ERROR"
category_value llm_failure = "LLM_FAILURE"
category_value unknown = "UNKNOWN"

-- `raw_response.category in self._RESERVED_DETERMINISTIC_CATEGORIES`
unfoldable pub is_reserved : FailureCategory → Bool
is_reserved c = c == environment_failure || c == configuration_error

shown_bool : Bool → String
shown_bool true = "True"
shown_bool false = "False"

-- `if text: sections.append(title + text)`
section_of : String → Option String → List String
section_of title none = []
section_of title (some text) = if is_blank text then [] else (title <> text) ∷ []

-- `docstring or 'None'`
docstring_or_none : Option String → String
docstring_or_none none = "None"
docstring_or_none (some d) = if is_blank d then "None" else d

symbol_section : Option SymbolContract → List String
unfolding docstring_or_none
symbol_section none = []
symbol_section (some s) =
    ("=== TARGET SYMBOL ===\n"
      <> "Qualified Name: "
      <> s.qualified_name
      <> "\n"
      <> "Symbol Type: "
      <> symbol_type_value s.symbol_type
      <> "\n"
      <> "Signature: "
      <> s.signature
      <> "\n"
      <> "Docstring: "
      <> docstring_or_none s.docstring)
    ∷ []

abbrev triage_instructions : String
triage_instructions =
    "=== TRIAGE INSTRUCTIONS ===\nAnalyze the execution failure and disambiguate the root cause across the canonical taxonomy:\n- APPLICATION_BUG: The test correctly exposed a defect, regression, or unmet requirement in target application code.\n- TEST_OUTDATED: The test expectations are obsolete due to intentional changes in application behavior or contracts.\n- INVALID_GENERATED_TEST: The test candidate has flawed logic, invalid assertions, or wrong assumptions.\n- UNKNOWN: Ambiguous failure where evidence is insufficient to determine root cause.\n\nProvide your diagnosis strictly conforming to the requested JSON schema: category, confidence (0.0 to 1.0), and explanation."

abbrev pub diagnosis_instruction : String
diagnosis_instruction =
    "You are an expert Python QA and testing diagnostic architect. Analyze the provided test execution failure evidence and determine the precise root cause. Respond strictly conforming to the JSON response schema."

-- `a or b` of optional texts.
abbrev pub or_text : Option String → Option String → Option String
or_text none b = b
or_text (some t) b = if is_blank t then b else some t

abbrev code_of_candidate : Option TestCandidate → Option String
code_of_candidate none = none
code_of_candidate (some c) = some c.candidate_code

abbrev content_of_hunk : Option DiffHunk → Option String
content_of_hunk none = none
content_of_hunk (some h) = some h.content

-- The model, by prompt and system instruction, and the format `:.2f`.
pub record CognitiveTools (World : Type 0) : Type 0 where
  pub generate_structured : String → String → Action World DiagnosisResponseSchema
  pub two_places : Decimal → String

module _ {World : Type 0} (tools : CognitiveTools World) where
  unfoldable pub build_prompt :
      ExecutionEvidence → Option String → Option SymbolContract → Option String → String
  unfolding shown_int shown_bool section_of symbol_section
  build_prompt e candidate_code target_symbol diff_content = join "\n\n" (
      "=== EXECUTION EVIDENCE ==="
      ∷ ("Exit Code: " <> shown_int e.exit_code)
      ∷ ("Timed Out: " <> shown_bool e.timed_out)
      ∷ ("Duration: " <> tools.two_places e.duration_sec <> "s")
      ∷ (section_of "Traceback:\n" e.traceback
          ++ (section_of "Stderr:\n" (some e.stderr)
              ++ (section_of "Stdout:\n" (some e.stdout)
                  ++ (section_of "=== TEST CANDIDATE CODE ===\n" candidate_code
                      ++ (symbol_section target_symbol
                          ++ (section_of "=== RECENT CODE MODIFICATIONS (DIFF) ===\n" diff_content
                              ++ triage_instructions ∷ [])))))))

  abbrev fallback : FailureCategory → String → DiagnosisResponseSchema
  fallback category explanation = record {
    category = category;
    confidence = 0;
    explanation = explanation;
  }

  -- The three `except` clauses.
  unfoldable pub response_of_error : Exn → DiagnosisResponseSchema
  response_of_error (llm_communication_error m) =
      fallback llm_failure ("LLM communication failed: " <> m)
  response_of_error (schema_validation_error m) =
      fallback llm_failure ("LLM response schema validation failed: " <> m)
  response_of_error (other_error c m) =
      if c == "TimeoutError"
      then fallback llm_failure ("LLM communication failed: " <> m)
      else if c == "ValidationError"
      then fallback llm_failure ("LLM response schema validation failed: " <> m)
      else fallback unknown ("Cognitive triage encountered unexpected error: " <> m)
  response_of_error e =
      fallback unknown ("Cognitive triage encountered unexpected error: " <> str e)

  -- The two policies behind the `try`.
  unfoldable pub normalized : DiagnosisResponseSchema → DiagnosisResponseSchema
  unfolding is_reserved category_value
  normalized r =
      if is_reserved r.category
      then (record {
        category = unknown;
        confidence = r.confidence;
        explanation =
            "Category "
            <> category_value r.category
            <> " is reserved for deterministic rules; normalized to UNKNOWN: "
            <> r.explanation;
      })
      else if ltb r.confidence confidence_threshold
      then (record {
        category = unknown;
        confidence = r.confidence;
        explanation =
            "Low confidence ("
            <> tools.two_places r.confidence
            <> " < "
            <> tools.two_places confidence_threshold
            <> "): "
            <> r.explanation;
      })
      else r

  unfoldable pub answered : Result DiagnosisResponseSchema → DiagnosisResponseSchema
  unfolding normalized response_of_error
  answered (ok r) = normalized r
  answered (err e) = response_of_error e

  -- The prompt of `classify`, with the candidate's code and the hunk where the texts are left out.
  unfoldable pub triage_prompt :
      ExecutionEvidence
      → Option TestCandidate
      → Option String
      → Option SymbolContract
      → Option DiffHunk
      → Option String
      → String
  unfolding build_prompt
  triage_prompt e candidate candidate_code target_symbol diff_hunk diff_content =
      build_prompt e (or_text candidate_code (code_of_candidate candidate)) target_symbol
        (or_text diff_content (content_of_hunk diff_hunk))

  unfoldable pub classify :
      ExecutionEvidence
      → Option TestCandidate
      → Option String
      → Option SymbolContract
      → Option DiffHunk
      → Option String
      → Action World DiagnosisResponseSchema
  unfolding answered triage_prompt
  classify e candidate candidate_code target_symbol diff_hunk diff_content w =
      let prompt = triage_prompt e candidate candidate_code target_symbol diff_hunk diff_content in
      let (r, w') = tools.generate_structured prompt diagnosis_instruction w in
      (ok (answered r), w')
