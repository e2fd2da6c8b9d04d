-- ===== src/Generation/Synthesis.antt =====
-- generation/service.py: a candidate for each target symbol, synthesised by the model and repaired
-- at most `r_max_repairs` times.
use agentic_test_system.Prelude.{
  shown, ℕ, zero, suc, ◌+◌, ◌-◌, String, Bool, true, false, ◌||◌, Option, none, some, List, [], ◌∷◌,
  ◌==◌, string_eq, ◌<>◌, is_blank, ltb, join, has_prefix, if◌then◌else◌,
}
use agentic_test_system.Core.{
  FilePath, Timestamp, SymbolContract, ExecutionPlan, TestCandidate, ValidationStatus, pending,
  quarantined, Exn, context_budget_error, llm_communication_error, schema_validation_error,
  syntax_error, other_error, str, Result, ok, err, Action,
}
use agentic_test_system.Core.Paths.{name_of, stem_of}
use agentic_test_system.Generation.Context.{
  GenerationContext, ContextTools, format_prompt, assemble,
}

-- generation/schemas.py
pub record CandidateSynthesisSchema : Type 0 where
  pub imports : List String
  pub test_code : String
  pub rationale : String
  pub mock_targets : List String

abbrev pub r_max_repairs : ℕ
r_max_repairs = 2

abbrev pub system_instruction : String
system_instruction =
    "You are an expert Python test engineer generating robust, isolated pytest unit tests. Adhere strictly to standard pytest conventions. Use unittest.mock or in-memory fixtures. Never generate direct filesystem write operations, shell commands, or network calls. Output must conform strictly to the required structured schema."

-- `isinstance(err, (SchemaValidationError, SyntaxError, LLMCommunicationError))`; the subclasses of
-- SyntaxError are named.
unfoldable pub is_repairable : Exn → Bool
is_repairable (schema_validation_error m) = true
is_repairable (syntax_error m) = true
is_repairable (llm_communication_error m) = true
is_repairable (other_error c m) = c == "IndentationError" || c == "TabError"
is_repairable _ = false

-- `type(err).__name__` of what is repairable.
unfoldable pub class_name : Exn → String
class_name (schema_validation_error m) = "SchemaValidationError"
class_name (syntax_error m) = "SyntaxError"
class_name (llm_communication_error m) = "LLMCommunicationError"
class_name (other_error c m) = c
class_name _ = ""

unfoldable pub build_repair_prompt : String → String → String → ℕ → String
build_repair_prompt initial_prompt previous_code error_message attempt_number =
    initial_prompt
    <> "\n\n"
    <> "=== PREVIOUS SYNTHESIS ATTEMPT (Attempt "
    <> shown attempt_number
    <> ") ===\n"
    <> previous_code
    <> "\n\n"
    <> "=== REPAIR INSTRUCTION ===\n"
    <> "The previous attempt failed with the following error:\n"
    <> error_message
    <> "\n"
    <> "Please correct the error, fix syntax or schema issues, and return a clean, "
    <> "compliant unit test candidate."

unfoldable pub derive_test_file_path : SymbolContract → FilePath
derive_test_file_path s =
    let stem = stem_of (name_of s.file_path) in
    "tests/" <> (if has_prefix stem "test_" then stem else "test_" <> stem) <> ".py"

-- The service's fields, and what it takes from outside: the model, `ast.parse`, the first eight hex
-- digits of a fresh identifier, and the clock.
pub record GenerationTools (World : Type 0) : Type 0 where
  pub context : ContextTools World
  pub max_token_budget : ℕ
  pub run_id : Option String
  pub repo_root : Option FilePath
  -- prompt, system instruction
  pub generate_structured : String → String → Action World CandidateSynthesisSchema
  pub ast_parse : String → Result (Unit {0})
  pub uuid4_hex : Action World String
  pub now : World → Timestamp × World

-- The local variables of the repair loop.
pub record Draft : Type 0 where
  pub current_prompt : String
  pub repair_count : ℕ
  pub last_code : String
  pub last_imports : List String

-- What every candidate of one symbol shares.
pub record Target : Type 0 where
  pub candidate_id : String
  pub run_id : String
  pub symbol : SymbolContract

abbrev pub target_of : SymbolContract → String → String → Target
target_of s run k = record { candidate_id = "tc-" <> k; run_id = run; symbol = s }

unfoldable pub candidate_for :
    Target → String → List String → ValidationStatus → Option String → ℕ → Timestamp → TestCandidate
unfolding derive_test_file_path
candidate_for t code imports status reason retries created = record {
  candidate_id = t.candidate_id;
  run_id = t.run_id;
  target_symbol_name = t.symbol.qualified_name;
  test_file_path = derive_test_file_path t.symbol;
  candidate_code = code;
  imports = imports;
  validation_status = status;
  quarantine_reason = reason;
  retry_count = retries;
  created_at = created;
}

-- What a computation ends with; `none` means that the fuel ran out.
abbrev pub Generated : Type 0 → Type 0 → Type 0
Generated World A = Option (Result A × World)

module _ {World : Type 0} (tools : GenerationTools World) where
  unfoldable pub verify_syntax : String → List String → Result (Unit {0})
  verify_syntax code imports = tools.ast_parse (join "\n" imports <> "\n\n" <> code)

  -- The body of the `try` behind the call of the model.
  unfoldable pub checked :
      Draft → Result CandidateSynthesisSchema × World → Result (Unit {0}) × Draft × World
  unfolding verify_syntax
  checked d (err e, w) = (err e, d, w)
  checked d (ok s, w) = (
    verify_syntax s.test_code s.imports,
    record d { last_code = s.test_code; last_imports = s.imports },
    w,
  )

  unfoldable pub attempt : Draft → World → Result (Unit {0}) × Draft × World
  unfolding checked
  attempt d w = checked d (tools.generate_structured d.current_prompt system_instruction w)

  -- A candidate as it is built, with the time of the clock.
  unfoldable pub built :
      Target
      → String
      → List String
      → ValidationStatus
      → Option String
      → ℕ
      → World
      → Generated World TestCandidate
  unfolding candidate_for
  built t code imports status reason retries w =
      let (now, w') = tools.now w in
      some (ok (candidate_for t code imports status reason retries now), w')

  -- The draft for the next attempt.
  unfoldable pub repaired : String → Exn → Draft → Draft
  unfolding class_name build_repair_prompt
  repaired initial_prompt e d = record d {
    repair_count = d.repair_count + 1;
    current_prompt =
        build_repair_prompt initial_prompt d.last_code (class_name e <> ": " <> str e)
          (d.repair_count + 1);
  }

  -- The `except`: another round, or quarantine behind the last one.
  unfoldable pub after_attempt :
      Target
      → String
      → (Draft → World → Generated World TestCandidate)
      → Result (Unit {0})
      → Draft
      → World
      → Generated World TestCandidate
  unfolding built repaired is_repairable
  after_attempt t initial next (ok _) d w =
      built t d.last_code d.last_imports pending none d.repair_count w
  after_attempt t initial next (err e) d w =
      if is_repairable e
      then (if ltb r_max_repairs (d.repair_count + 1)
          then built t d.last_code d.last_imports quarantined (some "EXHAUSTED_GENERATION_REPAIRS")
              (d.repair_count + 1 - 1) w
          else next (repaired initial e d) w)
      else some (err e, w)

  -- `while True`, on fuel.
  unfoldable pub synthesize : ℕ → Target → String → Draft → World → Generated World TestCandidate
  unfolding attempt after_attempt
  synthesize zero t initial d w = none
  synthesize (suc fuel) t initial d w =
      let (r, d', w') = attempt d w in after_attempt t initial (synthesize fuel t initial) r d' w'

  abbrev pub first_draft : String → Draft
  first_draft prompt = record {
    current_prompt = prompt;
    repair_count = 0;
    last_code = "";
    last_imports = [];
  }

  -- Behind the assembly of the context: only an exceeded budget is caught.
  unfoldable pub from_context :
      Target → Result GenerationContext → World → Generated World TestCandidate
  unfolding synthesize
  from_context t (ok c) w = synthesize 3 t (format_prompt c) (first_draft (format_prompt c)) w
  from_context t (err (context_budget_error m)) w =
      built t "" [] quarantined (some ("CONTEXT_BUDGET_EXCEEDED: " <> m)) 0 w
  from_context t (err e) w = some (err e, w)

  unfoldable pub named :
      SymbolContract → String → Result String × World → Generated World TestCandidate
  unfolding from_context
  named s run (err e, w) = some (err e, w)
  named s run (ok k, w) =
      let (r, w') = assemble tools.context tools.max_token_budget s tools.repo_root [] [] none w in
      from_context (target_of s run k) r w'

  unfoldable pub generate_candidate_for_symbol :
      SymbolContract → String → World → Generated World TestCandidate
  unfolding named
  generate_candidate_for_symbol s run w = named s run (tools.uuid4_hex w)

  -- `candidates.append(candidate)`, in front of what the later symbols give.
  abbrev pub with_rest :
      TestCandidate → Generated World (List TestCandidate) → Generated World (List TestCandidate)
  with_rest c none = none
  with_rest c (some (err e, w)) = some (err e, w)
  with_rest c (some (ok cs, w)) = some (ok (c ∷ cs), w)

  abbrev pub with_candidate :
      (World → Generated World (List TestCandidate))
      → Generated World TestCandidate
      → Generated World (List TestCandidate)
  with_candidate rest none = none
  with_candidate rest (some (err e, w)) = some (err e, w)
  with_candidate rest (some (ok c, w)) = with_rest c (rest w)

  unfoldable pub generate_for :
      List SymbolContract → String → World → Generated World (List TestCandidate)
  unfolding generate_candidate_for_symbol
  generate_for [] run w = some (ok [], w)
  generate_for (s ∷ ss) run w =
      with_candidate (generate_for ss run) (generate_candidate_for_symbol s run w)

  -- `self._run_id or plan.plan_id`
  abbrev pub effective_run_id : Option String → String → String
  effective_run_id none plan_id = plan_id
  effective_run_id (some run) plan_id = if is_blank run then plan_id else run

  unfoldable pub generate : ExecutionPlan → World → Generated World (List TestCandidate)
  unfolding generate_for
  generate plan w = generate_for plan.target_symbols (effective_run_id tools.run_id plan.plan_id) w
