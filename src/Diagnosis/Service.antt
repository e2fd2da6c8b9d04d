-- ===== src/Diagnosis/Service.antt =====
-- diagnosis/service.py: the rules first, the model where they find nothing.
use agentic_test_system.Prelude.{
  String, Bool, false, Option, none, some, [], ◌==◌, ◌<>◌, is_blank, if◌then◌else◌,
}
use agentic_test_system.Core.{
  Timestamp, Decimal, SymbolContract, function, TestCandidate, ExecutionEvidence, FailureCategory,
  application_bug, category_eq, TriageEngine, deterministic_rule, cognitive_llm, FailureDiagnosis,
  Result, ok, err, Action,
}
use agentic_test_system.Diagnosis.Rules
use agentic_test_system.Diagnosis.Rules.{TextTools, RuleClassificationResult}
use agentic_test_system.Diagnosis.Cognitive
use agentic_test_system.Diagnosis.Cognitive.{CognitiveTools, DiagnosisResponseSchema}

-- `Union[str, SymbolContract]`
pub data SymbolArgument : Type 0 where
  by_name : String → SymbolArgument
  by_contract : SymbolContract → SymbolArgument

abbrev pub stand_in : String → String → SymbolContract
stand_in name signature = record {
  qualified_name = name;
  symbol_type = function;
  file_path = "unknown";
  line_range = (0, 0);
  signature = signature;
  docstring = none;
  dependencies = [];
  is_affected = false;
}

-- `target_source or f"def {target_symbol}(): ..."`
abbrev pub source_or_def : Option String → String → String
source_or_def none name = "def " <> name <> "(): ..."
source_or_def (some source) name = if is_blank source then "def " <> name <> "(): ..." else source

unfoldable pub resolve_symbol : Option SymbolArgument → Option String → Option SymbolContract
resolve_symbol (some (by_contract c)) source = some c
resolve_symbol (some (by_name name)) source = some (stand_in name (source_or_def source name))
resolve_symbol none (some source) = some (stand_in "target" source)
resolve_symbol none none = none

-- The service's classifiers, by what they take from outside, the identifiers and the clock.
pub record DiagnosisTools (World : Type 0) : Type 0 where
  pub texts : TextTools
  pub cognitive : CognitiveTools World
  pub uuid4 : World → String × World
  pub now : World → Timestamp × World

module _ {World : Type 0} (tools : DiagnosisTools World) where
  -- A diagnosis as it is built, with a fresh identifier and the time.
  unfoldable pub diagnosed :
      ExecutionEvidence
      → FailureCategory
      → Decimal
      → TriageEngine
      → String
      → Bool
      → Action World FailureDiagnosis
  diagnosed e category confidence engine explanation is_bug w =
      let (k, w') = tools.uuid4 w in
      let (t, w'') = tools.now w' in
      (
        ok (record {
          diagnosis_id = k;
          evidence_id = e.evidence_id;
          canonical_category = category;
          confidence = confidence;
          triage_engine = engine;
          explanation = explanation;
          is_application_bug = is_bug;
          created_at = t;
        }),
        w'',
      )

  unfoldable pub by_model :
      ExecutionEvidence → Result DiagnosisResponseSchema × World → Result FailureDiagnosis × World
  unfolding diagnosed
  by_model e (err x, w) = (err x, w)
  by_model e (ok r, w) =
      diagnosed e r.category r.confidence cognitive_llm r.explanation
        (r.category == application_bug) w

  -- The cascade, from the verdict of the rules.
  unfoldable pub cascade :
      ExecutionEvidence
      → Option TestCandidate
      → Option String
      → Option SymbolArgument
      → Option String
      → Option String
      → Option RuleClassificationResult
      → Action World FailureDiagnosis
  unfolding diagnosed by_model resolve_symbol
  cascade e candidate code symbol source diff (some r) w =
      diagnosed e r.category r.confidence deterministic_rule r.explanation false w
  cascade e candidate code symbol source diff none w = by_model e (
      Cognitive.classify tools.cognitive e candidate code (resolve_symbol symbol source) none diff
        w)

  unfoldable pub diagnose :
      ExecutionEvidence
      → Option TestCandidate
      → Option String
      → Option SymbolArgument
      → Option String
      → Option String
      → Action World FailureDiagnosis
  unfolding cascade
  diagnose e candidate code symbol source diff =
      cascade e candidate code symbol source diff (Rules.classify tools.texts e)
