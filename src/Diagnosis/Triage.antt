-- ===== src/Diagnosis/Triage.antt =====
-- The verdicts of diagnosis/rules.py, diagnosis/llm_classifier.py and diagnosis/service.py.
use agentic_test_system.Prelude.{
  ◌≤◌, int_eq, ◌≡◌, ◌≢◌, ◌↔◌, ◌⊎◌, inl, inr, refl, String, true, false, Option, none, some, arith,
  ◌==◌, string_eq, Bool-cases,
}
use agentic_test_system.Core.{
  ExecutionEvidence, FailureDiagnosis, application_bug, environment_failure, configuration_error,
  llm_failure, unknown, category_eq, category_beq_iff, SymbolContract, DiffHunk, TestCandidate,
  deterministic_rule, cognitive_llm, Exn, llm_communication_error, schema_validation_error,
  other_error, Result, ok, err,
}
use agentic_test_system.Diagnosis.Rules
use agentic_test_system.Diagnosis.Rules.{
  TextTools, RuleClassificationResult, is_oom, is_import_error, is_collection_or_fixture_error,
  is_syntax_or_name_error_in_test, combined_text,
}
use agentic_test_system.Diagnosis.Cognitive
use agentic_test_system.Diagnosis.Cognitive.{
  CognitiveTools, DiagnosisResponseSchema, is_reserved, response_of_error, normalized, answered,
  confidence_threshold, triage_prompt, diagnosis_instruction,
}
use agentic_test_system.Diagnosis.Service.{
  SymbolArgument, DiagnosisTools, diagnosed, by_model, cascade, diagnose, resolve_symbol,
}

-- The categories that the rules hand out are those that the model may not, and invalid tests.
rule_categories :
    (tools : TextTools) (e : ExecutionEvidence) (r : RuleClassificationResult)
    → Rules.classify tools e ≡ some r
    → (r.category ≢ application_bug) × (r.confidence ≡ 1_000_000)
unfolding Rules.classify
rule_categories tools e r h = ground arith

module _ {World : Type 0} (tools : CognitiveTools World) where
  -- What the policies leave of an answer.
  pub record IsAllowed (r : DiagnosisResponseSchema) : Type 0 where
    pub no_environment : r.category ≢ environment_failure
    pub no_configuration : r.category ≢ configuration_error
    pub confident :
        r.category ≢ unknown → r.category ≢ llm_failure → confidence_threshold ≤ r.confidence

  normalized-IsAllowed : (r : DiagnosisResponseSchema) → IsAllowed (normalized tools r)
  unfolding normalized is_reserved
  normalized-IsAllowed r = record {
    no_environment = ground arith;
    no_configuration = ground arith;
    confident = λ a b. ground arith;
  }

  error-IsAllowed : (e : Exn) → IsAllowed (response_of_error tools e)
  unfolding response_of_error
  error-IsAllowed (other_error c m) = elim (Bool-cases (c == "TimeoutError")) [
    | inl t ↦
        rw t (record {
          no_environment = cc;
          no_configuration = cc;
          confident = λ a b. absurd (b refl);
        })
    | inr t ↦ elim (Bool-cases (c == "ValidationError")) [
      | inl v ↦
          rw (t, v)
            (record {
              no_environment = cc;
              no_configuration = cc;
              confident = λ a b. absurd (b refl);
            })
      | inr v ↦
          rw (t, v)
            (record {
              no_environment = cc;
              no_configuration = cc;
              confident = λ a b. absurd (a refl);
            })
    ]
  ]
  error-IsAllowed (llm_communication_error m) = record {
    no_environment = cc;
    no_configuration = cc;
    confident = λ a b. absurd (b refl);
  }
  error-IsAllowed (schema_validation_error m) = record {
    no_environment = cc;
    no_configuration = cc;
    confident = λ a b. absurd (b refl);
  }
  error-IsAllowed _ = record {
    no_environment = cc;
    no_configuration = cc;
    confident = λ a b. absurd (a refl);
  }

  answered-IsAllowed : (r : Result DiagnosisResponseSchema) → IsAllowed (answered tools r)
  unfolding answered
  answered-IsAllowed (ok r) = normalized-IsAllowed r
  answered-IsAllowed (err e) = error-IsAllowed e

  -- The model's triage never raises, whatever the model returns or raises: it answers, the category
  -- is neither of the two that are reserved for the rules, and it is UNKNOWN or LLM_FAILURE unless
  -- the confidence reaches the threshold.
  pub classify-IsAllowed :
      (e : ExecutionEvidence) (candidate : Option TestCandidate) (code : Option String)
      (symbol : Option SymbolContract) (hunk : Option DiffHunk) (diff : Option String) (w : World)
      → (r : DiagnosisResponseSchema) × ((Cognitive.classify tools e candidate code symbol hunk diff
            w).0
          ≡ ok r)
        × IsAllowed r
  unfolding Cognitive.classify
  classify-IsAllowed e candidate code symbol hunk diff w =
      let r =
        (tools.generate_structured (triage_prompt tools e candidate code symbol hunk diff)
          diagnosis_instruction w).0 in
      (answered tools r, refl, answered-IsAllowed r)

module _ {World : Type 0} (tools : DiagnosisTools World) (e : ExecutionEvidence) where
  -- A diagnosis of the evidence.
  pub record IsDiagnosis (d : FailureDiagnosis) : Type 0 where
    pub own_evidence : d.evidence_id ≡ e.evidence_id
    pub bug_flag : (d.is_application_bug ≡ true) ↔ (d.canonical_category ≡ application_bug)
    pub bug_by_model : d.canonical_category ≡ application_bug → d.triage_engine ≡ cognitive_llm
    pub reserved_by_rule :
        (d.canonical_category ≡ environment_failure) ⊎ (d.canonical_category ≡ configuration_error)
        → d.triage_engine ≡ deterministic_rule
    pub certain_rule : d.triage_engine ≡ deterministic_rule → d.confidence ≡ 1_000_000

  by_model-IsDiagnosis :
      (x : Result DiagnosisResponseSchema × World) (r : DiagnosisResponseSchema)
      → x.0 ≡ ok r
      → IsAllowed tools.cognitive r
      → (d : FailureDiagnosis) × ((by_model tools e x).0 ≡ ok d) × IsDiagnosis d
  unfolding by_model diagnosed
  by_model-IsDiagnosis (err y, w) r q a = absurd cc
  by_model-IsDiagnosis (ok s, w) r q a =
      let same : s ≡ r = cc in
      (
        _,
        refl,
        rw same (record {
          own_evidence = refl;
          bug_flag = category_beq_iff r.category application_bug;
          bug_by_model = λ h. refl;
          reserved_by_rule = λ h. elim h [
            | inl q ↦ absurd (a.no_environment q)
            | inr q ↦ absurd (a.no_configuration q)
          ];
          certain_rule = λ h. absurd cc;
        }),
      )

  cascade-IsDiagnosis :
      (candidate : Option TestCandidate) (code : Option String) (symbol : Option SymbolArgument)
      (source diff : Option String) (v : Option RuleClassificationResult) (w : World)
      → Rules.classify tools.texts e ≡ v
      → (d : FailureDiagnosis) × ((cascade tools e candidate code symbol source diff v w).0 ≡ ok d)
        × IsDiagnosis d
  unfolding cascade diagnosed
  cascade-IsDiagnosis candidate code symbol source diff (some r) w h =
      let (no_bug, sure) = rule_categories tools.texts e r h in
      (
        _,
        refl,
        record {
          own_evidence = refl;
          bug_flag = (λ q. absurd cc, λ q. absurd (no_bug q));
          bug_by_model = λ q. absurd (no_bug q);
          reserved_by_rule = λ q. refl;
          certain_rule = λ q. sure;
        },
      )
  cascade-IsDiagnosis candidate code symbol source diff none w h =
      let (r, q, a) =
        classify-IsAllowed tools.cognitive e candidate code (resolve_symbol symbol source) none diff
          w in
      by_model-IsDiagnosis _ r q a

  -- A diagnosis is always made, whatever the model returns or raises: it is of the evidence; its
  -- flag for application bugs is set exactly if its category is that; that category comes only
  -- from the model, environment and configuration errors only from the rules; and what the rules
  -- say has the confidence 1.0.
  pub diagnose-IsDiagnosis :
      (candidate : Option TestCandidate) (code : Option String) (symbol : Option SymbolArgument)
      (source diff : Option String) (w : World)
      → (d : FailureDiagnosis) × ((diagnose tools e candidate code symbol source diff w).0 ≡ ok d)
        × IsDiagnosis d
  unfolding diagnose
  diagnose-IsDiagnosis candidate code symbol source diff w =
      cascade-IsDiagnosis candidate code symbol source diff (Rules.classify tools.texts e) w refl

  -- Where the rules find a cause the model is not asked: of the world outside only the source of
  -- identifiers and the clock are read, and the diagnosis says what the rules say.
  pub diagnose_by_rule :
      (candidate : Option TestCandidate) (code : Option String) (symbol : Option SymbolArgument)
      (source diff : Option String) (w : World) (r : RuleClassificationResult)
      → Rules.classify tools.texts e ≡ some r
      → diagnose tools e candidate code symbol source diff w ≡ (
        ok (record {
          diagnosis_id = (tools.uuid4 w).0;
          evidence_id = e.evidence_id;
          canonical_category = r.category;
          confidence = r.confidence;
          triage_engine = deterministic_rule;
          explanation = r.explanation;
          is_application_bug = false;
          created_at = (tools.now (tools.uuid4 w).1).0;
        }),
        (tools.now (tools.uuid4 w).1).1,
      )
  unfolding diagnose cascade diagnosed
  diagnose_by_rule candidate code symbol source diff w r h = rw h refl
