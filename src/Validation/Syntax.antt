-- ===== src/Validation/Syntax.antt =====
-- validation/syntax.py: the gate that asks for a text that parses.
use agentic_test_system.Prelude.{
  ℕ, String, true, false, Option, none, some, List, [], ◌∷◌, ◌<>◌, strip, shown,
}
use agentic_test_system.Core.{
  Timestamp, TestCandidate, passed, rejected_syntax, str, Action, pure, ◌>>=◌,
}
use agentic_test_system.Core.Syntax.{Parsed, tree, no_syntax, no_parse}
use agentic_test_system.Workflow.Services.{ValidationResult}
use agentic_test_system.Validation.Pipeline.{Gate}
use agentic_test_system.Validation.Security.{build_source}

-- `f"{n}"` of an optional number.
abbrev shown_or_none : Option ℕ → String
shown_or_none none = "None"
shown_or_none (some n) = shown n

-- `err.text.strip() if err.text else ''`
abbrev stripped_text : Option String → String
stripped_text none = ""
stripped_text (some s) = strip s

abbrev pub syntax_passed : TestCandidate → Timestamp → ValidationResult
syntax_passed c now = record {
  candidate_id = c.candidate_id;
  status = passed;
  gate = "GATE_1_SYNTAX";
  passed = true;
  error_message = none;
  diagnostics = [];
  created_at = now;
}

abbrev pub syntax_rejected : TestCandidate → String → List String → Timestamp → ValidationResult
syntax_rejected c message diagnostics now = record {
  candidate_id = c.candidate_id;
  status = rejected_syntax;
  gate = "GATE_1_SYNTAX";
  passed = false;
  error_message = some message;
  diagnostics = diagnostics;
  created_at = now;
}

unfoldable pub syntax_verdict : TestCandidate → Parsed → Timestamp → ValidationResult
unfolding strip shown
syntax_verdict c (tree n) now = syntax_passed c now
syntax_verdict c (no_syntax e) now =
    syntax_rejected c ("SyntaxError: " <> e.msg <> " at line " <> shown_or_none e.lineno)
      (("Line " <> shown_or_none e.lineno <> ": " <> stripped_text e.text)
        ∷ ("Offset: " <> shown_or_none e.offset)
        ∷ [])
      now
syntax_verdict c (no_parse e) now =
    syntax_rejected c ("AST parsing failure: " <> str e) (str e ∷ []) now

module _ {World : Type 0} (ast_parse : String → Parsed) (clock : Action World Timestamp) where
  unfoldable pub syntax_gate : Gate World
  unfolding syntax_verdict build_source
  syntax_gate c = do t ← clock; pure (syntax_verdict c (ast_parse (build_source c)) t)
