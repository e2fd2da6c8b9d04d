-- ===== src/Diagnosis/Rules.antt =====
-- diagnosis/rules.py: the deterministic rules (engine 1).
use agentic_test_system.Prelude.{
  ℕ, ◌+◌, ◌-◌, pos, int_eq, String, Bool, true, false, ◌&&◌, ◌||◌, not, Option, none, some, List,
  [], ◌∷◌, ◌++◌, ◌==◌, string_eq, ◌<>◌, any, take, drop, join, has_prefix, has_suffix, has_text,
  split_on, split_lines, replace_char, if◌then◌else◌,
}
use agentic_test_system.Core.{
  Decimal, ExecutionEvidence, FailureCategory, environment_failure, configuration_error,
  invalid_generated_test,
}

pub record RuleClassificationResult : Type 0 where
  pub category : FailureCategory
  pub confidence : Decimal
  pub explanation : String

-- A compiled pattern, by its text and whether it ignores the case.
pub record Pattern : Type 0 where
  pub text : String
  pub ignores_case : Bool

-- What the rules take from `re` and `str`: whether a pattern is found, the first group of each
-- match, and the lower case of a text.
pub record TextTools : Type 0 where
  pub search : Pattern → String → Bool
  pub findall : String → String → List String
  pub lower : String → String

abbrev exact : String → Pattern
exact text = record { text = text; ignores_case = false }

abbrev any_case : String → Pattern
any_case text = record { text = text; ignores_case = true }

abbrev pub oom_patterns : List Pattern
oom_patterns =
    any_case "\\bout of memory\\b"
    ∷ any_case "\\bmemoryerror\\b"
    ∷ any_case "\\boom[- ]?kill\\w*\\b"
    ∷ any_case "\\bcontainer killed by oom\\b"
    ∷ any_case "\\bkilled process \\d+"
    ∷ any_case "(?:^|\\n|\\s)Killed(?:\\s|\\n|$)"
    ∷ []

abbrev pub import_patterns : List Pattern
import_patterns =
    exact "\\bModuleNotFoundError:\\s*No module named\\b"
    ∷ exact "\\bModuleNotFoundError\\b"
    ∷ exact "\\bImportError:\\s*cannot import name\\b"
    ∷ exact "\\bImportError\\b"
    ∷ []

abbrev pub collection_fixture_patterns : List Pattern
collection_fixture_patterns =
    exact "ERROR collecting\\b"
    ∷ any_case "\\bcollection error\\b"
    ∷ any_case "\\bcollection failure\\b"
    ∷ any_case "\\bfailed on collection\\b"
    ∷ any_case "Interrupted:\\s*\\d+\\s*errors?\\s*during\\s*collection"
    ∷ any_case "collected 0 items\\s*/\\s*\\d+\\s*error"
    ∷ exact "\\bPytestCollectionWarning\\b"
    ∷ any_case "fixture\\s+['\"][^'\"]+['\"]\\s+not found"
    ∷ exact "\\bFixtureLookupError\\b"
    ∷ exact "\\bScopeMismatch\\b"
    ∷ any_case "recursive dependency involving fixture"
    ∷ any_case "has no fixture named\\b"
    ∷ any_case "ERROR at setup of\\b"
    ∷ any_case "ERROR at teardown of\\b"
    ∷ []

abbrev pub syntax_error_pattern : Pattern
syntax_error_pattern = exact "\\b(?:SyntaxError|IndentationError|TabError)\\b"

abbrev pub name_error_pattern : Pattern
name_error_pattern = exact "\\bNameError\\b"

-- The last element, where there is one.
abbrev pub last : List String → Option String
last [] = none
last (x ∷ []) = some x
last (x ∷ y ∷ ys) = last (y ∷ ys)

-- `parts[:-1]`
abbrev pub but_last : List String → List String
but_last [] = []
but_last (x ∷ []) = []
but_last (x ∷ y ∷ ys) = x ∷ but_last (y ∷ ys)

module _ (tools : TextTools) where
  is_test_file : Option String → Bool
  is_test_file none = false
  is_test_file (some filename) =
      has_prefix filename "test_" || has_suffix filename "_test.py" || has_text filename "candidate"

  unfoldable pub is_test_path : String → Bool
  unfolding is_test_file
  is_test_path path =
      let parts = split_on 0x2f (tools.lower (replace_char 0x5c "/" path)) in
      any (λ part. part == "tests" || part == "test") (but_last parts) || is_test_file (last parts)

  abbrev pub finds : List Pattern → String → Bool
  finds patterns text = any (λ pat. tools.search pat text) patterns

  unfoldable pub is_oom : String → Bool
  is_oom text = finds oom_patterns text

  unfoldable pub is_import_error : String → Bool
  is_import_error text = finds import_patterns text

  unfoldable pub is_collection_or_fixture_error : String → Bool
  is_collection_or_fixture_error text = finds collection_fixture_patterns text

  -- The files that a window of lines names.
  window_files : String → List String
  window_files window =
      tools.findall "File \"([^\"]+)\"" window ++ tools.findall "([^\\s:\\n]+\\.py):\\d+" window

  mentions_test : String → Bool
  mentions_test window =
      any (λ kw. has_text (tools.lower window) kw) ("test_" ∷ "_test.py" ∷ "tests/" ∷ [])

  -- What a line with a syntax error says: a verdict, or nothing.
  window_verdict : Option String → String → Option Bool
  unfolding is_test_path mentions_test
  window_verdict (some file) window = some (is_test_path file)
  window_verdict none window = if mentions_test window then some true else none

  abbrev or_verdict : Option Bool → Option Bool → Option Bool
  or_verdict (some b) later = some b
  or_verdict none later = later

  -- The loop over the lines: `idx` is the number of the first of those left.
  unfoldable pub syntax_verdict : List String → ℕ → List String → Option Bool
  unfolding window_verdict window_files
  syntax_verdict lines idx [] = none
  syntax_verdict lines idx (line ∷ rest) =
      let later = syntax_verdict lines (idx + 1) rest in
      let window = join "\n" (drop (idx - 5) (take (idx + 1) lines)) in
      if tools.search syntax_error_pattern line
      then or_verdict (window_verdict (last (window_files window)) window) later
      else later

  frame_verdict : Option String → Bool → Bool
  unfolding is_test_path
  frame_verdict (some file) other = is_test_path file
  frame_verdict none other = other

  -- The innermost frame of a NameError.
  unfoldable pub name_verdict : String → Bool
  unfolding frame_verdict
  name_verdict text =
      frame_verdict (last (tools.findall "([^\\s:\\n]+\\.py):\\d+:\\s*in\\s*([^\\n]+)" text)) (
        frame_verdict (last (tools.findall "File \"([^\"]+)\", line \\d+, in ([^\\n]+)" text)) (
          frame_verdict
            (last (tools.findall "([^\\s:\\n]+\\.py):\\d+:\\s*(?:E\\s+)?NameError" text)) false))

  decided : Option Bool → Bool → Bool
  decided (some b) other = b
  decided none other = other

  unfoldable pub is_syntax_or_name_error_in_test : String → Bool
  unfolding syntax_verdict name_verdict decided
  is_syntax_or_name_error_in_test text =
      let has_syntax = tools.search syntax_error_pattern text in
      let has_name = tools.search name_error_pattern text in
      if not has_syntax && not has_name
      then false
      else decided
          (if has_syntax then syntax_verdict (split_lines text) 0 (split_lines text) else none)
          (if has_name then name_verdict text else false)

  abbrev text_or_empty : Option String → String
  text_or_empty none = ""
  text_or_empty (some t) = t

  unfoldable pub combined_text : ExecutionEvidence → String
  combined_text e = e.stdout <> "\n" <> e.stderr <> "\n" <> text_or_empty e.traceback

  abbrev certain : FailureCategory → String → Option RuleClassificationResult
  certain category explanation =
      some (record { category = category; confidence = 1_000_000; explanation = explanation })

  unfoldable pub classify : ExecutionEvidence → Option RuleClassificationResult
  classify e =
      if e.timed_out || e.exit_code == pos 124
      then certain environment_failure "Execution timed out (timeout flag set or exit code 124)."
      else if e.exit_code == pos 137 || is_oom (combined_text e)
      then certain environment_failure
          "Execution terminated due to out-of-memory condition (exit code 137 or OOM marker)."
      else if is_import_error (combined_text e)
      then certain configuration_error
          "Environment configuration error: missing module or unresolvable import detected."
      else if is_collection_or_fixture_error (combined_text e)
      then certain invalid_generated_test
          "Generated test failed pytest collection or fixture resolution."
      else if is_syntax_or_name_error_in_test (combined_text e)
      then certain invalid_generated_test
          "Generated test failed due to a syntax or name error attributable to the test code."
      else none
