-- ===== src/Tests/Plans.antt =====
-- The precedence rules and the validation gates on concrete symbols and candidates.
use agentic_test_system.Prelude.{
  ◌≢◌, false, Bool, ℕ, suc, String, ◌≡◌, ◌↔◌, refl, true, ◌||◌, ◌&&◌, ◌==◌, string_eq, some, List,
  [], ◌∷◌, contains, any, if◌then◌else◌,
}
use agentic_test_system.Core.{
  passed, rejected_security, FilePath, DiffHunk, modified, SymbolContract, class, TestCandidate,
  pending, route_to_test_generation, ok, Action, Timestamp,
}
use agentic_test_system.Planning.Rules.{evaluate_precedence_rules}
use agentic_test_system.Planning.Precedence.{
  needs_generation, touches_code, is_regression_test, generates_iff, runs_regression_tests,
}
use agentic_test_system.Workflow.Services.{ValidationResult}
use agentic_test_system.Validation.Pipeline.{Gate, validate_candidate}
use agentic_test_system.Validation.Gates.{IsSound, PassedAll, accepted-PassedAll}
use agentic_test_system.Tests.Data.{add_symbol, add_candidate, add_validation}

abbrev calc_hunk : DiffHunk
calc_hunk = record {
  file_path = "calc.py";
  old_start = 1;
  old_lines = 1;
  new_start = 1;
  new_lines = 1;
  change_type = modified;
  content = "+    return a + b";
}

abbrev calculator : SymbolContract
calculator = record add_symbol { qualified_name = "calc.Calculator"; symbol_type = class }

abbrev gone_symbol : SymbolContract
gone_symbol = record add_symbol { qualified_name = "calc.sub" }

abbrev hunks : List DiffHunk
hunks = calc_hunk ∷ []

abbrev changed : List SymbolContract
changed = calculator ∷ add_symbol ∷ []

abbrev gone : List SymbolContract
gone = gone_symbol ∷ []

-- The tests of the class and of the deleted function.
abbrev covered : List String
covered = "calc.Calculator" ∷ "calc.sub" ∷ []

abbrev test_files : String → List FilePath
test_files name =
    if name == "calc.Calculator" then "tests/test_calc.py" ∷ [] else "tests/test_sub.py" ∷ []

generates_iff_example :
    ((evaluate_precedence_rules hunks changed covered test_files gone).route
      ≡ route_to_test_generation)
    ↔ (needs_generation hunks changed covered test_files gone ≡ true)
generates_iff_example = generates_iff hunks changed covered test_files gone

runs_regression_tests_example :
    contains "tests/test_sub.py"
      (evaluate_precedence_rules hunks changed covered test_files gone).existing_tests_to_run
    ≡ (touches_code hunks changed covered test_files gone
        && (any
              (is_regression_test hunks changed covered test_files gone "tests/test_sub.py")
              changed
            || any
                (is_regression_test hunks changed covered test_files gone "tests/test_sub.py")
                gone))
runs_regression_tests_example =
    runs_regression_tests hunks changed covered test_files gone "tests/test_sub.py"

-- ---- Gates ----

abbrev clock : Action ℕ Timestamp
clock w = (ok w, suc w)

-- A gate that lets one candidate pass and rejects all others, and counts that it was asked.
abbrev refusal : ValidationResult
refusal = record add_validation { status = rejected_security; passed = false }

abbrev narrow_gate : Gate ℕ
narrow_gate c w = (ok (if c.candidate_id == "cand" then add_validation else refusal), suc w)

verdict-IsFair :
    (b : Bool) (r : ValidationResult)
    → (if b then add_validation else refusal) ≡ r
    → r.passed ≡ false
    → r.status ≢ passed
verdict-IsFair true r e h = absurd (let same : add_validation ≡ r = e in cc)
verdict-IsFair false r e h = let same : refusal ≡ r = e in cc

narrow_gate-IsSound : IsSound narrow_gate
narrow_gate-IsSound = record {
  rejects = λ c w w' r e. verdict-IsFair (c.candidate_id == "cand") r cc;
}

other_is_rejected : (narrow_gate (record add_candidate { candidate_id = "other" }) 0).0 ≡ ok refusal
other_is_rejected = refl

abbrev pending_candidate : TestCandidate
pending_candidate = record add_candidate { validation_status = pending }

accepted-PassedAll_example : PassedAll pending_candidate (narrow_gate ∷ narrow_gate ∷ []) 0
unfolding validate_candidate
accepted-PassedAll_example =
    accepted-PassedAll clock (narrow_gate ∷ []) (some narrow_gate) pending_candidate 0 2
      (add_candidate, add_validation) (narrow_gate-IsSound, (narrow_gate-IsSound, tt)) refl refl
