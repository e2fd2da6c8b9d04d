-- ===== src/Execution/Coverage/Metrics.antt =====
-- execution/coverage.py: the metrics, the percentages and their differences.
use agentic_test_system.Prelude.{
  negsuc, not, leb, true, ◌||◌, pos, ℕ, zero, suc, ◌*◌, ◌/◌, ◌%◌, String, ℤ, sub_ℕ, Bool, false,
  Option, none, some, List, [], ◌<>◌, ◌==◌, nat_eq, string_eq, ltb, if◌then◌else◌,
}
use agentic_test_system.Core.{Decimal, value_error, Result, ok, err}

pub record FileCoverageMetrics : Type 0 where
  pub file_path : String
  pub covered_lines : ℕ
  pub num_statements : ℕ
  pub missing_lines : ℕ
  pub excluded_lines : ℕ
  pub line_coverage : Decimal
  pub num_branches : ℕ
  pub covered_branches : ℕ
  pub missing_branches : ℕ
  pub branch_coverage : Decimal
  pub executed_lines : List ℕ
  pub missing_line_numbers : List ℕ

abbrev pub FilesMap : Type 0
FilesMap = List (String × FileCoverageMetrics)

pub record CoverageMetrics : Type 0 where
  pub line_coverage : Option Decimal
  pub branch_coverage : Option Decimal
  pub covered_lines : ℕ
  pub num_statements : ℕ
  pub missing_lines : ℕ
  pub excluded_lines : ℕ
  pub num_branches : ℕ
  pub covered_branches : ℕ
  pub missing_branches : ℕ
  pub files : FilesMap
  pub is_valid : Bool
  pub error_message : Option String

-- `CoverageMetrics(is_valid=False, error_message=message)`
abbrev pub invalid_metrics : String → CoverageMetrics
invalid_metrics message = record {
  line_coverage = none;
  branch_coverage = none;
  covered_lines = 0;
  num_statements = 0;
  missing_lines = 0;
  excluded_lines = 0;
  num_branches = 0;
  covered_branches = 0;
  missing_branches = 0;
  files = [];
  is_valid = false;
  error_message = some message;
}

-- The whole number nearest to n / d, the even one of two.
unfoldable pub nearest : ℕ → ℕ → ℕ
nearest n d =
    let q = n / d in
    let twice = 2 * (n % d) in
    if ltb twice d then q else if ltb d twice then suc q else if q % 2 == 0 then q else suc q

-- `round(x, 2)`
abbrev pub round2 : Decimal → Decimal
round2 x = 10_000 * nearest x 10_000

-- `_compute_percentage`: `round((numerator / denominator) * 100.0, 2)`.
unfoldable pub compute_percentage : ℕ → ℕ → Decimal
unfolding nearest
compute_percentage numerator zero = 0
compute_percentage numerator (suc d) = 10_000 * nearest (10_000 * numerator) (suc d)

-- A float as a caller may pass it: a number, in millionths, or NaN.
pub data Float : Type 0 where
  number : ℤ → Float
  not_a_number : Float

abbrev pub is_nan : Float → Bool
is_nan (number x) = false
is_nan not_a_number = true

-- `0.0 <= x <= 100.0`, which NaN is not.
abbrev pub is_percentage : Float → Bool
is_percentage (number (pos n)) = leb n 100_000_000
is_percentage (number (negsuc n)) = false
is_percentage not_a_number = false

-- The millionths of a percentage.
abbrev pub millionths : Float → ℕ
millionths (number (pos n)) = n
millionths _ = 0

-- `calculate_deltas` of two coverages that are there.
unfoldable pub calculate_deltas : (ℤ → ℤ) → (Float → String) → Float → Float → Result ℤ
calculate_deltas round4 shown_float pre post =
    if is_nan pre || is_nan post
    then err (
        value_error (
          "Coverage percentages cannot be NaN: pre="
          <> shown_float pre
          <> ", post="
          <> shown_float post))
    else if not (is_percentage pre)
    then err (value_error ("pre_cov must be between 0.0 and 100.0, got: " <> shown_float pre))
    else if not (is_percentage post)
    then err (value_error ("post_cov must be between 0.0 and 100.0, got: " <> shown_float post))
    else ok (round4 (sub_ℕ (millionths post) (millionths pre)))

-- The difference, where both coverages are there. An evidence and the metrics of a report hold
-- coverages that are no NaN and not negative.
abbrev pub delta_of :
    (ℤ → ℤ) → (Float → String) → Option Decimal → Option Decimal → Result (Option ℤ)
delta_of round4 shown_float (some pre) (some post) =
    elim (calculate_deltas round4 shown_float (number (pos pre)) (number (pos post))) [
      | ok d ↦ ok (some d)
      | err e ↦ err e
    ]
delta_of round4 shown_float _ _ = ok none
