-- ===== src/Execution/Coverage.antt =====
-- execution/coverage.py: `CoverageExtractor`.
pub mod Metrics
pub use agentic_test_system.Execution.Coverage.Metrics.{
  FileCoverageMetrics, CoverageMetrics, Float, number, not_a_number,
}
unfoldable pub use agentic_test_system.Execution.Coverage.Metrics.{
  FilesMap, invalid_metrics, nearest, round2, compute_percentage, is_nan, is_percentage, millionths,
  calculate_deltas, delta_of,
}
use agentic_test_system.Prelude.{
  ℕ, zero, suc, ◌+◌, ◌*◌, ◌/◌, ◌%◌, String, ℤ, sub_ℕ, Bool, true, false, Option, none, some, List,
  [], ◌∷◌, ◌<>◌, ◌==◌, nat_eq, string_eq, ltb, is_missing, is_some, is_empty, if◌then◌else◌,
}
use agentic_test_system.Core.{
  FilePath, Decimal, Exn, value_error, other_error, str, Result, ok, err, Action, and_then,
}
use agentic_test_system.Core.Json.{
  Json, Items, Fields, json_null, json_bool, json_int, json_float, json_text, json_list,
  json_object, no_items, item, no_fields, field, get_field, as_object,
}

abbrev pub type_error : String → Exn
type_error message = other_error "TypeError" message

-- What is used of `json`, `int` and `float` on texts: `none` is a ValueError.
pub record CoverageTools : Type 0 where
  pub json_loads : String → Result Json
  pub int_text : String → Option ℕ
  pub float_text : String → Option Decimal

pub record Counts : Type 0 where
  pub num_statements : ℕ
  pub covered_lines : ℕ
  pub missing_lines : ℕ
  pub excluded_lines : ℕ
  pub num_branches : ℕ
  pub covered_branches : ℕ
  pub missing_branches : ℕ

abbrev pub no_counts : Counts
no_counts = record {
  num_statements = 0;
  covered_lines = 0;
  missing_lines = 0;
  excluded_lines = 0;
  num_branches = 0;
  covered_branches = 0;
  missing_branches = 0;
}

-- The sums over the files.
unfoldable pub sum_counts : FilesMap → Counts
sum_counts [] = no_counts
sum_counts ((path, f) ∷ files) =
    let c = sum_counts files in
    record {
      num_statements = f.num_statements + c.num_statements;
      covered_lines = f.covered_lines + c.covered_lines;
      missing_lines = f.missing_lines + c.missing_lines;
      excluded_lines = f.excluded_lines + c.excluded_lines;
      num_branches = f.num_branches + c.num_branches;
      covered_branches = f.covered_branches + c.covered_branches;
      missing_branches = f.missing_branches + c.missing_branches;
    }

module _ (tools : CoverageTools) where
  -- `int(value)`
  unfoldable pub int_of : Json → Result ℕ
  int_of (json_int n) = ok n
  int_of (json_float x) = ok (x / 1_000_000)
  int_of (json_bool true) = ok 1
  int_of (json_bool false) = ok 0
  int_of (json_text s) = elim (tools.int_text s) [
    | some n ↦ ok n
    | none ↦ err (value_error ("invalid literal for int() with base 10: '" <> s <> "'"))
  ]
  int_of _ = err (
      type_error
        "int() argument must be a string, a bytes-like object or a real number, not another type")

  -- `float(value)`, or `none` where it raises ValueError or TypeError.
  unfoldable pub float_of : Json → Option Decimal
  float_of (json_int n) = some (1_000_000 * n)
  float_of (json_float x) = some x
  float_of (json_bool true) = some 1_000_000
  float_of (json_bool false) = some 0
  float_of (json_text s) = tools.float_text s
  float_of _ = none

  -- `int(d.get(key, 0))`
  unfoldable pub count_at : String → Fields → Result ℕ
  unfolding get_field int_of
  count_at key fs = elim (get_field key fs) [ none ↦ ok 0 | some v ↦ int_of v ]

  -- The percentage that is stated, or else computed.
  unfoldable pub line_percentage : Fields → ℕ → ℕ → Decimal
  unfolding get_field float_of compute_percentage
  line_percentage fs covered statements = elim (get_field "percent_covered" fs) [
    | none ↦ compute_percentage covered statements
    | some v ↦ elim (float_of v) [
      | none ↦ compute_percentage covered statements
      | some x ↦ round2 x
    ]
  ]

  -- `[int(x) for x in values if isinstance(x, (int, float))]`
  unfoldable pub line_numbers : Items → List ℕ
  line_numbers no_items = []
  line_numbers (item (json_int n) xs) = n ∷ line_numbers xs
  line_numbers (item (json_float x) xs) = x / 1_000_000 ∷ line_numbers xs
  line_numbers (item (json_bool true) xs) = 1 ∷ line_numbers xs
  line_numbers (item (json_bool false) xs) = 0 ∷ line_numbers xs
  line_numbers (item _ xs) = line_numbers xs

  -- The same of what stands under a key; a text or a dictionary holds no numbers.
  abbrev pub numbers_of : Option Json → Result (List ℕ)
  numbers_of none = ok []
  numbers_of (some (json_list xs)) = ok (line_numbers xs)
  numbers_of (some (json_text s)) = ok []
  numbers_of (some (json_object fs)) = ok []
  numbers_of (some _) = err (type_error "object is not iterable")

  -- The seven counts of a summary or of the totals, in the order in which the source reads them.
  unfoldable pub read_counts : Fields → Result Counts
  unfolding count_at
  read_counts fs = and_then (count_at "num_statements" fs) λ statements.
      and_then (count_at "covered_lines" fs) λ covered.
        and_then (count_at "missing_lines" fs) λ missing.
          and_then (count_at "excluded_lines" fs) λ excluded.
            and_then (count_at "num_branches" fs) λ branches.
              and_then (count_at "covered_branches" fs) λ covered_branches.
                and_then (count_at "missing_branches" fs) λ missing_branches. ok (record {
                  num_statements = statements;
                  covered_lines = covered;
                  missing_lines = missing;
                  excluded_lines = excluded;
                  num_branches = branches;
                  covered_branches = covered_branches;
                  missing_branches = missing_branches;
                })

  abbrev pub file_metrics : String → Fields → Counts → List ℕ → List ℕ → FileCoverageMetrics
  file_metrics path summary c executed missed = record {
    file_path = path;
    covered_lines = c.covered_lines;
    num_statements = c.num_statements;
    missing_lines = c.missing_lines;
    excluded_lines = c.excluded_lines;
    line_coverage = line_percentage summary c.covered_lines c.num_statements;
    num_branches = c.num_branches;
    covered_branches = c.covered_branches;
    missing_branches = c.missing_branches;
    branch_coverage = compute_percentage c.covered_branches c.num_branches;
    executed_lines = executed;
    missing_line_numbers = missed;
  }

  -- `file_data.get("summary", {})`, and the empty dictionary where that is none.
  abbrev pub summary_of : Option Fields → Fields
  summary_of none = no_fields
  summary_of (some fs) = fs

  -- `_parse_file_entry`
  unfoldable pub parse_file_entry : String → Fields → Result FileCoverageMetrics
  unfolding read_counts line_percentage compute_percentage line_numbers get_field
  parse_file_entry path entry =
      let summary = summary_of (as_object (get_field "summary" entry)) in
      and_then (read_counts summary) λ c.
        and_then (numbers_of (get_field "executed_lines" entry)) λ executed.
          and_then (numbers_of (get_field "missing_lines" entry))
            λ missed. ok (file_metrics path summary c executed missed)

  -- The entries that are dictionaries.
  unfoldable pub parse_files : Fields → Result FilesMap
  unfolding parse_file_entry
  parse_files no_fields = ok []
  parse_files (field path (json_object entry) rest) =
      and_then (parse_file_entry path entry)
        λ metrics. and_then (parse_files rest) λ files. ok ((path, metrics) ∷ files)
  parse_files (field path _ rest) = parse_files rest

  abbrev pub files_of : Option Fields → Result FilesMap
  files_of none = ok []
  files_of (some fs) = parse_files fs

  abbrev pub metrics_of : FilesMap → Counts → Decimal → CoverageMetrics
  metrics_of files c line_coverage = record {
    line_coverage = some line_coverage;
    branch_coverage = some (compute_percentage c.covered_branches c.num_branches);
    covered_lines = c.covered_lines;
    num_statements = c.num_statements;
    missing_lines = c.missing_lines;
    excluded_lines = c.excluded_lines;
    num_branches = c.num_branches;
    covered_branches = c.covered_branches;
    missing_branches = c.missing_branches;
    files = files;
    is_valid = true;
    error_message = none;
  }

  abbrev pub of_totals : FilesMap → Option Fields → Result CoverageMetrics
  of_totals files (some totals) =
      and_then (read_counts totals)
        λ c. ok (metrics_of files c (line_percentage totals c.covered_lines c.num_statements))
  of_totals files none = elim (is_empty files) [
    | true ↦ ok (metrics_of [] no_counts 0)
    | false ↦
        let c = sum_counts files in
        ok (metrics_of files c (compute_percentage c.covered_lines c.num_statements))
  ]

  unfoldable pub parse_coverage_dict : Fields → Result CoverageMetrics
  unfolding parse_files read_counts line_percentage compute_percentage get_field sum_counts
  parse_coverage_dict report =
      and_then (files_of (as_object (get_field "files" report)))
        λ files. of_totals files (as_object (get_field "totals" report))

  -- A report that cannot be read: an exception where `strict` is set, and else metrics that say so.
  abbrev pub unreadable : Bool → String → Result CoverageMetrics
  unreadable true message = err (other_error "CoverageExtractionError" message)
  unreadable false message = ok (invalid_metrics message)

  abbrev pub of_loaded : Bool → Result Json → Result CoverageMetrics
  of_loaded strict (err e) = unreadable strict ("Malformed JSON in coverage report: " <> str e)
  of_loaded strict (ok (json_object report)) = parse_coverage_dict report
  of_loaded strict (ok _) = unreadable strict "Coverage JSON root must be a JSON object (dict)"

  unfoldable pub parse_coverage_string : Bool → String → Result CoverageMetrics
  unfolding parse_coverage_dict is_missing
  parse_coverage_string strict content =
      if is_missing content
      then unreadable strict "Coverage JSON content is empty"
      else of_loaded strict (tools.json_loads content)

-- Reading the report, over the file system.
module _ {World : Type 0} (tools : CoverageTools) (is_file : FilePath → World → Bool × World)
    (read_text : FilePath → Action World String) where
  abbrev pub of_content : Bool → FilePath → Result String → Result CoverageMetrics
  of_content strict path (err e) =
      unreadable tools strict ("Failed to read coverage report file '" <> path <> "': " <> str e)
  of_content strict path (ok content) = parse_coverage_string tools strict content

  unfoldable pub parse_coverage_json : Bool → FilePath → Action World CoverageMetrics
  unfolding parse_coverage_string
  parse_coverage_json strict path w =
      let (found, w1) = is_file path w in
      elim found [
        | false ↦ (unreadable tools strict ("Coverage report file not found: " <> path), w1)
        | true ↦ let (content, w2) = read_text path w1 in (of_content strict path content, w2)
      ]
