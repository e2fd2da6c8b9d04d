-- ===== src/Execution/Runner.antt =====
-- execution/runner.py: `PytestRunner`.
use agentic_test_system.Prelude.{
  ℕ, String, ℤ, int_eq, Bool, true, false, ◌&&◌, ◌||◌, not, Option, none, some, List, [], ◌∷◌, ◌++◌,
  ◌<>◌, ◌==◌, string_eq, nat_eq, leb, strip, is_blank, is_empty, contains, filter, split_on,
  replace_char, if◌then◌else◌,
}
use Prim.Native.Char.{Char, code}
use agentic_test_system.Core.{Decimal, value_error, Result, ok, err}

pub record TestRunSummary : Type 0 where
  pub exit_code : ℤ
  pub passed : ℕ
  pub failed : ℕ
  pub errors : ℕ
  pub skipped : ℕ
  pub duration_sec : Decimal
  pub timed_out : Bool
  pub oom_killed : Bool
  pub traceback : Option String
  pub status_message : String

is_letter : Char → Bool
is_letter c = leb 0x41 (code c) && leb (code c) 0x5a || leb 0x61 (code c) && leb (code c) 0x7a

-- `re.match(r"^[a-zA-Z]:", s)`
unfoldable pub has_drive : String → Bool
unfolding is_letter
has_drive (String.◌∷◌ c (String.◌∷◌ d s)) = is_letter c && code d == 0x3a
has_drive _ = false

-- `".." in [seg for seg in posix_str.split("/") if seg]`
unfoldable pub has_traversal : String → Bool
unfolding split_on
has_traversal path = contains ".." (filter (λ seg. not (is_blank seg)) (split_on 0x2f path))

-- `_validate_and_normalize_path`
unfoldable pub validate_and_normalize_path : String → String → Result String
unfolding has_drive has_traversal strip replace_char
validate_and_normalize_path path field_name =
    let raw = strip path in
    let posix = replace_char 0x5c "/" raw in
    if is_blank raw
    then err (value_error ("'" <> field_name <> "' cannot be empty"))
    else if has_drive raw
    then err (
        value_error (
          "Windows drive-letter paths are not permitted in container commands for '" <> field_name
          <> "': " <> raw))
    else if has_traversal posix
    then err
        (value_error ("Path traversal ('..') is not permitted in '" <> field_name <> "': " <> raw))
    else ok posix

-- The loop over the test paths, behind the paths that it kept so far.
unfoldable pub normalize_paths : List String → List String → Result (List String)
unfolding validate_and_normalize_path
normalize_paths kept [] = ok kept
normalize_paths kept (p ∷ ps) = elim (validate_and_normalize_path p "tests_paths") [
  | err e ↦ err e
  | ok norm ↦ normalize_paths (if contains norm kept then kept else kept ++ norm ∷ []) ps
]

abbrev pub branch_tokens : Bool → List String
branch_tokens true = "--cov-branch" ∷ []
branch_tokens false = []

unfoldable pub report_tokens : Option String → Result (List String)
unfolding validate_and_normalize_path
report_tokens none = ok []
report_tokens (some path) = elim (validate_and_normalize_path path "cov_report_path") [
  | err e ↦ err e
  | ok clean ↦ ok (("--cov-report=json:" <> clean) ∷ [])
]

abbrev pub empty_paths_message : String
empty_paths_message = "'tests_paths' sequence cannot be empty"

-- What is behind the paths: the coverage options.
unfoldable pub command_tokens : List String → String → Option String → Bool → Result (List String)
unfolding report_tokens
command_tokens paths cov report branch =
    if is_empty paths then err (value_error empty_paths_message) else elim (report_tokens report) [
      | err e ↦ err e
      | ok tokens ↦ ok (
          "pytest"
          ∷ (paths
              ++ ("--cov=" <> cov)
                ∷ (branch_tokens branch ++ tokens ++ "-o" ∷ "cache_dir=/tmp/.pytest_cache" ∷ [])))
    ]

unfoldable pub construct_command_for_paths :
    List String → String → Option String → Bool → Result (List String)
unfolding normalize_paths command_tokens
construct_command_for_paths paths cov_source report branch =
    if is_empty paths
    then err (value_error empty_paths_message)
    else elim (validate_and_normalize_path cov_source "cov_source") [
      | err e ↦ err e
      | ok cov ↦ elim (normalize_paths [] paths) [
        | err e ↦ err e
        | ok normalized ↦ command_tokens normalized cov report branch
      ]
    ]

unfoldable pub construct_command : String → String → Option String → Bool → Result (List String)
unfolding construct_command_for_paths
construct_command path cov_source report branch =
    elim (validate_and_normalize_path path "tests_path") [
      | err e ↦ err e
      | ok clean ↦ construct_command_for_paths (clean ∷ []) cov_source report branch
    ]

unfoldable pub construct_collection_command : String → Result (List String)
unfolding validate_and_normalize_path
construct_collection_command path = elim (validate_and_normalize_path path "tests_path") [
  | err e ↦ err e
  | ok clean ↦
      ok ("pytest" ∷ clean ∷ "--collect-only" ∷ "-q" ∷ "-o" ∷ "cache_dir=/tmp/.pytest_cache" ∷ [])
]
