-- ===== src/Planning/Rules.antt =====
-- planning/rules.py: which hunks are code, the order of symbols, and the precedence rules.
use agentic_test_system.Prelude.{
  shown, ℕ, ◌+◌, String, Bool, true, false, ◌&&◌, not, List, [], ◌∷◌, ◌++◌, ◌==◌, nat_eq, string_eq,
  ◌<>◌, contains, any, all, filter, leb, length, is_empty, sort_by, then_by, text_leb,
  if◌then◌else◌,
}
use Prim.Native.Char.{Char, code}
use agentic_test_system.Core.Paths.{name_of, suffix_of}
use agentic_test_system.Core.{
  FilePath, DiffHunk, SymbolType, function, method, class, module_symbol, SymbolContract,
  WorkflowRoute, route_no_op, route_to_docker_execution, route_to_test_generation,
}

-- `name.startswith(".")`; no character but the dot has the dot as its lower case.
unfoldable pub starts_with_dot : String → Bool
starts_with_dot String.[] = false
starts_with_dot (String.◌∷◌ c s) = code c == 0x2e

abbrev pub non_code_extensions : List String
non_code_extensions =
    ".md" ∷ ".markdown" ∷ ".txt" ∷ ".rst" ∷ ".yaml" ∷ ".yml" ∷ ".toml" ∷ ".json" ∷ ".xml" ∷ ".csv"
    ∷ ".tsv" ∷ ".ini" ∷ ".cfg" ∷ ".png" ∷ ".jpg" ∷ ".jpeg" ∷ ".gif" ∷ ".svg" ∷ ".ico" ∷ ".lock"
    ∷ ".gitignore" ∷ ".gitattributes" ∷ []

-- The code of the lower case, where it is ASCII: of the letters, and of the Kelvin sign.
abbrev lower_code : Char → ℕ
lower_code c =
    let n = code c in if leb 0x41 n && leb n 0x5a then n + 32 else if n == 0x212a then 0x6b else n

-- `s.lower() == t` for a text `t` in lower-case ASCII.
unfoldable pub lower_is : String → String → Bool
lower_is String.[] String.[] = true
lower_is String.[] (String.◌∷◌ d t) = false
lower_is (String.◌∷◌ c s) String.[] = false
lower_is (String.◌∷◌ c s) (String.◌∷◌ d t) = lower_code c == code d && lower_is s t

unfoldable pub is_non_code_hunk : DiffHunk → Bool
unfolding name_of suffix_of starts_with_dot lower_is
is_non_code_hunk h =
    let name = name_of h.file_path in
    if starts_with_dot name
    then true
    else any (lower_is (suffix_of name)) non_code_extensions
      && not (lower_is (suffix_of name) ".py")

unfoldable pub are_all_hunks_non_code : List DiffHunk → Bool
unfolding is_non_code_hunk
are_all_hunks_non_code [] = false
are_all_hunks_non_code (h ∷ hs) = all is_non_code_hunk (h ∷ hs)

-- ---- The order of symbols ----

abbrev pub type_priority : SymbolType → ℕ
type_priority function = 0
type_priority class = 1
type_priority method = 2
type_priority module_symbol = 3

-- `symbol_sort_key`, as the comparison of two keys.
abbrev pub symbol_order : SymbolContract → SymbolContract → Bool
symbol_order =
    then_by (λ a b. leb (type_priority a.symbol_type) (type_priority b.symbol_type))
      (then_by (λ a b. text_leb a.file_path b.file_path)
        (then_by (λ a b. leb a.line_range.0 b.line_range.0)
          (λ a b. text_leb a.qualified_name b.qualified_name)))

unfoldable pub order_symbols_structurally : List SymbolContract → List SymbolContract
order_symbols_structurally = sort_by symbol_order

-- ---- The decision ----

pub record RoutingDecision : Type 0 where
  pub route : WorkflowRoute
  pub rationale : String
  pub target_symbols : List SymbolContract
  pub existing_tests_to_run : List FilePath

-- The elements of a set, from a list in which one may stand twice.
unfoldable pub distinct : List String → List String
distinct [] = []
distinct (x ∷ xs) = let rest = distinct xs in if contains x rest then rest else x ∷ rest

unfoldable pub gather : (String → List FilePath) → List SymbolContract → List FilePath
gather files [] = []
gather files (s ∷ ss) = files s.qualified_name ++ gather files ss

-- `tuple(sorted(tests, key=lambda p: p.as_posix()))` of the set of the tests of the symbols.
unfoldable pub tests_of : (String → List FilePath) → List SymbolContract → List FilePath
unfolding gather
tests_of files ss = sort_by text_leb (distinct (gather files ss))

abbrev pub no_op : String → RoutingDecision
no_op rationale = record {
  route = route_no_op;
  rationale = rationale;
  target_symbols = [];
  existing_tests_to_run = [];
}

module _ (hunks : List DiffHunk) (affected : List SymbolContract) (associated : List String)
    (files : String → List FilePath) (deleted : List SymbolContract) where
  abbrev pub is_covered : SymbolContract → Bool
  is_covered s = contains s.qualified_name associated

  abbrev pub surviving_covered : List SymbolContract
  surviving_covered = filter is_covered affected

  abbrev pub surviving_uncovered : List SymbolContract
  surviving_uncovered = filter (λ s. not (is_covered s)) affected

  abbrev pub deleted_covered : List SymbolContract
  deleted_covered = filter is_covered deleted

  abbrev pub deleted_uncovered : List SymbolContract
  deleted_uncovered = filter (λ s. not (is_covered s)) deleted

  -- No surviving affected symbol: the cases A, B and C.
  unfoldable pub decide_deleted : RoutingDecision
  unfolding tests_of shown
  decide_deleted =
      if is_empty deleted
      then no_op "Python modifications contain no affected callable symbols"
      else if not (is_empty deleted_covered)
      then (record {
        route = route_to_docker_execution;
        rationale =
            "Deleted callables detected with positive static test associations: regression execution for "
            <> shown (length deleted_covered)
            <> " deleted symbol(s)";
        target_symbols = [];
        existing_tests_to_run = tests_of files deleted_covered;
      })
      else no_op (
          "Python modifications contain no surviving affected callable symbols; "
          <> shown (length deleted_uncovered)
          <> " deleted symbol(s) have no associated tests (dead-code deletion)")

  p3_rationale : String
  unfolding shown
  p3_rationale =
      if not (is_empty deleted_covered)
      then "All "
        <> shown (length affected)
        <> " surviving affected symbols possess positive static test associations, plus "
        <> shown (length deleted_covered)
        <> " deleted symbol(s) with regression tests: regression execution"
      else "All "
        <> shown (length affected)
        <> " affected symbols possess positive static test associations: regression execution"

  p4_rationale : String
  unfolding shown
  p4_rationale =
      "Uncovered affected symbols detected: test generation required for "
      <> shown (length surviving_uncovered)
      <> " of "
      <> shown (length affected)
      <> (if not (is_empty deleted_covered)
          then " symbols; "
            <> shown (length deleted_covered)
            <> " deleted symbol(s) included in regression tests"
          else " symbols")

  -- The rules P3 and P4, where a symbol survives.
  unfoldable pub decide_surviving : RoutingDecision
  unfolding tests_of order_symbols_structurally p3_rationale p4_rationale
  decide_surviving =
      if is_empty surviving_uncovered
      then (record {
        route = route_to_docker_execution;
        rationale = p3_rationale;
        target_symbols = [];
        existing_tests_to_run = tests_of files (surviving_covered ++ deleted_covered);
      })
      else (record {
        route = route_to_test_generation;
        rationale = p4_rationale;
        target_symbols = order_symbols_structurally surviving_uncovered;
        existing_tests_to_run = tests_of files (surviving_covered ++ deleted_covered);
      })

  unfoldable pub evaluate_precedence_rules : RoutingDecision
  unfolding decide_deleted decide_surviving are_all_hunks_non_code
  evaluate_precedence_rules =
      if is_empty hunks
      then no_op "Clean working tree: zero modifications detected"
      else if are_all_hunks_non_code hunks
      then no_op
          "Non-code modifications only: changes restricted to documentation or configuration files"
      else if is_empty affected
      then decide_deleted
      else decide_surviving
