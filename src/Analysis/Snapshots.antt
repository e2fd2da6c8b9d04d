-- ===== src/Analysis/Snapshots.antt =====
-- analysis/service.py: `AnalysisService.analyze`.
use agentic_test_system.Prelude.{
  String, Bool, true, false, ◌&&◌, ◌||◌, not, Option, some, List, [], ◌∷◌, ◌++◌, ◌<>◌, ◌==◌,
  string_eq, ltb, contains, any, filter, map, sort_by, if◌then◌else◌,
}
use agentic_test_system.Core.{
  FilePath, ChangeType, added, deleted, DiffHunk, SymbolContract, RepositorySnapshot, Result, ok,
  err, Action, pure, lift, continue, ◌>>=◌, ◌>>◌,
}
use agentic_test_system.Core.Paths.{name_of, suffix_of}
use agentic_test_system.Execution.Sources.{path_leb}
use agentic_test_system.Analysis.Git.{
  Reply, answered, failed, broken, GitTools, GitSession, in_world, look, validate_repository,
  get_head_commit, get_base_commit, get_branch_name, compute_source_tree_hash, compute_diff,
  list_tracked_files, list_existing_test_files, get_file_content_at_commit,
}
use agentic_test_system.Analysis.Affected.{
  paths_match, overlaps, last_line, as_affected, resolve_affected_symbols,
}

abbrev pub is_added : ChangeType → Bool
is_added added = true
is_added _ = false

abbrev pub is_deletion : ChangeType → Bool
is_deletion deleted = true
is_deletion _ = false

-- `_is_file_in_diff`
unfoldable pub is_file_in_diff : FilePath → List FilePath → Bool
unfolding paths_match
is_file_in_diff path files = contains path files || any (paths_match path) files

abbrev pub is_python : FilePath → Bool
is_python path = suffix_of (name_of path) == ".py"

-- Each element once, as in a set.
unfoldable pub unique : List FilePath → List FilePath
unique [] = []
unique (x ∷ xs) = let rest = unique xs in if contains x rest then rest else x ∷ rest

abbrev pub hunk_path : DiffHunk → FilePath
hunk_path hunk = hunk.file_path

unfoldable pub analyzable_files : List FilePath → List DiffHunk → List FilePath
unfolding unique path_leb name_of suffix_of
analyzable_files tracked hunks = sort_by path_leb (
    unique (
      tracked
      ++ map hunk_path (filter (λ h. is_added h.change_type && is_python h.file_path) hunks)))

unfoldable pub files_with_deletions : List DiffHunk → List FilePath
unfolding unique path_leb
files_with_deletions hunks =
    sort_by path_leb (
      unique
        (map hunk_path (filter (λ h. ltb 0 h.old_lines || not (is_added h.change_type)) hunks)))

-- What the traversal of the files found so far.
pub record Survey : Type 0 where
  pub symbols : List SymbolContract
  pub syntax_errors : List String
  pub has_diff_syntax_error : Bool

abbrev pub no_survey : Survey
no_survey = record { symbols = []; syntax_errors = []; has_diff_syntax_error = false }

abbrev pub noted : FilePath → String → List FilePath → Survey → Survey
noted path message diff_files v = record v {
  syntax_errors = v.syntax_errors ++ (path <> ": " <> message) ∷ [];
  has_diff_syntax_error = is_file_in_diff path diff_files || v.has_diff_syntax_error;
}

abbrev pub qualified_name_of : SymbolContract → String
qualified_name_of symbol = symbol.qualified_name

-- A hunk that deletes the file, or whose old lines, those of its context among them and at least the
-- one where it starts, meet the span of a symbol of the baseline.
abbrev pub meets_span : SymbolContract → DiffHunk → Bool
meets_span symbol hunk =
    is_deletion hunk.change_type
    || overlaps symbol.line_range hunk.old_start (last_line hunk.old_start hunk.old_lines)

-- The symbols of a file of the baseline that no longer stand anywhere.
unfoldable pub deleted_of :
    List String → List DiffHunk → FilePath → List SymbolContract → List SymbolContract
unfolding is_file_in_diff
deleted_of surviving hunks path symbols =
    let file_hunks = filter (λ h. is_file_in_diff path (h.file_path ∷ [])) hunks in
    map as_affected (
      filter
        (λ symbol.
          not (contains symbol.qualified_name surviving) && any (meets_span symbol) file_hunks)
        symbols)

-- Reading a source as a text, where the reply `failed` is an OSError, and
-- `analyzer.parse_symbols`, where it is a SyntaxParsingError.
module _ {World : Type 0} (tools : GitTools World)
    (read_source : FilePath → World → Reply String × World)
    (parse_symbols : FilePath → String → Reply (List SymbolContract)) (repo_path : FilePath) where
  abbrev pub parsed :
      FilePath → List FilePath → Survey → Reply (List SymbolContract) → Result Survey
  parsed path diff_files v (answered symbols) = ok (record v { symbols = v.symbols ++ symbols })
  parsed path diff_files v (failed message) = ok (noted path message diff_files v)
  parsed path diff_files v (broken e) = err e

  abbrev pub surveyed : FilePath → List FilePath → Survey → Reply String → Result Survey
  surveyed path diff_files v (answered content) =
      parsed path diff_files v (parse_symbols path content)
  surveyed path diff_files v (failed message) = ok (noted path message diff_files v)
  surveyed path diff_files v (broken e) = err e

  -- One round of the traversal.
  unfoldable pub survey_file : List FilePath → FilePath → Survey → Action World Survey
  unfolding name_of suffix_of is_file_in_diff
  survey_file diff_files path v w =
      let (found, w1) = tools.is_file (repo_path <> "/" <> path) w in
      let (content, w2) = read_source (repo_path <> "/" <> path) w1 in
      if not (is_python path)
      then (ok v, w)
      else if not found
      then (ok v, w1)
      else (surveyed path diff_files v content, w2)

  unfoldable pub survey_files : List FilePath → List FilePath → Survey → Action World Survey
  unfolding survey_file
  survey_files diff_files [] v w = (ok v, w)
  survey_files diff_files (path ∷ paths) v w =
      let (r, w1) = survey_file diff_files path v w in continue (survey_files diff_files paths) r w1

  abbrev pub reconciled :
      List String
      → List DiffHunk
      → FilePath
      → Reply (List SymbolContract)
      → Result (List SymbolContract)
  reconciled surviving hunks path (answered symbols) = ok (deleted_of surviving hunks path symbols)
  reconciled surviving hunks path (failed message) = ok []
  reconciled surviving hunks path (broken e) = err e

  -- The baseline of a file; where it cannot be read, the file is passed over.
  abbrev pub reconcile_file :
      List String → List DiffHunk → FilePath → Result String → Result (List SymbolContract)
  reconcile_file surviving hunks path (err e) = ok []
  reconcile_file surviving hunks path (ok content) =
      reconciled surviving hunks path (parse_symbols path content)

  unfoldable pub reconcile :
      String
      → List String
      → List DiffHunk
      → List FilePath
      → Action (GitSession World) (List SymbolContract)
  unfolding get_file_content_at_commit deleted_of name_of suffix_of
  reconcile base surviving hunks [] g = (ok [], g)
  reconcile base surviving hunks (path ∷ paths) g =
      let (content, g1) = get_file_content_at_commit tools repo_path base path g in
      let here = reconcile_file surviving hunks path content in
      let rest = reconcile base surviving hunks paths in
      if is_python path
      then (do found ← lift here; others ← rest; pure (found ++ others)) g1
      else rest g

  unfoldable pub analyze : Option String → Action (GitSession World) RepositorySnapshot
  unfolding validate_repository get_head_commit get_base_commit get_branch_name
      compute_source_tree_hash compute_diff list_tracked_files list_existing_test_files survey_files
      analyzable_files resolve_affected_symbols reconcile files_with_deletions
  analyze base_commit = do
    in_world tools repo_path (validate_repository tools repo_path repo_path)
    current ← get_head_commit tools repo_path
    base ← get_base_commit tools repo_path base_commit
    branch ← get_branch_name tools repo_path
    hash ← compute_source_tree_hash tools repo_path
    hunks ← compute_diff tools repo_path (some base)
    tracked ← list_tracked_files tools repo_path
    tests ← list_existing_test_files tools repo_path
    v ←
        in_world tools repo_path
          (survey_files (map hunk_path hunks) (analyzable_files tracked hunks) no_survey)
    removed ← reconcile base (map qualified_name_of v.symbols) hunks (files_with_deletions hunks)
    now ← in_world tools repo_path (look tools repo_path tools.clock)
    pure (record {
      repo_path = repo_path;
      current_commit = current;
      base_commit = base;
      branch_name = branch;
      tracked_files = tracked;
      existing_test_files = tests;
      source_tree_hash = hash;
      is_valid = not v.has_diff_syntax_error;
      created_at = now;
      diff_hunks = hunks;
      affected_symbols = resolve_affected_symbols v.symbols hunks;
      deleted_symbols = removed;
      syntax_errors = v.syntax_errors;
    })
