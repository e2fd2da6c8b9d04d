-- ===== src/Analysis/Git.antt =====
-- analysis/git_service.py: `GitService`.
use agentic_test_system.Prelude.{
  String, Bool, true, false, ◌&&◌, ◌||◌, not, Option, none, some, List, [], ◌∷◌, ◌++◌, ◌<>◌, ◌==◌,
  nat_eq, string_eq, strip, is_blank, has_prefix, has_suffix, contains, filter, map, char_count,
  split_lines, split_lines_keepends, sort_by, if◌then◌else◌,
}
use agentic_test_system.Core.{
  FilePath, Timestamp, DiffHunk, RepositorySnapshot, Exn, other_error, Result, ok, err, Action,
  pure, raise, lift, ◌>>=◌, ◌>>◌,
}
use agentic_test_system.Core.Paths.{name_of, suffix_of}
use agentic_test_system.Execution.Sources.{is_excluded_path, path_leb}
use agentic_test_system.Analysis.Diff.{DiffTools, added_hunk, parse_unified_diff}

-- What a call of GitPython gives: a value, an exception that the method catches, by its message, or
-- any other exception.
pub data Reply (A : Type 0) : Type 0 where
  answered : A → Reply A
  failed : String → Reply A
  broken : Exn → Reply A

abbrev pub repository_error : String → Exn
repository_error message = other_error "RepositoryValidationError" message

-- `except ... as exc: raise RepositoryValidationError(f"{prefix}{exc}")`
abbrev pub caught : {A : Type 0} → String → Reply A → Result A
caught prefix (answered a) = ok a
caught prefix (failed message) = err (repository_error (prefix <> message))
caught prefix (broken e) = err e

-- GitPython, the files, SHA-256 and the clock. Reading a file gives none on an OSError.
pub record GitTools (World : Type 0) : Type 0 where
  pub diffs : DiffTools
  pub exists : FilePath → World → Bool × World
  pub is_dir : FilePath → World → Bool × World
  pub is_file : FilePath → World → Bool × World
  -- `git.Repo(path)`, and the directory `git_dir` of that repository
  pub open_repository : FilePath → World → Reply String × World
  pub head_sha : World → Reply String × World
  -- the commit HEAD and its parents
  pub head_commit : Action World (String × List String)
  pub commit_sha : String → World → Reply String × World
  -- the remotes by their names and addresses
  pub remotes : World → Reply (List (String × String)) × World
  -- none where HEAD is detached
  pub active_branch : Action World (Option String)
  -- `repo.git.show(f"{commit}:{path}")`, `repo.git.ls_files()`, `repo.git.diff(base, unified=3)`
  pub git_show : String → World → Reply String × World
  pub ls_files : World → Reply String × World
  pub git_diff : String → World → Reply String × World
  pub untracked_files : Action World (List FilePath)
  -- `rglob("*.py")`, as paths from the root
  pub python_files : Action World (List FilePath)
  pub read_bytes : FilePath → World → Option String × World
  -- whether the first 8192 bytes hold a zero
  pub has_zero_byte : FilePath → World → Option Bool × World
  pub read_text : FilePath → World → Option String × World
  pub digest : String → String
  pub clock : World → Timestamp × World

-- `self._repo is not None`, and the world outside.
pub record GitSession (World : Type 0) : Type 0 where
  pub world : World
  pub has_repo : Bool

abbrev pub is_test_name : FilePath → Bool
is_test_name path = has_prefix (name_of path) "test_" || has_suffix (name_of path) "_test.py"

abbrev pub is_source_path : FilePath → Bool
is_source_path path = not (is_excluded_path path)

-- The tracked files that the output of `git ls-files` lists.
unfoldable pub tracked_of : List String → List FilePath
unfolding strip is_excluded_path
tracked_of lines =
    filter is_source_path (map strip (filter (λ line. not (is_blank (strip line))) lines))

unfoldable pub tracked_tests : List FilePath → List FilePath
unfolding name_of suffix_of has_prefix has_suffix
tracked_tests files = filter (λ f. suffix_of (name_of f) == ".py" && is_test_name f) files

-- The loop over the files of the file system, behind the tests found so far.
unfoldable pub more_tests : List FilePath → List FilePath → List FilePath
unfolding name_of has_prefix has_suffix is_excluded_path
more_tests found [] = found
more_tests found (f ∷ files) =
    more_tests
      (if is_source_path f && (is_test_name f && not (contains f found))
        then found ++ f ∷ []
        else found)
      files

module _ {World : Type 0} (tools : GitTools World) (repo_path : FilePath) where
  abbrev pub in_world : {A : Type 0} → Action World A → Action (GitSession World) A
  in_world f g = let (r, w) = f g.world in (r, record g { world = w })

  abbrev pub asked : {A : Type 0} → String → (World → Reply A × World) → Action (GitSession World) A
  asked prefix f g = let (r, w) = f g.world in (caught prefix r, record g { world = w })

  abbrev pub look : {A : Type 0} → (World → A × World) → Action World A
  look f w = let (a, w1) = f w in (ok a, w1)

  -- Behind `git.Repo(path)`: a repository whose `git_dir` is there.
  abbrev checked_dir : FilePath → String → Action World (Unit {0})
  checked_dir path git_dir w =
      let no_repository = repository_error ("Directory is not a Git repository: " <> path) in
      let (found, w1) = tools.exists git_dir w in
      if is_blank git_dir
      then (err no_repository, w)
      else if found
      then (ok tt, w1)
      else (err no_repository, w1)

  abbrev opened : FilePath → Reply String → Action World (Unit {0})
  opened path (answered git_dir) = checked_dir path git_dir
  opened path (failed message) =
      raise (repository_error ("Directory is not a valid Git repository: " <> path))
  opened path (broken e) = raise e

  unfoldable pub validate_repository : FilePath → Action World (Unit {0})
  validate_repository path w =
      let (found, w1) = tools.exists path w in
      let (dir, w2) = tools.is_dir path w1 in
      let (reply, w3) = tools.open_repository path w2 in
      if not found
      then (err (repository_error ("Repository path does not exist: " <> path)), w1)
      else if not dir
      then (err (repository_error ("Repository path is not a directory: " <> path)), w2)
      else opened path reply w3

  abbrev keep_repo : Action (GitSession World) (Unit {0})
  keep_repo g = (ok tt, record g { has_repo = true })

  -- `_get_repo`
  unfoldable pub get_repo : Action (GitSession World) (Unit {0})
  unfolding validate_repository
  get_repo g =
      if g.has_repo
      then (ok tt, g)
      else (do
        in_world (validate_repository repo_path)
        asked ("Path '" <> repo_path <> "' is not a valid Git repository: ")
            (tools.open_repository repo_path)
        keep_repo)
          g

  abbrev pub of_length : String → Result String
  of_length sha =
      if char_count sha == 40
      then ok sha
      else err (repository_error ("Invalid HEAD commit SHA format: " <> sha))

  abbrev pub read_head : Action (GitSession World) String
  read_head = asked ("Repository at '" <> repo_path <> "' has no commits: ") tools.head_sha

  unfoldable pub get_head_commit : Action (GitSession World) String
  unfolding get_repo char_count
  get_head_commit = do get_repo; sha ← read_head; lift (of_length sha)

  abbrev branch_or_head : Option String → String
  branch_or_head none = "HEAD"
  branch_or_head (some name) = name

  unfoldable pub get_branch_name : Action (GitSession World) String
  unfolding get_repo
  get_branch_name = do get_repo; branch ← in_world tools.active_branch; pure (branch_or_head branch)

  abbrev origin_of : List (String × String) → Option String
  origin_of [] = none
  origin_of ((name, url) ∷ remotes) = if name == "origin" then some url else origin_of remotes

  unfoldable pub get_remote_origin : Action (GitSession World) (Option String)
  unfolding get_repo
  get_remote_origin = do
    get_repo
    remotes ←
        asked ("Failed to read Git remote configuration from '" <> repo_path <> "': ") tools.remotes
    pure (origin_of remotes)

  -- The first parent of HEAD, or HEAD itself.
  abbrev base_of : String × List String → String
  base_of (sha, []) = sha
  base_of (sha, parent ∷ parents) = parent

  abbrev automatic_base : Action (GitSession World) String
  automatic_base = do head ← in_world tools.head_commit; pure (base_of head)

  abbrev resolved_base : Option String → Action (GitSession World) String
  resolved_base none = automatic_base
  resolved_base (some base) =
      if is_blank base
      then automatic_base
      else asked ("Specified base commit '" <> base <> "' not found: ") (tools.commit_sha base)

  unfoldable pub get_base_commit : Option String → Action (GitSession World) String
  unfolding get_repo
  get_base_commit explicit_base = do get_repo; resolved_base explicit_base

  unfoldable pub get_file_content_at_commit : String → FilePath → Action (GitSession World) String
  unfolding get_repo
  get_file_content_at_commit sha path = do
    get_repo
    asked ("Failed to retrieve file '" <> path <> "' at commit '" <> sha <> "': ")
        (tools.git_show (sha <> ":" <> path))

  abbrev pub read_listing : Action (GitSession World) String
  read_listing = asked ("Failed to list tracked files in '" <> repo_path <> "': ") tools.ls_files

  unfoldable pub list_tracked_files : Action (GitSession World) (List FilePath)
  unfolding get_repo tracked_of path_leb split_lines
  list_tracked_files = do
    get_repo
    listed ← read_listing
    pure (sort_by path_leb (tracked_of (split_lines listed)))

  unfoldable pub list_existing_test_files : Action (GitSession World) (List FilePath)
  unfolding get_repo list_tracked_files tracked_tests more_tests path_leb
  list_existing_test_files = do
    get_repo
    tracked ← list_tracked_files
    found ← in_world tools.python_files
    pure (sort_by path_leb (more_tests (tracked_tests tracked) found))

  -- The line of a file for the digest; a file that is not there or cannot be read has none.
  abbrev line_of_bytes : FilePath → Option String → String
  line_of_bytes path none = ""
  line_of_bytes path (some bytes) = path <> ":" <> tools.digest bytes <> "\n"

  abbrev hash_line : FilePath → World → String × World
  hash_line path w =
      let (found, w1) = tools.is_file (repo_path <> "/" <> path) w in
      let (bytes, w2) = tools.read_bytes (repo_path <> "/" <> path) w1 in
      if found then (line_of_bytes path bytes, w2) else ("", w1)

  abbrev hash_lines : List FilePath → World → String × World
  hash_lines [] w = ("", w)
  hash_lines (path ∷ paths) w =
      let (line, w1) = hash_line path w in
      let (rest, w2) = hash_lines paths w1 in (line <> rest, w2)

  unfoldable pub compute_source_tree_hash : Action (GitSession World) String
  unfolding list_tracked_files
  compute_source_tree_hash = do
    paths ← list_tracked_files
    text ← in_world (look (hash_lines paths))
    pure (tools.digest text)

  -- The hunk of an untracked file, if it is a text that can be read.
  abbrev hunk_of_text : FilePath → Option String → List DiffHunk
  hunk_of_text path none = []
  hunk_of_text path (some content) = added_hunk path (split_lines_keepends content) ∷ []

  abbrev pub read_hunk : FilePath → Option Bool → World → List DiffHunk × World
  read_hunk path (some false) w =
      let (content, w1) = tools.read_text (repo_path <> "/" <> path) w in
      (hunk_of_text path content, w1)
  read_hunk path _ w = ([], w)

  abbrev pub untracked_hunk : FilePath → World → List DiffHunk × World
  untracked_hunk path w = elim (is_excluded_path path) [
    | true ↦ ([], w)
    | false ↦
        let (found, w1) = tools.is_file (repo_path <> "/" <> path) w in
        elim found [
          | false ↦ ([], w1)
          | true ↦
              let (zero_byte, w2) = tools.has_zero_byte (repo_path <> "/" <> path) w1 in
              read_hunk path zero_byte w2
        ]
  ]

  unfoldable pub untracked_hunks : List FilePath → World → List DiffHunk × World
  unfolding is_excluded_path added_hunk split_lines_keepends
  untracked_hunks [] w = ([], w)
  untracked_hunks (path ∷ paths) w =
      let (hunks, w1) = untracked_hunk path w in
      let (rest, w2) = untracked_hunks paths w1 in (hunks ++ rest, w2)

  abbrev pub read_diff : String → Action (GitSession World) String
  read_diff base =
      asked ("Failed to compute diff against baseline commit '" <> base <> "': ")
        (tools.git_diff base)

  unfoldable pub compute_diff : Option String → Action (GitSession World) (List DiffHunk)
  unfolding get_repo get_base_commit parse_unified_diff untracked_hunks
  compute_diff base_commit = do
    get_repo
    base ← get_base_commit base_commit
    text ← read_diff base
    untracked ← in_world tools.untracked_files
    hunks ← in_world (look (untracked_hunks untracked))
    pure (parse_unified_diff tools.diffs text ++ hunks)

  unfoldable pub create_snapshot : Option String → Action (GitSession World) RepositorySnapshot
  unfolding validate_repository get_head_commit get_base_commit get_branch_name list_tracked_files
      list_existing_test_files compute_source_tree_hash compute_diff
  create_snapshot base_commit = do
    in_world (validate_repository repo_path)
    current ← get_head_commit
    base ← get_base_commit base_commit
    branch ← get_branch_name
    tracked ← list_tracked_files
    tests ← list_existing_test_files
    hash ← compute_source_tree_hash
    hunks ← compute_diff (some base)
    now ← in_world (look tools.clock)
    pure (record {
      repo_path = repo_path;
      current_commit = current;
      base_commit = base;
      branch_name = branch;
      tracked_files = tracked;
      existing_test_files = tests;
      source_tree_hash = hash;
      is_valid = true;
      created_at = now;
      diff_hunks = hunks;
      affected_symbols = [];
      deleted_symbols = [];
      syntax_errors = [];
    })
