-- ===== src/Analysis/Cleanness.antt =====
-- What a snapshot of analysis/git_service.py holds.
use agentic_test_system.Prelude.{
  nat_eq, ◌==◌, ◌==◌, ◌<>◌, has_prefix, ◌||◌, string_eq, strip, is_blank, is_missing, split_lines,
  String, ◌≡◌, Bool, true, false, ◌&&◌, not, Option, none, some, List, [], ◌∷◌, ◌++◌, map, filter,
  contains, All, All-append, All-map, All-filter, All-sort_by, Bool-cases, Option-cases, char_count,
  arith, inl, inr,
}
use agentic_test_system.Core.{FilePath, ChangeType, DiffHunk, RepositorySnapshot, ok}
use agentic_test_system.Core.Paths.{name_of, suffix_of}
use agentic_test_system.Core.Ensures.{Ensures, bind-Ensures, bind-any}
use agentic_test_system.Execution.Sources.{is_excluded_path, path_leb}
use agentic_test_system.Analysis.Diff.{
  added_hunk, DiffTools, HeaderMatch, hunks_of, changed_path, hunks_of_file, hunks_of_chunk,
  hunks_of_chunks, parse_unified_diff, is_binary,
}
use agentic_test_system.Analysis.Git.{
  of_length, get_repo, get_repo, get_base_commit, get_branch_name, validate_repository,
  compute_source_tree_hash, of_length, read_head, read_listing, read_diff, in_world, GitTools,
  GitSession, is_test_name, is_source_path, tracked_of, tracked_tests, more_tests, untracked_hunk,
  untracked_hunks, read_hunk, get_head_commit, list_tracked_files, list_existing_test_files,
  compute_diff, create_snapshot,
}

-- ---- Files ----

abbrev pub IsSource : FilePath → Type 0
IsSource path = is_excluded_path path ≡ false

abbrev pub IsTest : FilePath → Type 0
IsTest path = IsSource path × (is_test_name path ≡ true)

abbrev pub OfSource : DiffHunk → Type 0
OfSource hunk = IsSource hunk.file_path

source_lem : (path : FilePath) → is_source_path path ≡ true → IsSource path
source_lem path h = ground arith

tracked_of-IsSource : (lines : List String) → All IsSource (tracked_of lines)
unfolding tracked_of
tracked_of-IsSource lines =
    All-map source_lem (tracked_of lines)
      (All-filter is_source_path (map strip (filter (λ line. not (is_blank (strip line))) lines)))

tracked_tests-IsTest :
    (files : List FilePath) → All IsSource files → All IsTest (tracked_tests files)
unfolding tracked_tests
tracked_tests-IsTest [] h = tt
tracked_tests-IsTest (f ∷ files) h = elim (Bool-cases (suffix_of (name_of f) == ".py")) [
  | inr p ↦ rw p (tracked_tests-IsTest files h.1)
  | inl p ↦ elim (Bool-cases (is_test_name f)) [
    | inr q ↦ rw (p, q) (tracked_tests-IsTest files h.1)
    | inl q ↦ rw (p, q) ((h.0, q), tracked_tests-IsTest files h.1)
  ]
]

more_tests-IsTest :
    (found files : List FilePath) → All IsTest found → All IsTest (more_tests found files)
unfolding more_tests
more_tests-IsTest found [] h = h
more_tests-IsTest found (f ∷ files) h =
    elim (Bool-cases (is_source_path f && (is_test_name f && not (contains f found)))) [
      | inl p ↦ rw p (
          more_tests-IsTest (found ++ f ∷ []) files
            (All-append IsTest found (f ∷ []) h ((ground arith, ground arith), tt)))
      | inr p ↦ rw p (more_tests-IsTest found files h)
    ]

-- ---- Hunks ----

hunks_of-OfSource :
    (path : FilePath) (kind : ChangeType) (chunk : String) (ms : List HeaderMatch)
    → IsSource path
    → All OfSource (hunks_of path kind chunk ms)
unfolding hunks_of
hunks_of-OfSource path kind chunk [] h = tt
hunks_of-OfSource path kind chunk (m ∷ ms) h = (h, hunks_of-OfSource path kind chunk ms h)

module _ (tools : DiffTools) where
  hunks_of_file-OfSource :
      (chunk : String) (paths : Option (String × String))
      → All OfSource (hunks_of_file tools chunk paths)
  hunks_of_file-OfSource chunk none = tt
  hunks_of_file-OfSource chunk (some paths) =
      elim (Bool-cases (is_excluded_path (changed_path paths))) [
        | inl p ↦ rw p tt
        | inr p ↦ elim (Bool-cases (is_binary chunk)) [
          | inl q ↦ rw (p, q) tt
          | inr q ↦ rw (p, q) (hunks_of-OfSource (changed_path paths) _ chunk _ p)
        ]
      ]

  hunks_of_chunk-OfSource : (chunk : String) → All OfSource (hunks_of_chunk tools chunk)
  unfolding hunks_of_chunk
  hunks_of_chunk-OfSource chunk =
      elim (Bool-cases (is_blank chunk || not (has_prefix chunk "diff --git"))) [
        | inl p ↦ rw p tt
        | inr p ↦ rw p (hunks_of_file-OfSource chunk (tools.file_match chunk))
      ]

  hunks_of_chunks-OfSource : (chunks : List String) → All OfSource (hunks_of_chunks tools chunks)
  unfolding hunks_of_chunks
  hunks_of_chunks-OfSource [] = tt
  hunks_of_chunks-OfSource (chunk ∷ chunks) =
      All-append OfSource (hunks_of_chunk tools (strip chunk)) (hunks_of_chunks tools chunks)
        (hunks_of_chunk-OfSource (strip chunk)) (hunks_of_chunks-OfSource chunks)

  parse_unified_diff-OfSource : (text : String) → All OfSource (parse_unified_diff tools text)
  unfolding parse_unified_diff
  parse_unified_diff-OfSource text = elim (Bool-cases (is_missing text)) [
    | inl p ↦ rw p tt
    | inr p ↦ rw p (hunks_of_chunks-OfSource (tools.file_chunks text))
  ]

-- What a snapshot holds.
abbrev pub IsClean : RepositorySnapshot → Type 0
IsClean s =
    (char_count s.current_commit ≡ 40)
    × All IsSource s.tracked_files
    × All IsTest s.existing_test_files
    × All OfSource s.diff_hunks

module _ {World : Type 0} (tools : GitTools World) (repo_path : FilePath) where
  read_hunk-OfSource :
      (path : FilePath) (zero_byte : Option Bool) (w : World)
      → IsSource path
      → All OfSource (read_hunk tools repo_path path zero_byte w).0
  unfolding added_hunk
  read_hunk-OfSource path none w h = tt
  read_hunk-OfSource path (some true) w h = tt
  read_hunk-OfSource path (some false) w h =
      elim (Option-cases (tools.read_text (repo_path <> "/" <> path) w).0) [
        | inl q ↦ rw q tt
        | inr (content, q) ↦ rw q (h, tt)
      ]

  untracked_hunk-OfSource :
      (path : FilePath) (w : World) → All OfSource (untracked_hunk tools repo_path path w).0
  untracked_hunk-OfSource path w = elim (Bool-cases (is_excluded_path path)) [
    | inl p ↦ rw (p, All, untracked_hunk) tt
    | inr p ↦ elim (Bool-cases (tools.is_file (repo_path <> "/" <> path) w).0) [
      | inr q ↦ rw (p, q, All, untracked_hunk) tt
      | inl q ↦ rw (p, q, All, untracked_hunk) (read_hunk-OfSource path _ _ p)
    ]
  ]

  untracked_hunks-OfSource :
      (paths : List FilePath) (w : World) → All OfSource (untracked_hunks tools repo_path paths w).0
  unfolding untracked_hunks
  untracked_hunks-OfSource [] w = tt
  untracked_hunks-OfSource (path ∷ paths) w =
      All-append OfSource (untracked_hunk tools repo_path path w).0 _
        (untracked_hunk-OfSource path w)
        (untracked_hunks-OfSource paths (untracked_hunk tools repo_path path w).1)

  of_length-Ensures :
      (sha : String) → Ensures (λ k. char_count k ≡ 40) (of_length tools repo_path sha)
  of_length-Ensures sha = elim (Bool-cases (char_count sha == 40)) [
    | inl p ↦ rw p (ground arith)
    | inr p ↦ rw p tt
  ]

  get_head_commit-Ensures :
      (g : GitSession World)
      → Ensures (λ sha. char_count sha ≡ 40) (get_head_commit tools repo_path g).0
  unfolding get_head_commit
  get_head_commit-Ensures g =
      bind-any _ _ (get_repo tools repo_path) g
        λ _ s. bind-any _ _ (read_head tools repo_path) s λ sha s'. of_length-Ensures sha

  list_tracked_files-Ensures :
      (g : GitSession World) → Ensures (All IsSource) (list_tracked_files tools repo_path g).0
  unfolding list_tracked_files
  list_tracked_files-Ensures g = bind-any _ _ (get_repo tools repo_path) g λ _ s.
      bind-any _ _ (read_listing tools repo_path) s λ listed s'.
        All-sort_by path_leb IsSource (tracked_of (split_lines listed))
          (tracked_of-IsSource (split_lines listed))

  list_existing_test_files-Ensures :
      (g : GitSession World) → Ensures (All IsTest) (list_existing_test_files tools repo_path g).0
  unfolding list_existing_test_files
  list_existing_test_files-Ensures g = bind-any _ _ (get_repo tools repo_path) g λ _ s.
      bind-Ensures _ _ (All IsSource) (list_tracked_files tools repo_path) s
        (list_tracked_files-Ensures s)
        λ tracked s' sources.
          bind-any _ _ (in_world tools repo_path tools.python_files) s' λ found s2.
            All-sort_by path_leb IsTest (more_tests (tracked_tests tracked) found) (
              more_tests-IsTest (tracked_tests tracked) found
                (tracked_tests-IsTest tracked sources))

  compute_diff-Ensures :
      (base : Option String) (g : GitSession World)
      → Ensures (All OfSource) (compute_diff tools repo_path base g).0
  unfolding compute_diff
  compute_diff-Ensures base g = bind-any _ _ (get_repo tools repo_path) g λ _ s.
      bind-any _ _ (get_base_commit tools repo_path base) s λ sha s1.
        bind-any _ _ (read_diff tools repo_path sha) s1 λ text s2.
          bind-any _ _ (in_world tools repo_path tools.untracked_files) s2 λ paths s3.
            All-append OfSource (parse_unified_diff tools.diffs text) _
              (parse_unified_diff-OfSource tools.diffs text)
              (untracked_hunks-OfSource paths s3.world)

  create_snapshot-Ensures :
      (base : Option String) (g : GitSession World)
      → Ensures IsClean (create_snapshot tools repo_path base g).0
  unfolding create_snapshot
  create_snapshot-Ensures base g =
      bind-any _ _ (in_world tools repo_path (validate_repository tools repo_path repo_path)) g
        λ _ g1.
          bind-Ensures _ _ (λ sha. char_count sha ≡ 40) (get_head_commit tools repo_path) g1
            (get_head_commit-Ensures g1)
            λ sha g2 long. bind-any _ _ (get_base_commit tools repo_path base) g2 λ from g3.
              bind-any _ _ (get_branch_name tools repo_path) g3 λ branch g4.
                bind-Ensures _ _ (All IsSource) (list_tracked_files tools repo_path) g4
                  (list_tracked_files-Ensures g4)
                  λ tracked g5 sources.
                    bind-Ensures _ _ (All IsTest) (list_existing_test_files tools repo_path) g5
                      (list_existing_test_files-Ensures g5)
                      λ tests g6 named.
                        bind-any _ _ (compute_source_tree_hash tools repo_path) g6 λ hash g7.
                          bind-Ensures _ _ (All OfSource) (compute_diff tools repo_path (some from))
                            g7 (compute_diff-Ensures (some from) g7)
                            λ hunks g8 changed. (long, sources, named, changed)

  -- A snapshot that is created names a commit by 40 characters, and neither its tracked files, nor
  -- its test files, nor its hunks have a path that is excluded; each of its test files has a name
  -- that starts with `test_` or ends with `_test.py`.
  pub create_snapshot-IsClean :
      (base : Option String) (g g' : GitSession World) (s : RepositorySnapshot)
      → create_snapshot tools repo_path base g ≡ (ok s, g')
      → IsClean s
  create_snapshot-IsClean base g g' s h = let r = create_snapshot-Ensures base g in rw h at r
