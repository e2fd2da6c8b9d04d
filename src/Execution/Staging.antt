-- ===== src/Execution/Staging.antt =====
-- execution/staging.py: `format_candidate_artifact` and `CandidateStagingArea`.
pub mod Paths
unfoldable pub use agentic_test_system.Execution.Staging.Paths.{
  format_candidate_artifact, parts_of, normalize_relative_path, sanitized, ancestors, parent_of,
  is_relative_to, status_value, parents_of,
}
use agentic_test_system.Prelude.{
  ℕ, String, Bool, true, false, ◌&&◌, ◌||◌, not, Option, none, some, is_some, List, [], ◌∷◌, ◌++◌,
  map, ◌<>◌, ◌==◌, nat_eq, string_eq, leb, strip, is_blank, is_empty, is_missing, has_prefix,
  contains, filter, length, join, split_on, replace_char, if◌then◌else◌,
}
use Prim.Native.Char.{Char, code}
use agentic_test_system.Core.{
  FilePath, TestCandidate, ValidationStatus, pending, passed, rejected_syntax, rejected_security,
  rejected_collection, quarantined, status_eq, Exn, staging_error, staging_path_error,
  staging_validation_error, Result, ok, err, Action, pure, raise, lift, continue, ◌>>=◌, ◌>>◌,
}
use agentic_test_system.Core.Paths.{name_of, stem_of, suffix_of, is_absolute}
use agentic_test_system.Execution.Runner.{has_drive}

-- The file system: where a path leads, behind its symbolic links, whether it is one, and what makes
-- directories and files. Symbolic links stay as they are meanwhile.
pub record StagingFiles (World : Type 0) : Type 0 where
  pub resolve : FilePath → FilePath
  pub is_symlink : FilePath → Bool
  pub make_directory : FilePath → Action World (Unit {0})
  pub write_text : FilePath → String → Action World (Unit {0})
  pub exists : FilePath → World → Bool × World
  -- `any(path.iterdir())`
  pub has_entries : FilePath → Action World Bool
  -- `shutil.rmtree(path, ignore_errors=True)`
  pub remove_tree : FilePath → World → World
  -- `Path.home().resolve()`, or none without a home
  pub home : Option FilePath

-- The fields of the area that change, and the world outside.
pub record StagingArea (World : Type 0) : Type 0 where
  pub world : World
  pub candidate_to_path : List (String × FilePath)
  pub path_to_candidate : List (FilePath × String)

-- `d.get(key)` and `d[key] = value` of a dictionary.
abbrev pub lookup : String → List (String × String) → Option String
lookup k [] = none
lookup k (x ∷ xs) = let rest = lookup k xs in if x.0 == k then some x.1 else rest

abbrev pub assign : String → String → List (String × String) → List (String × String)
assign k v [] = (k, v) ∷ []
assign k v (x ∷ xs) = let rest = assign k v xs in if x.0 == k then (k, v) ∷ xs else x ∷ rest

module _ {World : Type 0} (files : StagingFiles World) (staging_root : FilePath) where
  abbrev pub tests_dir : FilePath
  tests_dir = staging_root <> "/tests"

  abbrev on_files : {A : Type 0} → Action World A → Action (StagingArea World) A
  on_files f m = let (r, w) = f m.world in (r, record m { world = w })

  -- The loop of `_assert_no_symlink_components` over a path and what is above it.
  unfoldable pub check_components : List FilePath → Result (Unit {0})
  check_components [] = ok tt
  check_components (curr ∷ above) =
      let rest = check_components above in
      if curr == tests_dir || curr == staging_root || is_blank curr
      then ok tt
      else if files.is_symlink curr
      then err (staging_path_error ("Refusing to write to or through symlink: " <> curr))
      else rest

  unfoldable pub assert_no_symlink_components : FilePath → Result (Unit {0})
  unfolding ancestors check_components
  assert_no_symlink_components path = check_components (ancestors path)

  -- `f"{stem}_{safe_id}{suffix}"` beside the path that is taken.
  unfoldable pub disambiguated : FilePath → String → FilePath
  unfolding parent_of name_of stem_of suffix_of sanitized
  disambiguated path k =
      let name = name_of path in
      let suffix = (if is_blank (suffix_of name) then ".py" else suffix_of name) in
      parent_of path <> "/" <> stem_of name <> "_" <> sanitized k <> suffix

  -- The destination of a candidate that has none yet.
  unfoldable pub choose_destination :
      TestCandidate → List (FilePath × String) → FilePath → Result FilePath
  unfolding is_relative_to disambiguated
  choose_destination c taken path =
      let dest = files.resolve (tests_dir <> "/" <> path) in
      let other = disambiguated dest c.candidate_id in
      if not (is_relative_to dest tests_dir)
      then err (
          staging_path_error (
            "Resolved destination '" <> dest <> "' escapes staging root '" <> staging_root <> "'."))
      else if not (is_some (lookup dest taken))
      then ok dest
      else if not (is_relative_to (files.resolve other) tests_dir)
      then err (
          staging_path_error
            ("Disambiguated destination '" <> other <> "' escapes staging tests directory."))
      else ok other

  -- Writing to a path: the check for links, the directories, the file.
  unfoldable pub write_to : TestCandidate → FilePath → Action (StagingArea World) (Unit {0})
  unfolding assert_no_symlink_components parent_of format_candidate_artifact
  write_to c path = do
    lift (assert_no_symlink_components path)
    on_files (files.make_directory (parent_of path))
    on_files (files.write_text path (format_candidate_artifact c))

  abbrev pub register : String → FilePath → Action (StagingArea World) FilePath
  register k path m = (
    ok path,
    record m {
      candidate_to_path = assign k path m.candidate_to_path;
      path_to_candidate = assign path k m.path_to_candidate;
    },
  )

  abbrev pub place : TestCandidate → FilePath → Action (StagingArea World) FilePath
  place c path = do write_to c path; register c.candidate_id path

  -- The first staging of a candidate, on the paths that are taken.
  abbrev pub place_new :
      TestCandidate → List (FilePath × String) → Action (StagingArea World) FilePath
  place_new c taken = do
    path ← lift (normalize_relative_path c.test_file_path)
    dest ← lift (choose_destination c taken path)
    place c dest

  abbrev pub place_at :
      TestCandidate
      → List (FilePath × String)
      → Option FilePath
      → Action (StagingArea World) FilePath
  place_at c taken (some path) = do write_to c path; pure path
  place_at c taken none = place_new c taken

  -- `_write_candidate_artifact`
  unfoldable pub write_candidate_artifact : TestCandidate → Action (StagingArea World) FilePath
  unfolding normalize_relative_path choose_destination write_to
  write_candidate_artifact c m =
      place_at c m.path_to_candidate (lookup c.candidate_id m.candidate_to_path) m

  unfoldable pub stage_candidate : TestCandidate → Action (StagingArea World) FilePath
  unfolding write_candidate_artifact is_missing
  stage_candidate c m =
      if not (c.validation_status == passed)
      then (
        err (
            staging_validation_error (
              "Candidate '"
              <> c.candidate_id
              <> "' cannot be staged for execution: validation_status is '"
              <> status_value c.validation_status
              <> "', expected '"
              <> status_value passed
              <> "'.")),
        m,
      )
      else if is_missing c.candidate_code
      then (
        err (
            staging_validation_error (
              "Candidate '" <> c.candidate_id
              <> "' cannot be staged: candidate_code is empty or whitespace.")),
        m,
      )
      else write_candidate_artifact c m

  unfoldable pub stage_candidate_for_collection :
      TestCandidate → Bool → Action (StagingArea World) FilePath
  unfolding write_candidate_artifact is_missing
  stage_candidate_for_collection c static_gates_passed m =
      if not static_gates_passed
      then (
        err (
            staging_validation_error (
              "Candidate '" <> c.candidate_id
              <> "' cannot be staged for collection: static_gates_passed=True is required (Gates 1 & 2 must pass before collection staging).")),
        m,
      )
      else if not (c.validation_status == pending || c.validation_status == passed)
      then (
        err (
            staging_validation_error (
              "Candidate '"
              <> c.candidate_id
              <> "' has validation_status='"
              <> status_value c.validation_status
              <> "'. Rejected or quarantined candidates must never be staged for collection.")),
        m,
      )
      else if is_missing c.candidate_code
      then (
        err (
            staging_validation_error (
              "Candidate '" <> c.candidate_id
              <> "' cannot be staged for collection: code is empty or whitespace.")),
        m,
      )
      else write_candidate_artifact c m

  unfoldable pub stage_candidates : List TestCandidate → Action (StagingArea World) (List FilePath)
  unfolding stage_candidate
  stage_candidates [] = pure []
  stage_candidates (c ∷ cs) = do
    path ← stage_candidate c
    paths ← stage_candidates cs
    pure (path ∷ paths)

  unfoldable pub get_staged_path : String → StagingArea World → Option FilePath
  get_staged_path k m = lookup k m.candidate_to_path

  -- The guards of `__init__` and of `cleanup`: neither the home nor what is above it.
  abbrev pub is_home : FilePath → Bool
  is_home path = elim files.home [
    | none ↦ false
    | some h ↦ path == h || contains path (parents_of h)
  ]

  abbrev pub is_root : FilePath → Bool
  is_root path = is_blank path || path == "/"

  abbrev marker_of : FilePath → FilePath
  marker_of root = root <> "/.agentic_staging_marker"

  abbrev pub mark : FilePath → Action World (Unit {0})
  mark root = files.write_text (marker_of root) "agentic-staging-area\n"

  -- An unmarked directory is taken only if it is empty.
  abbrev pub claim_directory : FilePath → Bool → Action World (Unit {0})
  claim_directory root true = raise (
      staging_error
        ("Staging root '" <> root <> "' is a pre-existing unmarked non-empty directory."))
  claim_directory root false = mark root

  abbrev pub establish : FilePath → Bool → Action World (Unit {0})
  establish root false w = (do files.make_directory root; mark root) w
  establish root true w = elim (files.exists (marker_of root) w).0 [
    | true ↦ (ok tt, (files.exists (marker_of root) w).1)
    | false ↦
        (do found ← files.has_entries root; claim_directory root found)
          (files.exists (marker_of root) w).1
  ]

  -- `__init__`, on the root as it was given.
  unfoldable pub open_area : FilePath → Action World FilePath
  unfolding parents_of
  open_area given w =
      let root = files.resolve given in
      if files.is_symlink given
      then (err (staging_path_error ("Staging root must not be a symlink: " <> given)), w)
      else if is_home root
      then (err (staging_error ("Staging root cannot be user home or system root: " <> root)), w)
      else if is_root root
      then (
        err (staging_error ("Staging root cannot be a system drive or root anchor: " <> root)),
        w,
      )
      else (let (found, w1) = files.exists root w in (establish root found >>= λ _. pure root) w1)

  abbrev pub emptied : World → StagingArea World
  emptied w = record { world = w; candidate_to_path = []; path_to_candidate = [] }

  -- Behind the marker.
  unfoldable pub remove_marked : FilePath → Bool → Action (StagingArea World) (Unit {0})
  unfolding parents_of
  remove_marked root false m =
      (err (staging_error ("Refusing to delete unmarked directory: " <> root)), m)
  remove_marked root true m =
      if is_root root
      then (err (staging_error ("Refusing to delete unsafe root path: " <> root)), m)
      else if is_home root
      then (err (staging_error ("Refusing to delete home directory path: " <> root)), m)
      else (ok tt, emptied (files.remove_tree root m.world))

  unfoldable pub cleanup : Action (StagingArea World) (Unit {0})
  unfolding remove_marked
  cleanup m =
      let root = files.resolve staging_root in
      let (found, w1) = files.exists staging_root m.world in
      elim found [
        | false ↦ (ok tt, record m { world = w1 })
        | true ↦
            let (marked, w2) = files.exists (marker_of root) w1 in
            remove_marked root marked (record m { world = w2 })
      ]

  -- `__exit__`
  unfoldable pub leave : Bool → Action (StagingArea World) (Unit {0})
  unfolding cleanup
  leave auto_cleanup m = if auto_cleanup then cleanup m else (ok tt, m)

  -- `staged_count`
  unfoldable pub staged_count : StagingArea World → ℕ
  staged_count m = length m.candidate_to_path

-- `CollectionStagingArea`, whose staging is the one for collection.
module _ {World : Type 0} (files : StagingFiles World) (staging_root : FilePath) where
  unfoldable pub stage_collection_candidate :
      TestCandidate → Bool → Action (StagingArea World) FilePath
  unfolding stage_candidate_for_collection
  stage_collection_candidate = stage_candidate_for_collection files staging_root
