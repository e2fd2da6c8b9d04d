-- ===== src/Execution/Sources.antt =====
-- execution/service.py: `compute_tree_hash`, and `is_excluded_path` of analysis/git_service.py.
use agentic_test_system.Prelude.{
  String, Bool, true, false, ◌||◌, not, Option, none, some, List, [], ◌∷◌, ◌<>◌, any, contains,
  filter, split_on, has_suffix, sort_by, text_leb, ◌==◌, string_eq, if◌then◌else◌,
}
use agentic_test_system.Core.Paths.{name_of, suffix_of}
use agentic_test_system.Core.{FilePath}
use agentic_test_system.Planning.Rules.{lower_is}

abbrev pub excluded_dir_names : List String
excluded_dir_names =
    ".git" ∷ ".venv" ∷ "venv" ∷ "env" ∷ "__pycache__" ∷ ".pytest_cache" ∷ ".mypy_cache"
    ∷ ".ruff_cache" ∷ ".tox" ∷ ".eggs" ∷ "build" ∷ "dist" ∷ []

abbrev pub binary_extensions : List String
binary_extensions =
    ".pyc" ∷ ".pyo" ∷ ".pyd" ∷ ".so" ∷ ".dll" ∷ ".dylib" ∷ ".exe" ∷ ".png" ∷ ".jpg" ∷ ".jpeg"
    ∷ ".gif" ∷ ".ico" ∷ ".pdf" ∷ ".zip" ∷ ".tar" ∷ ".gz" ∷ ".db" ∷ ".sqlite" ∷ ".bin" ∷ []

unfoldable pub is_excluded_path : FilePath → Bool
unfolding name_of suffix_of lower_is split_on has_suffix
is_excluded_path path =
    any (λ part. contains part excluded_dir_names || has_suffix part ".egg-info")
      (split_on 0x2f path)
    || any (lower_is (suffix_of (name_of path))) binary_extensions

-- The order of paths, part by part.
parts_leb : List String → List String → Bool
parts_leb [] qs = true
parts_leb (p ∷ ps) [] = false
parts_leb (p ∷ ps) (q ∷ qs) = if p == q then parts_leb ps qs else text_leb p q

unfoldable pub path_leb : FilePath → FilePath → Bool
unfolding parts_leb
path_leb a b = parts_leb (split_on 0x2f a) (split_on 0x2f b)

-- A file below the root, by its relative path, with its content where it can be read.
abbrev pub SourceFile : Type 0
SourceFile = FilePath × Option String

-- What stands at a path: nothing, one file, or a directory with the files below it.
pub data SourceTree : Type 0 where
  absent : SourceTree
  lone_file : Option String → SourceTree
  directory : List SourceFile → SourceTree

-- `digest` is the SHA-256 digest of a text of bytes.
module _ (digest : String → String) where
  hash_lines : List SourceFile → String
  hash_lines [] = ""
  hash_lines ((path, none) ∷ fs) = hash_lines fs
  hash_lines ((path, some content) ∷ fs) = path <> ":" <> digest content <> "\n" <> hash_lines fs

  unfoldable pub compute_tree_hash : SourceTree → String
  unfolding hash_lines is_excluded_path path_leb
  compute_tree_hash absent = digest ""
  compute_tree_hash (lone_file none) = digest ""
  compute_tree_hash (lone_file (some content)) = digest content
  compute_tree_hash (directory fs) =
      digest (
        hash_lines
          (sort_by (λ a b. path_leb a.0 b.0) (filter (λ f. not (is_excluded_path f.0)) fs)))
