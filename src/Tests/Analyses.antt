-- ===== src/Tests/Analyses.antt =====
-- A repository with a deleted function, and the theorems on its snapshots.
use agentic_test_system.Prelude.{
  inl, sym, inr, Bool-cases, All, sort_by, ◌+◌, ℕ, String, ◌≡◌, refl, Bool, true, false, none, some,
  List, [], ◌∷◌, ◌==◌, string_eq, if◌then◌else◌,
}
use agentic_test_system.Core.{
  FilePath, function, SymbolContract, RepositorySnapshot, Result, ok, err,
}
use agentic_test_system.Analysis.Diff.{DiffTools, HeaderMatch}
use agentic_test_system.Analysis.Git.{Reply, answered, GitTools, GitSession, create_snapshot}
use agentic_test_system.Analysis.Cleanness.{IsClean, create_snapshot-IsClean}
use agentic_test_system.Analysis.Snapshots.{analyze}
use agentic_test_system.Analysis.Deletions.{StandsIn, IsReconciled, analyze-IsReconciled}

abbrev diff_text : String
diff_text = "diff --git a/a.py b/a.py\n@@ -1,3 +1,2 @@\n def f():\n+    return 1\n-def g(): pass"

abbrev header : HeaderMatch
header = record {
  start = 25;
  old_start = "1";
  old_lines = some "3";
  new_start = "1";
  new_lines = some "2";
}

abbrev diff_tools : DiffTools
diff_tools = record {
  file_chunks = λ text. text ∷ [];
  file_match = λ chunk. some ("a.py", "a.py");
  hunk_matches = λ chunk. header ∷ [];
}

abbrev head_sha : String
head_sha = "0123456789012345678901234567890123456789"

-- The world is the count of what the clock was asked.
abbrev git_tools : GitTools ℕ
git_tools = record {
  diffs = diff_tools;
  exists = λ path w. (true, w);
  is_dir = λ path w. (true, w);
  is_file = λ path w. (true, w);
  open_repository = λ path w. (answered "/repo/.git", w);
  head_sha = λ w. (answered head_sha, w);
  remotes = λ w. (answered [], w);
  head_commit = λ w. (ok (head_sha, "base" ∷ []), w);
  commit_sha = λ name w. (answered name, w);
  active_branch = λ w. (ok (some "main"), w);
  git_show = λ name w. (answered "baseline", w);
  ls_files = λ w. (answered "tests/test_a.py\nbuild/x.py\na.py\n", w);
  git_diff = λ base w. (answered diff_text, w);
  untracked_files = λ w. (ok ("notes.txt" ∷ "dist/y.txt" ∷ []), w);
  python_files = λ w. (ok ("a.py" ∷ "b_test.py" ∷ "tests/test_a.py" ∷ []), w);
  read_bytes = λ path w. (some path, w);
  has_zero_byte = λ path w. (some false, w);
  read_text = λ path w. (some "one\n+two\n", w);
  digest = λ text. text;
  clock = λ w. (w, 1 + w);
}

abbrev fresh : GitSession ℕ
fresh = record { world = 7; has_repo = false }

abbrev no_snapshot : RepositorySnapshot
no_snapshot = record {
  repo_path = "";
  current_commit = "";
  base_commit = "";
  branch_name = "";
  tracked_files = [];
  existing_test_files = [];
  source_tree_hash = "";
  is_valid = false;
  created_at = 0;
  diff_hunks = [];
  affected_symbols = [];
  deleted_symbols = [];
  syntax_errors = [];
}

abbrev snapshot_from : Result RepositorySnapshot × GitSession ℕ → RepositorySnapshot
snapshot_from (ok s, g) = s
snapshot_from (err e, g) = no_snapshot

abbrev session_of : Result RepositorySnapshot × GitSession ℕ → GitSession ℕ
session_of (r, g) = g

abbrev gave_one : Result RepositorySnapshot × GitSession ℕ → Bool
gave_one (ok s, g) = true
gave_one (err e, g) = false

gave_one_lem :
    (r : Result RepositorySnapshot × GitSession ℕ)
    → gave_one r ≡ true
    → r ≡ (ok (snapshot_from r), session_of r)
gave_one_lem (ok s, g) h = refl
gave_one_lem (err e, g) h = cc

abbrev snapshot : RepositorySnapshot
snapshot = snapshot_from (create_snapshot git_tools "/repo" none fresh)

snapshot_tests : snapshot.existing_test_files ≡ "b_test.py" ∷ "tests/test_a.py" ∷ []
unfolding create_snapshot sort_by
snapshot_tests = refl

create_snapshot-IsClean_example : IsClean snapshot
unfolding create_snapshot
create_snapshot-IsClean_example =
    create_snapshot-IsClean git_tools "/repo" none fresh
      (session_of (create_snapshot git_tools "/repo" none fresh)) snapshot
      (gave_one_lem (create_snapshot git_tools "/repo" none fresh) refl)

abbrev function_at : String → FilePath → ℕ × ℕ → SymbolContract
function_at name path lines = record {
  qualified_name = name;
  symbol_type = function;
  file_path = path;
  line_range = lines;
  signature = name;
  docstring = none;
  dependencies = [];
  is_affected = false;
}

abbrev parsed_symbols : FilePath → String → Reply (List SymbolContract)
parsed_symbols path content =
    if path == "a.py"
    then answered (
        function_at "a.f" path (1, 2)
        ∷ (if content == "baseline" then function_at "a.g" path (3, 3) ∷ [] else []))
    else answered []

abbrev read_source : FilePath → ℕ → Reply String × ℕ
read_source path w = (answered "now", w)

abbrev analysis : Result RepositorySnapshot × GitSession ℕ
analysis = analyze git_tools read_source parsed_symbols "/repo" none fresh

abbrev names : List SymbolContract → List String
names [] = []
names (s ∷ ss) = s.qualified_name ∷ names ss

analysis_affected : names (snapshot_from analysis).affected_symbols ≡ "a.f" ∷ []
unfolding analyze sort_by
analysis_affected = refl

analysis_deleted : names (snapshot_from analysis).deleted_symbols ≡ "a.g" ∷ []
unfolding analyze sort_by
analysis_deleted = refl

parsed_symbols-StandsIn :
    (path : FilePath) (content : String) (symbols : List SymbolContract)
    → parsed_symbols path content ≡ answered symbols
    → All (StandsIn path) symbols
parsed_symbols-StandsIn path content symbols h = elim (Bool-cases (path == "a.py")) [
  | inr p ↦ let same : [] ≡ symbols = (let h' = rw p at h in cc) in rw (sym same) tt
  | inl p ↦ elim (Bool-cases (content == "baseline")) [
    | inl q ↦
        let same : function_at "a.f" path (1, 2) ∷ function_at "a.g" path (3, 3) ∷ [] ≡ symbols =
          (let h' = rw (p, q) at h in cc) in
        rw (sym same) (refl, (refl, tt))
    | inr q ↦
        let same : function_at "a.f" path (1, 2) ∷ [] ≡ symbols = (let h' = rw (p, q) at h in cc) in
        rw (sym same) (refl, tt)
  ]
]

analyze-IsReconciled_example :
    IsReconciled git_tools read_source parsed_symbols "/repo" (snapshot_from analysis)
unfolding analyze sort_by
analyze-IsReconciled_example =
    analyze-IsReconciled git_tools read_source parsed_symbols "/repo" parsed_symbols-StandsIn none
      fresh (session_of analysis) (snapshot_from analysis) (gave_one_lem analysis refl)
