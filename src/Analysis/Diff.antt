-- ===== src/Analysis/Diff.antt =====
-- analysis/git_service.py: `_parse_unified_diff`, and the hunk of an untracked file.
use agentic_test_system.Prelude.{
  ℕ, zero, suc, String, Bool, ◌||◌, not, Option, none, some, List, [], ◌∷◌, ◌++◌, ◌<>◌, ◌==◌,
  string_eq, strip, is_blank, is_missing, has_prefix, has_text, char_count, length, map, join,
  shown, if◌then◌else◌,
}
use agentic_test_system.Core.{FilePath, ChangeType, added, modified, deleted, DiffHunk}
use agentic_test_system.Execution.Sources.{is_excluded_path}
use agentic_test_system.Execution.Outcomes.{int_from}

-- A match of HUNK_HEADER_REGEX: where it starts, and its first four groups.
pub record HeaderMatch : Type 0 where
  pub start : ℕ
  pub old_start : String
  pub old_lines : Option String
  pub new_start : String
  pub new_lines : Option String

-- What is used of `re`: `split(r"(?=^diff --git )", text)`, the groups of
-- `search(r"^diff --git a/(.*?) b/(.*?)$", chunk)`, and `HUNK_HEADER_REGEX.finditer(chunk)`.
pub record DiffTools : Type 0 where
  pub file_chunks : String → List String
  pub file_match : String → Option (String × String)
  pub hunk_matches : String → List HeaderMatch

-- `s[start:end]`
unfoldable pub slice : ℕ → ℕ → String → String
slice start end String.[] = String.[]
slice start zero (String.◌∷◌ c s) = String.[]
slice zero (suc end) (String.◌∷◌ c s) = String.◌∷◌ c (slice 0 end s)
slice (suc start) (suc end) (String.◌∷◌ c s) = slice start end s

-- `int(group) if group is not None else 1`
abbrev pub lines_of : Option String → ℕ
lines_of none = 1
lines_of (some digits) = int_from 0 digits

-- Where the next header starts, or where the chunk ends.
abbrev pub end_of : String → List HeaderMatch → ℕ
end_of chunk [] = char_count chunk
end_of chunk (m ∷ ms) = m.start

abbrev pub hunk_of : FilePath → ChangeType → String → HeaderMatch → ℕ → DiffHunk
hunk_of path kind chunk m end = record {
  file_path = path;
  old_start = int_from 0 m.old_start;
  old_lines = lines_of m.old_lines;
  new_start = int_from 0 m.new_start;
  new_lines = lines_of m.new_lines;
  change_type = kind;
  content = strip (slice m.start end chunk);
}

-- The hunks of a chunk.
unfoldable pub hunks_of : FilePath → ChangeType → String → List HeaderMatch → List DiffHunk
unfolding strip slice char_count
hunks_of path kind chunk [] = []
hunks_of path kind chunk (m ∷ ms) =
    hunk_of path kind chunk m (end_of chunk ms) ∷ hunks_of path kind chunk ms

unfoldable pub change_type_of : String → String → String → ChangeType
unfolding has_text
change_type_of chunk old_path new_path =
    if has_text chunk "new file mode" || old_path == "/dev/null" || has_text chunk "--- /dev/null"
    then added
    else if has_text chunk "deleted file mode"
        || new_path == "/dev/null"
        || has_text chunk "+++ /dev/null"
    then deleted
    else modified

abbrev pub is_binary : String → Bool
is_binary chunk = has_text chunk "Binary files " || has_text chunk "GIT binary patch"

abbrev pub changed_path : String × String → FilePath
changed_path (old_path, new_path) = if new_path == "/dev/null" then old_path else new_path

-- A line with a `+` in front, unless it has one.
abbrev pub marked : String → String
marked line = if has_prefix line "+" then line else "+" <> line

abbrev pub hunk_lines : ℕ → ℕ
hunk_lines zero = 1
hunk_lines (suc n) = suc n

-- The hunk of an untracked file, from its lines with their ends.
unfoldable pub added_hunk : FilePath → List String → DiffHunk
unfolding shown join has_prefix
added_hunk path lines =
    let count = hunk_lines (length lines) in
    record {
      file_path = path;
      old_start = 0;
      old_lines = 0;
      new_start = 1;
      new_lines = count;
      change_type = added;
      content = "@@ -0,0 +1," <> shown count <> " @@" <> "\n" <> join "" (map marked lines);
    }

module _ (tools : DiffTools) where
  -- The hunks of a chunk that starts with its file header.
  abbrev pub hunks_of_file : String → Option (String × String) → List DiffHunk
  hunks_of_file chunk none = []
  hunks_of_file chunk (some paths) =
      if is_excluded_path (changed_path paths)
      then []
      else if is_binary chunk
      then []
      else hunks_of (changed_path paths) (change_type_of chunk paths.0 paths.1) chunk
          (tools.hunk_matches chunk)

  unfoldable pub hunks_of_chunk : String → List DiffHunk
  unfolding hunks_of change_type_of has_prefix is_excluded_path has_text
  hunks_of_chunk chunk =
      if is_blank chunk || not (has_prefix chunk "diff --git")
      then []
      else hunks_of_file chunk (tools.file_match chunk)

  -- The loop over the chunks.
  unfoldable pub hunks_of_chunks : List String → List DiffHunk
  unfolding hunks_of_chunk strip
  hunks_of_chunks [] = []
  hunks_of_chunks (chunk ∷ chunks) = hunks_of_chunk (strip chunk) ++ hunks_of_chunks chunks

  unfoldable pub parse_unified_diff : String → List DiffHunk
  unfolding hunks_of_chunks is_missing
  parse_unified_diff text = if is_missing text then [] else hunks_of_chunks (tools.file_chunks text)
