-- ===== src/Analysis/Affected.antt =====
-- analysis/ast_analyzer.py: `_extract_hunk_changes` and `resolve_affected_symbols`.
use agentic_test_system.Prelude.{
  zero, ℕ, suc, ◌+◌, String, Bool, true, false, ◌&&◌, ◌||◌, not, Option, none, some, List, [], ◌∷◌,
  ◌++◌, ◌<>◌, ◌==◌, nat_eq, string_eq, leb, ltb, min, max, strip, lstrip, is_blank, is_missing,
  has_prefix, has_suffix, split_lines, any, all, filter, map, if◌then◌else◌,
}
use agentic_test_system.Core.{FilePath, DiffHunk, SymbolContract}

-- `_paths_match`
unfoldable pub paths_match : FilePath → FilePath → Bool
unfolding has_suffix
paths_match path1 path2 =
    path1 == path2 || has_suffix path1 ("/" <> path2) || has_suffix path2 ("/" <> path1)

-- A block of deleted lines: the line of the new file behind it when it began (`del_prev_line + 1`),
-- the one behind it when it ended, and whether it is an indented body.
pub record Boundary : Type 0 where
  pub begun : ℕ
  pub next : ℕ
  pub is_indented : Bool

-- The local variables of the loop over the lines; `run` is there in a run of deleted lines.
pub record HunkScan : Type 0 where
  pub line : ℕ
  pub added_lines : List ℕ
  pub boundaries : List Boundary
  pub run : Option (ℕ × List String)
  pub has_evidence : Bool

abbrev pub is_body_line : String → Bool
is_body_line c =
    (has_prefix c " " || has_prefix c "\t")
    && not (
        has_prefix (lstrip c) "def " || has_prefix (lstrip c) "class " || has_prefix (lstrip c) "@")

unfoldable pub is_indented_body : List String → Bool
unfolding strip lstrip has_prefix
is_indented_body lines =
    all (λ c. is_blank (strip c) || is_body_line c) lines
    && any (λ c. not (is_blank (strip c))) lines

abbrev pub close_run : HunkScan → HunkScan
close_run v = elim v.run [
  | none ↦ v
  | some (begun, lines) ↦ record v {
    boundaries =
        v.boundaries
        ++ record { begun = begun; next = v.line; is_indented = is_indented_body lines } ∷ [];
    run = none;
  }
]

-- `line[1:]`
abbrev pub without_mark : String → String
without_mark String.[] = String.[]
without_mark (String.◌∷◌ c s) = s

abbrev pub extend_run : Option (ℕ × List String) → ℕ → String → Option (ℕ × List String)
extend_run none line text = some (line, text ∷ [])
extend_run (some (begun, lines)) line text = some (begun, lines ++ text ∷ [])

unfoldable pub scan_line : String → HunkScan → HunkScan
unfolding has_prefix is_indented_body
scan_line text v =
    let u = close_run v in
    if has_prefix text " "
    then record u { line = u.line + 1 }
    else if has_prefix text "+"
    then record u {
      added_lines = u.added_lines ++ u.line ∷ [];
      line = u.line + 1;
      has_evidence = true;
    }
    else if has_prefix text "-"
    then record v { run = extend_run v.run v.line (without_mark text); has_evidence = true }
    else v

unfoldable pub scan_lines : List String → HunkScan → HunkScan
unfolding scan_line
scan_lines [] v = close_run v
scan_lines (text ∷ lines) v = scan_lines lines (scan_line text v)

-- The lines behind the first one that starts with `@@`.
unfoldable pub behind_header : List String → Option (List String)
unfolding has_prefix
behind_header [] = none
behind_header (text ∷ lines) =
    let rest = behind_header lines in if has_prefix text "@@" then some lines else rest

abbrev pub scan_from : ℕ → HunkScan
scan_from line = record {
  line = line;
  added_lines = [];
  boundaries = [];
  run = none;
  has_evidence = false;
}

abbrev pub scan_body : ℕ → Option (List String) → HunkScan
scan_body line none = scan_from line
scan_body line (some lines) = scan_lines lines (scan_from line)

unfoldable pub extract_hunk_changes : DiffHunk → HunkScan
unfolding scan_lines behind_header split_lines is_missing
extract_hunk_changes hunk =
    if is_missing hunk.content
    then scan_from hunk.new_start
    else scan_body hunk.new_start (behind_header (split_lines hunk.content))

abbrev pub is_inside : ℕ × ℕ → ℕ → Bool
is_inside (start, end) line = leb start line && leb line end

-- An interior deletion, or a trailing one of an indented body.
abbrev pub is_deleted_at : ℕ × ℕ → Boundary → Bool
is_deleted_at (start, end) b =
    ltb start b.begun && leb b.next end || b.begun == suc end && b.is_indented

-- The last line of a span that starts at a line.
abbrev pub last_line : ℕ → ℕ → ℕ
last_line start zero = start
last_line start (suc n) = start + n

abbrev pub overlaps : ℕ × ℕ → ℕ → ℕ → Bool
overlaps (start, end) first last = leb (max start first) (min end last)

unfoldable pub is_changed_by : SymbolContract → DiffHunk → Bool
unfolding extract_hunk_changes paths_match
is_changed_by symbol hunk =
    let v = extract_hunk_changes hunk in
    paths_match symbol.file_path hunk.file_path
    && (if v.has_evidence
        then any (is_inside symbol.line_range) v.added_lines
          || any (is_deleted_at symbol.line_range) v.boundaries
        else overlaps symbol.line_range hunk.new_start (last_line hunk.new_start hunk.new_lines))

abbrev pub as_affected : SymbolContract → SymbolContract
as_affected symbol = record symbol { is_affected = true }

unfoldable pub resolve_affected_symbols : List SymbolContract → List DiffHunk → List SymbolContract
unfolding is_changed_by
resolve_affected_symbols symbols hunks =
    map as_affected (filter (λ symbol. any (is_changed_by symbol) hunks) symbols)
