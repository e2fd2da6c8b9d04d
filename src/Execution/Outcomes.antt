-- ===== src/Execution/Outcomes.antt =====
-- execution/runner.py: `parse_test_outcomes`.
use agentic_test_system.Prelude.{
  ℕ, zero, suc, ◌+◌, ◌*◌, ◌-◌, String, ℤ, pos, int_eq, Bool, ◌&&◌, ◌||◌, not, Option, none, some,
  is_some, List, [], ◌∷◌, ◌++◌, ◌<>◌, ◌==◌, string_eq, nat_eq, ltb, strip, is_blank, is_empty,
  length, drop, join, split_lines, has_text, shown, shown_int, if◌then◌else◌,
}
use Prim.Native.Char.{code}
use agentic_test_system.Core.{Decimal}
use agentic_test_system.Execution.Runner.{TestRunSummary}

-- What is used of `re`, `str` and `float`: the group of the first match of a pattern, or the whole
-- match where the pattern has no group; the lower case; and the number that a text of digits and a
-- point stands for, in millionths.
pub record OutcomeTools : Type 0 where
  pub search : String → String → Option String
  pub lower : String → String
  pub float : String → Option Decimal

-- `int(digits)`
abbrev pub int_from : ℕ → String → ℕ
int_from n String.[] = n
int_from n (String.◌∷◌ c s) = int_from (10 * n + (code c - 0x30)) s

abbrev pub count_of : Option String → ℕ
count_of none = 0
count_of (some digits) = int_from 0 digits

abbrev pub positive : ℕ → Bool
positive n = ltb 0 n

-- `_interpret_status_message`
unfoldable pub interpret_status_message : ℤ → ℕ → ℕ → ℕ → ℕ → Bool → Bool → String
unfolding shown join
interpret_status_message exit_code passed failed errors skipped timed_out oom_killed =
    if timed_out || exit_code == pos 124
    then "Command execution timed out (SIGKILL)"
    else if oom_killed || exit_code == pos 137
    then "Process terminated due to out-of-memory (OOM) or SIGKILL"
    else if exit_code == pos 2
    then "Execution interrupted by user or signal"
    else if exit_code == pos 5
    then "No tests were collected"
    else if exit_code == pos 0
    then (if positive passed && skipped == 0
        then "All " <> shown passed <> " test(s) passed"
        else if positive passed && positive skipped
        then shown passed <> " test(s) passed, " <> shown skipped <> " skipped"
        else if passed == 0 && positive skipped
        then "All " <> shown skipped <> " test(s) skipped"
        else "Test session passed")
    else if exit_code == pos 1
    then (let parts =
          (if positive failed then (shown failed <> " test(s) failed") ∷ [] else [])
          ++ (if positive errors then (shown errors <> " error(s)") ∷ [] else []) in
        if is_empty parts then "Test session failed" else join ", " parts)
    else "Pytest exited with non-zero exit code " <> shown_int exit_code

-- `xs[-10:]`
abbrev pub last_ten : List String → List String
last_ten xs = drop (length xs - 10) xs

abbrev pub summary_pattern : String
summary_pattern = "in\\s+[0-9]+(?:\\.[0-9]+)?\\s*s"

abbrev pub traceback_head : String
traceback_head = "Traceback (most recent call last):"

abbrev pub traceback_pattern : String
traceback_pattern = "(Traceback \\(most recent call last\\):[\\s\\S]*?)(?=\\n=+|\\Z)"

-- The first line, and the others.
abbrev pub without_header : List String → String → String
without_header [] chunk = chunk
without_header (l ∷ ls) chunk =
    let inner = strip (join "\n" ls) in
    if (has_text l "FAILURES" || has_text l "ERRORS") && not (is_blank inner) then inner else chunk

module _ (tools : OutcomeTools) where
  -- The last line that matches.
  unfoldable pub last_match : List String → Option String
  last_match [] = none
  last_match (l ∷ ls) = elim (last_match ls) [
    | some found ↦ some found
    | none ↦ if is_some (tools.search summary_pattern l) then some l else none
  ]

  -- `_find_summary_line`
  unfoldable pub find_summary_line : String → Option String
  unfolding last_match split_lines
  find_summary_line stdout = last_match (split_lines stdout)

  -- Steps D and E of `_extract_traceback`.
  unfoldable pub fallback_text : String → String → ℤ → Option String
  unfolding strip split_lines join
  fallback_text stdout stderr exit_code =
      if exit_code == pos 0
      then none
      else if not (is_blank (strip stderr))
      then some (strip stderr)
      else if not (is_blank (strip stdout))
      then some (strip (join "\n" (last_ten (split_lines (strip stdout)))))
      else none

  unfoldable pub short_summary : String → Option String
  unfolding strip has_text
  short_summary stdout =
      if has_text stdout "= short test summary info ="
      then elim (tools.search
          "=+\\s*short test summary info\\s*=+\\n([\\s\\S]*?)(?==+\\s*[\\d\\w\\s,]+ in [\\d\\.]+s\\s*=+|\\Z)"
          stdout) [
            | none ↦ none
            | some content ↦ if is_blank (strip content) then none else some (strip content)
          ]
      else none

  -- Steps B and C, on one of the two texts.
  unfoldable pub python_traceback : String → Option String
  unfolding strip has_text
  python_traceback text =
      if has_text text traceback_head
      then elim (tools.search traceback_pattern text) [
        | none ↦ none
        | some found ↦ some (strip found)
      ]
      else none

  unfoldable pub failures_block : String → Option String
  unfolding strip split_lines join has_text
  failures_block stdout =
      elim (tools.search
        "(=+\\s*(?:FAILURES|ERRORS)\\s*=+\\n[\\s\\S]*?)(?==+\\s*short test summary info\\s*=+|=+\\s*[\\d\\w\\s,]+ in [\\d\\.]+s\\s*=+|\\Z)"
        stdout) [
          | none ↦ none
          | some found ↦ some (without_header (split_lines (strip found)) (strip found))
        ]

  abbrev pub or_next : Option String → Option String → Option String
  or_next (some found) next = some found
  or_next none next = next

  -- `_extract_traceback`
  unfoldable pub extract_traceback : String → String → ℤ → Option String
  unfolding failures_block python_traceback short_summary fallback_text
  extract_traceback stdout stderr exit_code = or_next (failures_block stdout) (
      or_next (python_traceback stdout) (
        or_next (python_traceback stderr)
          (or_next (short_summary stdout) (fallback_text stdout stderr exit_code))))

  -- `re.search` in the summary line, if there is one.
  abbrev pub in_line : Option String → String → Option String
  in_line none pattern_text = none
  in_line (some line) pattern_text = if is_blank line then none else tools.search pattern_text line

  abbrev pub duration_of : Option String → Decimal
  duration_of none = 0
  duration_of (some text) = elim (tools.float text) [ none ↦ 0 | some d ↦ d ]

  -- The errors of the summary line, or else those of the collection.
  abbrev pub errors_of : ℕ → String → ℕ
  errors_of (suc n) stdout = suc n
  errors_of zero stdout =
      elim (tools.search "Interrupted:\\s+([0-9]+)\\s+errors?\\s+during\\s+collection" stdout) [
        | some digits ↦ int_from 0 digits
        | none ↦
            count_of (tools.search "collected\\s+0\\s+items\\s+/\\s+([0-9]+)\\s+errors?" stdout)
      ]

  unfoldable pub parse_test_outcomes : String → String → ℤ → TestRunSummary
  unfolding find_summary_line extract_traceback interpret_status_message has_text
  parse_test_outcomes stdout stderr exit_code =
      let low = tools.lower stderr in
      let timed_out = exit_code == pos 124 || has_text low "timed out" in
      let oom_killed = exit_code == pos 137 || has_text low "out of memory" in
      let line = find_summary_line stdout in
      let passed = count_of (in_line line "\\b([0-9]+)\\s+passed\\b") in
      let failed = count_of (in_line line "\\b([0-9]+)\\s+failed\\b") in
      let skipped = count_of (in_line line "\\b([0-9]+)\\s+skipped\\b") in
      let errors = errors_of (count_of (in_line line "\\b([0-9]+)\\s+errors?\\b")) stdout in
      record {
        exit_code = exit_code;
        passed = passed;
        failed = failed;
        errors = errors;
        skipped = skipped;
        duration_sec = duration_of (in_line line "in\\s+([0-9]+(?:\\.[0-9]+)?)\\s*s");
        timed_out = timed_out;
        oom_killed = oom_killed;
        traceback = extract_traceback stdout stderr exit_code;
        status_message =
            interpret_status_message exit_code passed failed errors skipped timed_out oom_killed;
      }
