-- ===== src/Execution/Staging/Paths.antt =====
-- execution/staging.py: the text of an artifact, and what is used of its paths.
use agentic_test_system.Prelude.{
  String, Bool, ◌&&◌, ◌||◌, not, List, [], ◌∷◌, ◌++◌, map, ◌<>◌, ◌==◌, nat_eq, string_eq, leb,
  strip, is_blank, is_empty, has_prefix, contains, filter, join, split_on, replace_char,
  if◌then◌else◌,
}
use Prim.Native.Char.{Char, code}
use agentic_test_system.Core.{
  FilePath, TestCandidate, ValidationStatus, pending, passed, rejected_syntax, rejected_security,
  rejected_collection, quarantined, status_eq, staging_path_error, Result, ok, err,
}
use agentic_test_system.Core.Paths.{is_absolute}
use agentic_test_system.Execution.Runner.{has_drive}

-- `[imp.strip() for imp in imports if imp.strip()]`
abbrev stripped_lines : List String → List String
stripped_lines xs = map strip (filter (λ x. not (is_blank (strip x))) xs)

abbrev sections_of : List String → String → List String
sections_of lines code =
    (if is_empty lines then [] else join "\n" lines ∷ [])
    ++ (if is_blank code then [] else code ∷ [])

unfoldable pub format_candidate_artifact : TestCandidate → String
unfolding strip join
format_candidate_artifact c =
    join "\n\n" (sections_of (stripped_lines c.imports) (strip c.candidate_code)) <> "\n"

-- `Path(s).parts` of a relative path.
unfoldable pub parts_of : String → List String
unfolding split_on
parts_of s = filter (λ part. not (is_blank part) && not (part == ".")) (split_on 0x2f s)

abbrev without_tests : List String → List String
without_tests [] = []
without_tests (p ∷ ps) = if p == "tests" then ps else p ∷ ps

-- `_normalize_relative_path`
unfoldable pub normalize_relative_path : FilePath → Result FilePath
unfolding replace_char has_drive is_absolute parts_of join
normalize_relative_path path =
    let path_str = replace_char 0x5c "/" path in
    let parts = without_tests (parts_of path_str) in
    if has_drive path || has_drive path_str
    then err (staging_path_error ("Drive-letter path rejected: " <> path))
    else if is_absolute path || is_absolute path_str
    then err (staging_path_error ("Absolute path rejected: " <> path))
    else if contains ".." (parts_of path_str)
    then err (staging_path_error ("Path traversal ('..') rejected: " <> path))
    else if is_empty parts
    then err (staging_path_error "Path must specify a test filename, not an empty path.")
    else ok (join "/" parts)

is_plain : Char → Bool
is_plain c =
    let n = code c in
    leb 0x61 n && leb n 0x7a
    || leb 0x41 n && leb n 0x5a
    || leb 0x30 n && leb n 0x39
    || n == 0x5f
    || n == 0x2d

-- `re.sub(r"[^a-zA-Z0-9_-]", "_", s)`
unfoldable pub sanitized : String → String
unfolding is_plain
sanitized String.[] = String.[]
sanitized (String.◌∷◌ c s) =
    let rest = sanitized s in if is_plain c then String.◌∷◌ c rest else String.◌∷◌ "_" rest

-- The texts in front of the slashes, the shortest first; the empty one is the root.
prefixes : String → List String
prefixes String.[] = []
prefixes (String.◌∷◌ c s) =
    let rest = map (λ t. String.◌∷◌ c t) (prefixes s) in
    if code c == 0x2f then String.[] ∷ rest else rest

reversed : List String → List String → List String
reversed [] done = done
reversed (x ∷ xs) done = reversed xs (x ∷ done)

-- A path and what is above it, up to the root.
unfoldable pub ancestors : FilePath → List FilePath
unfolding prefixes reversed
ancestors path = path ∷ reversed (prefixes path) []

abbrev first_or_root : List FilePath → FilePath
first_or_root [] = ""
first_or_root (x ∷ xs) = x

-- `path.parent`
unfoldable pub parent_of : FilePath → FilePath
unfolding prefixes reversed
parent_of path = first_or_root (reversed (prefixes path) [])

-- `path.is_relative_to(base)`
unfoldable pub is_relative_to : FilePath → FilePath → Bool
unfolding has_prefix
is_relative_to path base = path == base || has_prefix path (base <> "/")

-- `status.value`
abbrev pub status_value : ValidationStatus → String
status_value pending = "PENDING"
status_value passed = "PASSED"
status_value rejected_syntax = "REJECTED_SYNTAX"
status_value rejected_security = "REJECTED_SECURITY"
status_value rejected_collection = "REJECTED_COLLECTION"
status_value quarantined = "QUARANTINED"

-- `path.parents`
unfoldable pub parents_of : FilePath → List FilePath
unfolding prefixes reversed
parents_of path = map (λ p. if is_blank p then "/" else p) (reversed (prefixes path) [])
