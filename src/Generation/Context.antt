-- ===== src/Generation/Context.antt =====
-- generation/context.py: the context of a symbol, pruned to a budget of tokens, and its prompt.
use agentic_test_system.Prelude.{
  shown, ℕ, ◌-◌, ◌/◌, max, String, ◌||◌, Option, none, some, List, [], ◌∷◌, ◌++◌, map, filter, ◌==◌,
  string_eq, ◌<>◌, is_blank, leb, join, char_count, take, drop, if◌then◌else◌,
}
use agentic_test_system.Core.{
  FilePath, DiffHunk, SymbolType, function, method, class, module_symbol, SymbolContract,
  context_budget_error, Exn, Result, ok, err, Action, pure, lift, ◌>>=◌,
}
use agentic_test_system.Core.Paths.{name_of, resolved}

abbrev pub default_max_token_budget : ℕ
default_max_token_budget = 4000

-- SECRET_PATTERNS, the texts of the regular expressions.
abbrev pub secret_patterns : List String
secret_patterns =
    "sk-[a-zA-Z0-9_\\-]{20,}" ∷ "ghp_[a-zA-Z0-9]{36,}" ∷ "(?i)bearer\\s+[a-zA-Z0-9_\\-\\.]{20,}"
    ∷ "(?i)(api[_-]?key|secret|password|access[_-]?token|auth[_-]?token)\\s*[:=]\\s*['\"][^'\"]{8,}['\"]"
    ∷ []

pub record GenerationContext : Type 0 where
  pub target_symbol : SymbolContract
  pub diff_content : String
  pub source_code : String
  pub dependencies : List String
  pub existing_test_samples : List String
  pub token_count : ℕ

-- `SymbolType.value`.
abbrev pub symbol_type_value : SymbolType → String
symbol_type_value function = "FUNCTION"
symbol_type_value method = "METHOD"
symbol_type_value class = "CLASS"
symbol_type_value module_symbol = "MODULE"

-- `if dependencies: …` and `if test_samples: …`
dependency_part : List String → List String
dependency_part [] = []
dependency_part (d ∷ ds) = ("Dependencies:\n" <> join "\n" (map (λ x. "- " <> x) (d ∷ ds))) ∷ []

sample_part : List String → List String
sample_part [] = []
sample_part (s ∷ ss) = ("Existing Test Samples:\n" <> join "\n---\n" (s ∷ ss)) ∷ []

unfoldable pub build_prompt_text :
    SymbolContract → String → String → List String → List String → String
unfolding dependency_part sample_part
build_prompt_text s diff_content source_code dependencies test_samples = join "\n\n" (
    ("Target Symbol: " <> s.qualified_name <> " (" <> symbol_type_value s.symbol_type <> ")")
    ∷ ("Signature: " <> s.signature)
    ∷ ("Source File: " <> s.file_path)
    ∷ ("Source Code:\n" <> source_code)
    ∷ ("Unified Diff:\n" <> diff_content)
    ∷ (dependency_part dependencies ++ sample_part test_samples))

unfoldable pub format_prompt : GenerationContext → String
unfolding build_prompt_text
format_prompt c =
    build_prompt_text c.target_symbol c.diff_content c.source_code c.dependencies
      c.existing_test_samples

unfoldable pub format_diff_content : SymbolContract → List DiffHunk → String
format_diff_content s hunks =
    contents
      (filter (λ h. h.file_path == s.file_path || name_of h.file_path == name_of s.file_path) hunks)
  where
    contents : List DiffHunk → String
    contents [] = "No diff hunks recorded."
    contents (h ∷ hs) = join "\n" (map (λ x. x.content) (h ∷ hs))

docstring_line : Option String → String
docstring_line none = ""
docstring_line (some d) = if is_blank d then "" else "    \"\"\"" <> d <> "\"\"\"\n"

-- What stands for a symbol whose file cannot be read.
unfoldable pub fallback_source : SymbolContract → String
unfolding docstring_line
fallback_source s = s.signature <> ":\n" <> docstring_line s.docstring <> "    ..."

-- `lines[max(0, start - 1) : end]` of the lines of the file, joined.
unfoldable pub source_of_lines : SymbolContract → Option (List String) → String
unfolding fallback_source
source_of_lines s none = fallback_source s
source_of_lines s (some lines) = join "\n" (drop (s.line_range.0 - 1) (take s.line_range.1 lines))

-- The path that the source of a symbol is read from.
unfoldable pub source_path : SymbolContract → Option FilePath → FilePath
source_path s none = s.file_path
source_path s (some root) = resolved root s.file_path

-- The complaint that the minimal core needs more tokens than there are.
unfoldable pub budget_exceeded : ℕ → ℕ → Exn
budget_exceeded total_tokens budget = context_budget_error (
    "Context budget exceeded: minimal core requires "
    <> shown total_tokens
    <> " tokens, exceeding ceiling of "
    <> shown budget
    <> ".")

-- What the assembler takes from outside: `re.sub`, the estimate of the model service, where one is
-- given, and the lines of a file, which are none where it is absent or cannot be read.
pub record ContextTools (World : Type 0) : Type 0 where
  -- pattern, replacement, text
  pub re_sub : String → String → String → String
  pub llm_estimate : Option (String → ℕ)
  pub read_lines : FilePath → Action World (Option (List String))

module _ {World : Type 0} (tools : ContextTools World) where
  estimate_by : Option (String → ℕ) → String → ℕ
  estimate_by none text = max 1 (char_count text / 4)
  estimate_by (some estimate) text = estimate text

  unfoldable pub estimate_tokens : String → ℕ
  unfolding estimate_by
  estimate_tokens text = estimate_by tools.llm_estimate text

  redact : List String → String → String
  redact [] text = text
  redact (p ∷ ps) text = redact ps (tools.re_sub p "[REDACTED_SECRET]" text)

  unfoldable pub mask_secrets : String → String
  unfolding redact
  mask_secrets text = redact secret_patterns text

  unfoldable pub strip_docstrings : String → String
  strip_docstrings code =
      tools.re_sub "'''[\\s\\S]*?'''" "'''[Docstring pruned]'''"
        (tools.re_sub "\"\"\"[\\s\\S]*?\"\"\"" "\"\"\"[Docstring pruned]\"\"\"" code)

  unfoldable pub extract_symbol_source : SymbolContract → Option FilePath → Action World String
  extract_symbol_source s root = do
    lines ← tools.read_lines (source_path s root)
    pure (source_of_lines s lines)

  -- The package of a prompt, with the count of its tokens.
  unfoldable pub packaged :
      SymbolContract → String → String → List String → List String → GenerationContext
  unfolding estimate_tokens
  packaged s diff_content source_code dependencies test_samples = record {
    target_symbol = s;
    diff_content = diff_content;
    source_code = source_code;
    dependencies = dependencies;
    existing_test_samples = test_samples;
    token_count =
        estimate_tokens (build_prompt_text s diff_content source_code dependencies test_samples);
  }

  unfoldable pub prune_and_package :
      ℕ → SymbolContract → String → String → List String → List String → Result GenerationContext
  unfolding packaged strip_docstrings
  prune_and_package budget s diff_content source_code dependencies test_samples =
      let full = packaged s diff_content source_code dependencies test_samples in
      let tier1 = packaged s diff_content source_code [] [] in
      let tier2 = packaged s diff_content (strip_docstrings source_code) [] [] in
      if leb full.token_count budget
      then ok full
      else if leb tier1.token_count budget
      then ok tier1
      else if leb tier2.token_count budget
      then ok tier2
      else err (budget_exceeded tier2.token_count budget)

  -- The source given, or what is read.
  unfoldable pub raw_source : Option String → SymbolContract → Option FilePath → Action World String
  unfolding extract_symbol_source
  raw_source (some text) s root = pure text
  raw_source none s root = extract_symbol_source s root

  unfoldable pub assemble :
      ℕ
      → SymbolContract
      → Option FilePath
      → List DiffHunk
      → List String
      → Option String
      → Action World GenerationContext
  unfolding raw_source prune_and_package mask_secrets format_diff_content
  assemble budget s root hunks samples source_override = do
    source ← raw_source source_override s root
    lift (
        prune_and_package budget s (mask_secrets (format_diff_content s hunks))
          (mask_secrets source) (map mask_secrets s.dependencies) (map mask_secrets samples))
