-- ===== src/Generation/Budget.antt =====
-- The three tiers of the pruning of generation/context.py.
use agentic_test_system.Prelude.{
  ℕ, ◌≤◌, String, ◌≡◌, refl, ◌⊎◌, inl, inr, true, List, [], arith, leb, Bool-cases,
}
use agentic_test_system.Core.{SymbolContract, ok}
use agentic_test_system.Generation.Context.{
  GenerationContext, ContextTools, format_prompt, estimate_tokens, strip_docstrings, packaged,
  prune_and_package,
}

module _ {World : Type 0} (tools : ContextTools World) (budget : ℕ) (s : SymbolContract)
    (diff_content source_code : String) (dependencies test_samples : List String) where
  -- A package fits the budget, counts the tokens of the prompt that is made from it, and keeps the
  -- symbol, the diff and the source, of which at most the docstrings are gone.
  pub record IsFaithfulPackage (c : GenerationContext) : Type 0 where
    pub fits : c.token_count ≤ budget
    pub counted : c.token_count ≡ estimate_tokens tools (format_prompt c)
    pub same_symbol : c.target_symbol ≡ s
    pub same_diff : c.diff_content ≡ diff_content
    pub same_source :
        (c.source_code ≡ source_code) ⊎ (c.source_code ≡ strip_docstrings tools source_code)

  packaged-IsFaithful :
      (source : String) (ds ts : List String) (c : GenerationContext)
      → (source ≡ source_code) ⊎ (source ≡ strip_docstrings tools source_code)
      → leb (packaged tools s diff_content source ds ts).token_count budget ≡ true
      → packaged tools s diff_content source ds ts ≡ c
      → IsFaithfulPackage c
  unfolding packaged format_prompt
  packaged-IsFaithful source ds ts c kept fits e =
      let whole : IsFaithfulPackage (packaged tools s diff_content source ds ts) = record {
        fits = ground arith;
        counted = refl;
        same_symbol = refl;
        same_diff = refl;
        same_source = kept;
      } in
      rw e at whole

  -- A context that the pruning hands out fits the budget, its count is the estimate of the prompt
  -- that `format_prompt` makes of it, its symbol and its diff are those given, and its source is
  -- the one given or that one without its docstrings.
  pub prune_and_package-IsFaithful :
      (c : GenerationContext)
      → prune_and_package tools budget s diff_content source_code dependencies test_samples ≡ ok c
      → IsFaithfulPackage c
  unfolding prune_and_package
  prune_and_package-IsFaithful c e = elim (Bool-cases (leb (full).token_count budget)) [
    | inl fits ↦
        packaged-IsFaithful source_code dependencies test_samples c (inl refl) fits (ground arith)
    | inr over ↦ elim (Bool-cases (leb (tier1).token_count budget)) [
      | inl fits ↦ packaged-IsFaithful source_code [] [] c (inl refl) fits (ground arith)
      | inr over' ↦
          packaged-IsFaithful (strip_docstrings tools source_code) [] [] c (inr refl) (ground arith)
            (ground arith)
    ]
  ]
    where
      full : GenerationContext
      full = packaged tools s diff_content source_code dependencies test_samples

      tier1 : GenerationContext
      tier1 = packaged tools s diff_content source_code [] []
