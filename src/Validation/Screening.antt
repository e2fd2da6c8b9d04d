-- ===== src/Validation/Screening.antt =====
-- The default pipeline of validation/pipeline.py: the syntax and the security gate, and the
-- collection gate behind them.
use agentic_test_system.Prelude.{◌<>◌, String, ◌≡◌, refl, ap, ◌∙◌, true, some, List, [], ◌∷◌}
use mathlib.Core.Path.{subst}
use agentic_test_system.Core.{
  Timestamp, TestCandidate, passed, Result, ok, err, Action, pure, continue,
}
use agentic_test_system.Core.Syntax.{Node, Parsed, tree, no_syntax, no_parse}
use agentic_test_system.Workflow.Services.{ValidationResult}
use agentic_test_system.Validation.Pipeline.{Gate, Screened, validate_candidate}
use agentic_test_system.Validation.Gates.{IsSound, PassedAll, asked, accepted-PassedAll}
use agentic_test_system.Validation.Security.{
  no_violations, visit, build_source, security_result, of_violations, of_parsed, security_gate,
}
use agentic_test_system.Validation.Syntax.{syntax_verdict, syntax_gate}
use agentic_test_system.Validation.Collection.{CollectionTools, CollectionConfig, collection_gate}
use agentic_test_system.Validation.Collected.{
  IsFair, WasCollected, collection_gate-IsSound, collection_gate-collected,
}
use agentic_test_system.Validation.Allowed.{is_allowed, Throughout}
use agentic_test_system.Validation.Forbidden.{visit-allowed}

syntax_verdict-IsFair :
    (c : TestCandidate) (p : Parsed) (t : Timestamp) → IsFair (syntax_verdict c p t)
unfolding syntax_verdict
syntax_verdict-IsFair c (tree n) t h = absurd cc
syntax_verdict-IsFair c (no_syntax e) t h = cc
syntax_verdict-IsFair c (no_parse e) t h = cc

of_violations-IsFair :
    (c : TestCandidate) (xs : List String) (t : Timestamp) → IsFair (of_violations c xs t)
of_violations-IsFair c [] t h = absurd cc
of_violations-IsFair c (x ∷ xs) t h = cc

of_violations-IsQuiet :
    (c : TestCandidate) (xs : List String) (t : Timestamp)
    → (of_violations c xs t).passed ≡ true
    → xs ≡ []
of_violations-IsQuiet c [] t h = refl
of_violations-IsQuiet c (x ∷ xs) t h = absurd cc

module _ {World : Type 0} (ast_parse : String → Parsed) (clock : Action World Timestamp) where
  -- What a gate answers, from the time that it reads.
  answered :
      (f : Timestamp → ValidationResult) (x : Result Timestamp × World) (r : ValidationResult)
      (w' : World)
      → continue {S = World} (λ t. pure (f t)) x.0 x.1 ≡ (ok r, w')
      → (t : Timestamp) × (f t ≡ r)
  answered f (ok t, w1) r w' h = (t, cc)
  answered f (err e, w1) r w' h = absurd cc

  pub syntax_gate-IsSound : IsSound (syntax_gate ast_parse clock)
  unfolding syntax_gate
  syntax_gate-IsSound = record {
    rejects = λ c w w' r h.
        let p = ast_parse (build_source c) in
        let (t, q) = answered (syntax_verdict c p) (clock w) r w' h in
        subst (λ (x : ValidationResult). IsFair x) q (syntax_verdict-IsFair c p t);
  }

  of_parsed-IsFair :
      (c : TestCandidate) (p : Parsed) (w w' : World) (r : ValidationResult)
      → of_parsed ast_parse clock c p w ≡ (ok r, w')
      → IsFair r
  of_parsed-IsFair c (tree n) w w' r h =
      let found = (visit n no_violations).violations in
      let (t, q) = answered (of_violations c found) (clock w) r w' h in
      subst (λ (x : ValidationResult). IsFair x) q (of_violations-IsFair c found t)
  of_parsed-IsFair c (no_syntax e) w w' r h =
      let message = "Cannot perform security analysis due to syntax error: " <> e.message in
      let verdict = security_result c (e.message ∷ []) (some message) in
      let (t, q) = answered verdict (clock w) r w' h in
      let fair : IsFair (verdict t) = λ h'. cc in subst (λ (x : ValidationResult). IsFair x) q fair
  of_parsed-IsFair c (no_parse e) w w' r h = absurd cc

  pub security_gate-IsSound : IsSound (security_gate ast_parse clock)
  unfolding security_gate
  security_gate-IsSound = record {
    rejects = λ c w w' r h. of_parsed-IsFair c (ast_parse (build_source c)) w w' r h;
  }

  of_parsed-tree :
      (c : TestCandidate) (p : Parsed) (w w' : World) (r : ValidationResult)
      → of_parsed ast_parse clock c p w ≡ (ok r, w')
      → r.passed ≡ true
      → (n : Node) × (p ≡ tree n) × Throughout is_allowed n
  of_parsed-tree c (tree n) w w' r h a =
      let found = (visit n no_violations).violations in
      let (t, q) = answered (of_violations c found) (clock w) r w' h in
      (
        n,
        refl,
        visit-allowed n
            (of_violations-IsQuiet c found t (ap (λ (x : ValidationResult). x.passed) q ∙ a)),
      )
  of_parsed-tree c (no_syntax e) w w' r h a =
      let message = "Cannot perform security analysis due to syntax error: " <> e.message in
      let (t, q) = answered (security_result c (e.message ∷ []) (some message)) (clock w) r w' h in
      absurd cc
  of_parsed-tree c (no_parse e) w w' r h a = absurd cc

  passed-tree :
      (c : TestCandidate) (gates : List (Gate World)) (w : World)
      → PassedAll c (syntax_gate ast_parse clock ∷ security_gate ast_parse clock ∷ gates) w
      → (n : Node) × (ast_parse (build_source c) ≡ tree n) × Throughout is_allowed n
  unfolding security_gate
  passed-tree c gates w (asked _ _ _ w' r h a (asked _ _ _ w'' r' h' a' rest)) =
      of_parsed-tree c (ast_parse (build_source c)) w' w'' r' h' a'

  passed-collected :
      (tools : CollectionTools World) (config : CollectionConfig) (c : TestCandidate)
      (g h : Gate World) (w : World)
      → PassedAll c (g ∷ h ∷ collection_gate tools config ∷ []) w
      → WasCollected tools config c
  passed-collected tools config c g h w
        (asked _ _ _ w1 _ _ _ (asked _ _ _ w2 _ _ _ (asked _ _ _ w3 r q a rest))) =
      collection_gate-collected tools config c w2 w3 r q a

  -- A candidate that the default pipeline, with the collection gate, answers with the status PASSED
  -- parses, and its syntax tree is free, at every depth, of imports of the forbidden modules, of
  -- calls whose name is on the lists of functions that evaluate or execute or, as a method's, on the
  -- list of those that write, and of an `open` whose keyword `mode`, or else its second positional
  -- argument, is no text or asks for writing (a mode that a method `open` has as its first argument,
  -- as in `path.open("w")`, is not ruled out); and it was collected in a container whose command exited with 0, in time and in its memory, and named at
  -- least one test.
  pub accepted-collected :
      (tools : CollectionTools World) (config : CollectionConfig) (c : TestCandidate) (w w' : World)
      (s : Screened)
      → validate_candidate clock
          (syntax_gate ast_parse clock ∷ security_gate ast_parse clock ∷ [])
          (some (collection_gate tools config))
          c
          w
        ≡ (ok s, w')
      → s.0.validation_status ≡ passed
      → (n : Node) × (ast_parse (build_source c) ≡ tree n)
        × Throughout is_allowed n
        × WasCollected tools config c
  accepted-collected tools config c w w' s h a =
      let all =
        accepted-PassedAll clock (syntax_gate ast_parse clock ∷ security_gate ast_parse clock ∷ [])
          (some (collection_gate tools config)) c w w' s
          (syntax_gate-IsSound, (security_gate-IsSound, (collection_gate-IsSound tools config, tt)))
          h a in
      let (n, parsed, allowed) = passed-tree c (collection_gate tools config ∷ []) w all in
      (n, parsed, allowed, passed-collected tools config c _ _ w all)
