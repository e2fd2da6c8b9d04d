-- ===== src/Planning/Planner.antt =====
-- planning/planner.py: the plan of a snapshot.
use agentic_test_system.Prelude.{
  shown, String, Bool, ◌&&◌, not, List, [], ◌∷◌, ◌++◌, ◌==◌, string_eq, ◌<>◌, map, is_empty,
  sort_by, text_leb, if◌then◌else◌,
}
use agentic_test_system.Core.Paths.{resolved}
use agentic_test_system.Core.{
  FilePath, Timestamp, SymbolContract, RepositorySnapshot, ExecutionPlan, route_value,
  WorkflowRoute, Action, pure, ◌>>=◌,
}
use agentic_test_system.Planning.Rules.{evaluate_precedence_rules}

-- What `StaticAssociation` of analysis/discovery.py tells the planner.
pub record Association : Type 0 where
  pub target_symbol : String
  -- classification == STATICALLY_ASSOCIATED
  pub is_static : Bool

-- The canonical payload of the decision hash, with its keys in their sorted order.
pub record HashPayload : Type 0 where
  pub existing_tests : List String
  pub rationale : String
  pub route : String
  pub source_tree_hash : String
  pub target_symbols : List String

unfoldable pub symbol_label : SymbolContract → String
unfolding shown
symbol_label s =
    s.qualified_name
    <> ":"
    <> s.file_path
    <> ":"
    <> shown s.line_range.0
    <> "-"
    <> shown s.line_range.1

-- A pair of a symbol and one of its test files.
abbrev pub Link : Type 0
Link = String × FilePath

unfoldable pub links_of : FilePath → List Association → List Link
links_of file [] = []
links_of file (a ∷ as') =
    let rest = links_of file as' in if a.is_static then (a.target_symbol, file) ∷ rest else rest

unfoldable pub files_of : List Link → String → List FilePath
files_of [] k = []
files_of (l ∷ ls) k = let rest = files_of ls k in if l.0 == k then l.1 ∷ rest else rest

-- `lower` is `str.lower`, and `digest` the SHA-256 of the JSON text of a payload.
module _ (lower : String → String) (digest : HashPayload → String) where
  unfoldable pub compute_decision_hash :
      String → WorkflowRoute → String → List SymbolContract → List FilePath → String
  unfolding symbol_label route_value
  compute_decision_hash tree_hash route rationale symbols tests = digest (record {
    existing_tests = sort_by text_leb tests;
    rationale = rationale;
    route = route_value route;
    source_tree_hash = lower tree_hash;
    target_symbols = map symbol_label symbols;
  })

  -- The plan of a snapshot and the links that were found.
  unfoldable pub plan_of : RepositorySnapshot → List Link → String → Timestamp → ExecutionPlan
  unfolding evaluate_precedence_rules files_of compute_decision_hash
  plan_of s links plan_id now =
      let d =
        evaluate_precedence_rules s.diff_hunks s.affected_symbols (map (λ l. l.0) links)
          (files_of links) s.deleted_symbols in
      record {
        plan_id = plan_id;
        route = d.route;
        target_symbols = d.target_symbols;
        existing_tests_to_run = d.existing_tests_to_run;
        rationale = d.rationale;
        decision_hash =
            compute_decision_hash s.source_tree_hash d.route d.rationale d.target_symbols
              d.existing_tests_to_run;
        created_at = now;
      }

module _ {World : Type 0}
    (analyze : FilePath → List SymbolContract → Action World (List Association)) where
  unfoldable pub collect_links :
      FilePath → List SymbolContract → List FilePath → Action World (List Link)
  unfolding links_of resolved
  collect_links base symbols [] = pure []
  collect_links base symbols (f ∷ fs) = do
    found ← analyze (resolved base f) symbols
    rest ← collect_links base symbols fs
    pure (links_of f found ++ rest)

  unfoldable pub snapshot_links : RepositorySnapshot → Action World (List Link)
  unfolding collect_links
  snapshot_links s =
      let symbols = s.affected_symbols ++ s.deleted_symbols in
      if not (is_empty symbols) && not (is_empty s.existing_test_files)
      then collect_links s.repo_path symbols s.existing_test_files
      else pure []

  -- `plan`, where `fresh` and `clock` give the identifier and the time of the plan.
  unfoldable pub plan :
      (String → String)
      → (HashPayload → String)
      → Action World String
      → Action World Timestamp
      → RepositorySnapshot
      → Action World ExecutionPlan
  unfolding snapshot_links plan_of
  plan lower digest fresh clock s = do
    links ← snapshot_links s
    k ← fresh
    t ← clock
    pure (plan_of lower digest s links k t)
