-- ===== src/Planning/Precedence.antt =====
-- The decision of planning/rules.py against its inputs.
use agentic_test_system.Prelude.{
  String, ◌≡◌, ◌↔◌, refl, Bool, true, false, ◌||◌, ◌&&◌, not, List, [], ◌∷◌, ◌++◌, arith, ◌==◌,
  string_eq, contains, any, any-append, any-sort_by, filter, is_empty, sort_by-perm,
  sort_by-IsSorted, IsSorted, IsOrder, then_by-IsOrder, text_leb, text_leb_total, text_leb_trans,
  leb, Bool-cases, inl, inr,
}
use mathlib.Core.List.{Perm}
use text.Mathlib.TextEquality.{eq_iff}
use agentic_test_system.Core.{FilePath, DiffHunk, SymbolContract, route_to_test_generation}
use agentic_test_system.Planning.Rules.{
  are_all_hunks_non_code, type_priority, symbol_order, order_symbols_structurally, RoutingDecision,
  distinct, gather, tests_of, surviving_covered, deleted_covered, decide_deleted, decide_surviving,
  evaluate_precedence_rules,
}

module _ (hunks : List DiffHunk) (affected : List SymbolContract) (associated : List String)
    (files : String → List FilePath) (deleted : List SymbolContract) where
  abbrev decision : RoutingDecision
  decision = evaluate_precedence_rules hunks affected associated files deleted

  -- A hunk touches code, and a surviving affected symbol has no test.
  abbrev pub needs_generation : Bool
  needs_generation =
      not (is_empty hunks)
      && not (are_all_hunks_non_code hunks)
      && any (λ s. not (contains s.qualified_name associated)) affected

  is_empty-filter :
      (q : SymbolContract → Bool) (ss : List SymbolContract)
      → is_empty (filter q ss) ≡ not (any q ss)
  is_empty-filter q [] = refl
  is_empty-filter q (s ∷ ss) = ground (arith, is_empty-filter q ss)

  -- The decision asks for new tests exactly where there are hunks, not all of them touch no code, and
  -- some affected symbol is not among those associated with a test.
  pub generates_iff : (decision.route ≡ route_to_test_generation) ↔ (needs_generation ≡ true)
  unfolding evaluate_precedence_rules decide_deleted decide_surviving
  generates_iff =
      ground (arith, is_empty-filter (λ s. not (contains s.qualified_name associated)) affected)

  -- There are hunks, and not all of them touch no code: the rules get past P1 and P2.
  abbrev pub touches_code : Bool
  touches_code = not (is_empty hunks) && not (are_all_hunks_non_code hunks)

any-contains-distinct : (t : String) (xs : List String) → contains t (distinct xs) ≡ contains t xs
unfolding distinct
any-contains-distinct t [] = refl
any-contains-distinct t (x ∷ xs) = elim (Bool-cases (contains x (distinct xs))) [
  | inl e ↦ ground (arith, any-contains-distinct t xs, any-contains-distinct x xs, eq_iff x t)
  | inr e ↦ ground (arith, any-contains-distinct t xs)
]

contains-gather :
    (t : String) (files : String → List FilePath) (ss : List SymbolContract)
    → contains t (gather files ss) ≡ any (λ s. contains t (files s.qualified_name)) ss
unfolding gather
contains-gather t files [] = refl
contains-gather t files (s ∷ ss) = ground (
  arith,
  any-append (λ x. x == t) (files s.qualified_name) (gather files ss),
  contains-gather t files ss,
)

-- A file is among the tests of some symbols exactly if it is a test of one of them.
contains-tests_of :
    (t : String) (files : String → List FilePath) (ss : List SymbolContract)
    → contains t (tests_of files ss) ≡ any (λ s. contains t (files s.qualified_name)) ss
unfolding tests_of
contains-tests_of t files ss =
    rw
      (
        any-sort_by text_leb (λ x. x == t) (distinct (gather files ss)),
        any-contains-distinct t (gather files ss),
      )
      (contains-gather t files ss)

any-filter :
    (q r : SymbolContract → Bool) (ss : List SymbolContract)
    → any r (filter q ss) ≡ any (λ s. q s && r s) ss
any-filter q r [] = refl
any-filter q r (s ∷ ss) = ground (arith, any-filter q r ss)

symbol_order-IsOrder : IsOrder symbol_order
symbol_order-IsOrder =
    then_by-IsOrder (λ a b. leb (type_priority a.symbol_type) (type_priority b.symbol_type)) _
      (record { total = λ x y h. ground arith; trans = λ x y z h h'. ground arith })
      (then_by-IsOrder (λ a b. text_leb a.file_path b.file_path) _
        (record {
          total = λ x y h. text_leb_total x.file_path y.file_path h;
          trans = λ x y z h h'. text_leb_trans x.file_path y.file_path z.file_path h h';
        })
        (then_by-IsOrder (λ a b. leb a.line_range.0 b.line_range.0) _
          (record { total = λ x y h. ground arith; trans = λ x y z h h'. ground arith })
          (record {
            total = λ x y h. text_leb_total x.qualified_name y.qualified_name h;
            trans = λ x y z h h'.
                text_leb_trans x.qualified_name y.qualified_name z.qualified_name h h';
          })))

-- The structural order neither loses nor repeats a symbol, and it puts every symbol before those
-- that its key puts behind it.
pub order_symbols_structurally-IsSorted :
    (ss : List SymbolContract)
    → Perm (order_symbols_structurally ss) ss
      × IsSorted symbol_order (order_symbols_structurally ss)
unfolding order_symbols_structurally
order_symbols_structurally-IsSorted ss =
    (sort_by-perm symbol_order ss, sort_by-IsSorted symbol_order symbol_order-IsOrder ss)

module _ (hunks : List DiffHunk) (affected : List SymbolContract) (associated : List String)
    (files : String → List FilePath) (deleted : List SymbolContract) where
  -- A test file of an associated symbol.
  abbrev pub is_regression_test : String → SymbolContract → Bool
  is_regression_test t s =
      contains s.qualified_name associated && contains t (files s.qualified_name)

  run_for :
      (t : String) (ss : List SymbolContract)
      → contains t (tests_of files (filter (λ s. contains s.qualified_name associated) ss))
        ≡ any (is_regression_test t) ss
  run_for t ss =
      rw (contains-tests_of t files (filter (λ s. contains s.qualified_name associated) ss))
        (any-filter (λ s. contains s.qualified_name associated) _ ss)

  run_for_both :
      (t : String)
      → contains t (
          tests_of files (
            surviving_covered hunks affected associated files deleted
            ++ deleted_covered hunks affected associated files deleted))
        ≡ (any (is_regression_test t) affected || any (is_regression_test t) deleted)
  run_for_both t =
      rw
        (
          contains-tests_of t files _,
          any-append {A = SymbolContract} (λ s. contains t (files s.qualified_name)) _ _,
          any-filter (λ s. contains s.qualified_name associated)
              (λ s. contains t (files s.qualified_name)) affected,
          any-filter (λ s. contains s.qualified_name associated)
              (λ s. contains t (files s.qualified_name)) deleted,
        )
        refl

  any_none :
      (r q : SymbolContract → Bool) (ss : List SymbolContract)
      → any q ss ≡ false
      → any (λ s. q s && r s) ss ≡ false
  any_none r q [] h = refl
  any_none r q (s ∷ ss) h = ground (arith, any_none r q ss)

  -- A file is among the tests to run exactly if there are hunks, not all of them touch no code, and
  -- an associated symbol, affected or deleted, has the file among its tests.
  pub runs_regression_tests :
      (t : String)
      → contains t
          (evaluate_precedence_rules hunks affected associated files deleted).existing_tests_to_run
        ≡ (touches_code hunks affected associated files deleted
            && (any (is_regression_test t) affected || any (is_regression_test t) deleted))
  unfolding evaluate_precedence_rules decide_deleted decide_surviving
  runs_regression_tests t = ground (
    arith,
    run_for_both t,
    run_for t deleted,
    is_empty-filter hunks affected associated files deleted
        (λ s. contains s.qualified_name associated) deleted,
    any_none (λ s. contains t (files s.qualified_name)) (λ s. contains s.qualified_name associated)
        deleted,
  )
