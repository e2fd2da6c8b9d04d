-- ===== src/Validation/Forbidden.antt =====
-- What a tree is free of that validation/security.py finds nothing in.
use agentic_test_system.Prelude.{
  ℕ, String, ◌≡◌, ◌≢◌, refl, sym, ap, ◌∙◌, ◌<>◌, shown, Bool, true, false, ◌&&◌, ◌||◌, not, Option,
  none, some, List, [], ◌∷◌, ◌++◌, contains, ◌==◌, string_eq, arith, Bool-cases, Option-cases, inl,
  inr, if◌then◌else◌,
}
use mathlib.Core.Option.{some-injective}
use agentic_test_system.Core.Syntax.{
  Alias, Node, Nodes, Keywords, import_node, import_from_node, name_node, attribute_node,
  text_constant, call_node, other_node, no_nodes, more_nodes, no_keywords, keyword,
}
use agentic_test_system.Validation.Security.{
  subprocess_execution_methods, is_subprocess_receiver, forbidden_modules, forbidden_builtins,
  forbidden_direct_execution, forbidden_write_methods, SecurityVisitor, no_violations, violated,
  subprocess_symbol, local_name, root_module, visit_alias, visit_import, subprocess_symbols_of,
  visit_import_from, is_write_mode, dynamic_message, check_mode, constant_text, second_argument,
  check_keywords, check_open_mode, check_call, visit, visit_nodes, visit_keywords,
}
use agentic_test_system.Validation.Allowed.{
  stated_mode, is_read_mode, states_no_writing, is_allowed_call, is_allowed_module,
  are_allowed_names, is_allowed_from, is_allowed, Throughout, ThroughoutNodes, ThroughoutKeywords,
}

-- The argument that a mode was read from.
abbrev read_back : Option String → Option Node
read_back none = none
read_back (some s) = some (text_constant s)

-- Nothing was found.
abbrev pub IsQuiet : SecurityVisitor → Type 0
IsQuiet v = v.violations ≡ []

append-not-empty : (xs : List String) (x : String) → (xs ++ x ∷ []) ≢ []
append-not-empty [] x = cc
append-not-empty (y ∷ ys) x = cc

violated-not-IsQuiet :
    {A : Type 0} (message : String) (v : SecurityVisitor) → IsQuiet (violated message v) → A
violated-not-IsQuiet message v h = absurd (append-not-empty v.violations message h)

visit_alias-IsQuiet :
    (line : ℕ) (a : Alias) (v : SecurityVisitor)
    → IsQuiet (visit_alias line a v)
    → IsQuiet v × (is_allowed_module a.name ≡ true)
unfolding visit_alias
visit_alias-IsQuiet line a v h =
    elim (Bool-cases (contains (root_module a.name) forbidden_modules)) [
      | inl q ↦ elim (Bool-cases (a.name == "subprocess")) [
        | inl r ↦ violated-not-IsQuiet _ v (rw (q, r) at h)
        | inr r ↦ violated-not-IsQuiet _ v (rw (q, r) at h)
      ]
      | inr q ↦ elim (Bool-cases (a.name == "subprocess")) [
        | inl r ↦ (rw (q, r) at h, rw q refl)
        | inr r ↦ (rw (q, r) at h, rw q refl)
      ]
    ]

visit_import-IsQuiet :
    (line : ℕ) (names : List Alias) (v : SecurityVisitor)
    → IsQuiet (visit_import line names v)
    → IsQuiet v × (are_allowed_names names ≡ true)
unfolding visit_import
visit_import-IsQuiet line [] v h = (h, refl)
visit_import-IsQuiet line (a ∷ names) v h =
    let (rest_quiet, rest_allowed) = visit_import-IsQuiet line names (visit_alias line a v) h in
    let (quiet, allowed) = visit_alias-IsQuiet line a v rest_quiet in
    (quiet, rw (allowed, rest_allowed) refl)

subprocess_symbols_of-violations :
    (names : List Alias) (v : SecurityVisitor)
    → (subprocess_symbols_of names v).violations ≡ v.violations
subprocess_symbols_of-violations [] v = refl
subprocess_symbols_of-violations (a ∷ names) v =
    subprocess_symbols_of-violations names (subprocess_symbol (local_name a) v)

ended_import-IsQuiet :
    (line : ℕ) (name : String) (names : List Alias) (v : SecurityVisitor)
    → IsQuiet (
        let v1 =
          if contains (root_module name) forbidden_modules
          then violated ("Forbidden from-import '" <> name <> "' at line " <> shown line) v
          else v in
        if root_module name == "subprocess" then subprocess_symbols_of names v1 else v1)
    → IsQuiet v × (is_allowed_module name ≡ true)
ended_import-IsQuiet line name names v h =
    elim (Bool-cases (contains (root_module name) forbidden_modules)) [
      | inl q ↦ elim (Bool-cases (root_module name == "subprocess")) [
        | inl r ↦
            violated-not-IsQuiet _ v
              (sym (subprocess_symbols_of-violations names _) ∙ (rw (q, r) at h))
        | inr r ↦ violated-not-IsQuiet _ v (rw (q, r) at h)
      ]
      | inr q ↦ elim (Bool-cases (root_module name == "subprocess")) [
        | inl r ↦ (sym (subprocess_symbols_of-violations names v) ∙ (rw (q, r) at h), rw q refl)
        | inr r ↦ (rw (q, r) at h, rw q refl)
      ]
    ]

visit_import_from-IsQuiet :
    (line : ℕ) (name : Option String) (names : List Alias) (v : SecurityVisitor)
    → IsQuiet (visit_import_from line name names v)
    → IsQuiet v × (is_allowed_from name ≡ true)
unfolding visit_import_from root_module
visit_import_from-IsQuiet line none names v h = (h, refl)
visit_import_from-IsQuiet line (some String.[]) names v h = (h, refl)
visit_import_from-IsQuiet line (some (String.◌∷◌ c s)) names v h =
    ended_import-IsQuiet line (String.◌∷◌ c s) names v h

check_mode-IsQuiet :
    (line : ℕ) (mode : Option String) (v : SecurityVisitor)
    → IsQuiet (check_mode line mode v)
    → IsQuiet v × (is_read_mode (read_back mode) ≡ true)
unfolding check_mode
check_mode-IsQuiet line none v h = (h, refl)
check_mode-IsQuiet line (some mode) v h = elim (Bool-cases (is_write_mode mode)) [
  | inl q ↦ violated-not-IsQuiet _ v (rw q at h)
  | inr q ↦ (rw q at h, rw q refl)
]

constant_text_lem : (n : Node) (s : String) → constant_text n ≡ some s → n ≡ text_constant s
constant_text_lem (text_constant t) s h = ap text_constant (some-injective t s h)
constant_text_lem (import_node names line) s h = absurd cc
constant_text_lem (import_from_node name names line) s h = absurd cc
constant_text_lem (name_node id) s h = absurd cc
constant_text_lem (attribute_node value attr) s h = absurd cc
constant_text_lem (call_node func args kws line) s h = absurd cc
constant_text_lem (other_node children) s h = absurd cc

check_keywords-IsQuiet :
    (line : ℕ) (mode : Option String) (kws : Keywords) (v : SecurityVisitor)
    → IsQuiet (check_keywords line mode kws v)
    → IsQuiet v × (is_read_mode (stated_mode (read_back mode) kws) ≡ true)
unfolding check_keywords
check_keywords-IsQuiet line mode no_keywords v h = check_mode-IsQuiet line mode v h
check_keywords-IsQuiet line mode (keyword arg value rest) v h =
    elim (Option-cases (constant_text value)) [
      | inl r ↦ ground (
        arith,
        check_keywords-IsQuiet line mode rest v,
        append-not-empty v.violations (dynamic_message line),
      )
      | inr (s, r) ↦
          let same = constant_text_lem value s r in
          ground (
            arith,
            check_keywords-IsQuiet line mode rest v,
            check_keywords-IsQuiet line (some s) rest v,
            same,
          )
    ]

check_open_mode-IsQuiet :
    (args : Nodes) (kws : Keywords) (line : ℕ) (v : SecurityVisitor)
    → IsQuiet (check_open_mode args kws line v)
    → IsQuiet v × (states_no_writing args kws ≡ true)
unfolding check_open_mode
check_open_mode-IsQuiet args kws line v h = elim (Option-cases (second_argument args)) [
  | inl q ↦ rw q (check_keywords-IsQuiet line none kws v (rw (q, check_open_mode) at h))
  | inr (arg, q) ↦ elim (Option-cases (constant_text arg)) [
    | inl r ↦ violated-not-IsQuiet _ v (rw (q, r, check_open_mode) at h)
    | inr (s, r) ↦
        rw (q, constant_text_lem arg s r)
          (check_keywords-IsQuiet line (some s) kws v (rw (q, r, check_open_mode) at h))
  ]
]

-- A method call is a call through `subprocess` whatever other names stand for it.
is_subprocess_receiver-more :
    (symbols : List String) (n : Node)
    → is_subprocess_receiver symbols n ≡ false
    → is_subprocess_receiver [] n ≡ false
unfolding is_subprocess_receiver
is_subprocess_receiver-more symbols (name_node id) h = ground arith
is_subprocess_receiver-more symbols (attribute_node value attr) h =
    ground (arith, is_subprocess_receiver-more symbols value)
is_subprocess_receiver-more symbols (text_constant s) h = refl
is_subprocess_receiver-more symbols (import_node names line) h = refl
is_subprocess_receiver-more symbols (import_from_node name names line) h = refl
is_subprocess_receiver-more symbols (call_node func args kws line) h = refl
is_subprocess_receiver-more symbols (other_node children) h = refl

guard-IsQuiet :
    (b : Bool) (message : String) (v rest : SecurityVisitor)
    → IsQuiet (if b then violated message v else rest)
    → (b ≡ false) × IsQuiet rest
guard-IsQuiet true message v rest h = violated-not-IsQuiet message v h
guard-IsQuiet false message v rest h = (refl, h)

open-IsQuiet :
    (is_open : Bool) (args : Nodes) (kws : Keywords) (line : ℕ) (v : SecurityVisitor)
    → IsQuiet (if is_open then check_open_mode args kws line v else v)
    → IsQuiet v × ((not is_open || states_no_writing args kws) ≡ true)
open-IsQuiet true args kws line v h = check_open_mode-IsQuiet args kws line v h
open-IsQuiet false args kws line v h = (h, refl)

cleared : (a b c : Bool) → a ≡ false → b ≡ false → c ≡ true → (not a && not b && c) ≡ true
cleared a b c ha hb hc = rw (ha, hb, hc) refl

cleared_method :
    (a b c d e : Bool)
    → a ≡ false
    → b ≡ false
    → c ≡ false
    → d ≡ false
    → e ≡ true
    → (not a && not b && not c && not d && e) ≡ true
cleared_method a b c d e ha hb hc hd he = rw (ha, hb, hc, hd, he) refl

through_subprocess :
    (is_method : Bool) (symbols : List String) (n : Node)
    → (is_method && is_subprocess_receiver symbols n) ≡ false
    → (is_method && is_subprocess_receiver [] n) ≡ false
through_subprocess true symbols n h = is_subprocess_receiver-more symbols n h
through_subprocess false symbols n h = refl

check_call-IsQuiet :
    (func : Node) (args : Nodes) (kws : Keywords) (line : ℕ) (v : SecurityVisitor)
    → IsQuiet (check_call func args kws line v)
    → IsQuiet v × (is_allowed_call func args kws ≡ true)
unfolding check_call
check_call-IsQuiet (name_node f) args kws line v h =
    let (b1, h1) = guard-IsQuiet (contains f forbidden_builtins) _ v _ h in
    let (b2, h2) = guard-IsQuiet (contains f forbidden_direct_execution) _ v _ h1 in
    let (b3, h3) = guard-IsQuiet (contains f v.subprocess_symbols) _ v _ h2 in
    let (quiet, read_only) = open-IsQuiet (f == "open") args kws line v h3 in
    (quiet, cleared _ _ _ b1 b2 read_only)
check_call-IsQuiet (attribute_node value f) args kws line v h =
    let (b1, h1) = guard-IsQuiet (contains f forbidden_write_methods) _ v _ h in
    let (b2, h2) = guard-IsQuiet (contains f forbidden_direct_execution) _ v _ h1 in
    let (b3, h3) =
      guard-IsQuiet
        (contains f subprocess_execution_methods
          && is_subprocess_receiver v.subprocess_symbols value)
        _ v _ h2 in
    let (b4, h4) = guard-IsQuiet (contains f forbidden_builtins) _ v _ h3 in
    let (quiet, read_only) = open-IsQuiet (f == "open") args kws line v h4 in
    (
      quiet,
      cleared_method _ _ _ _ _ b4 b2 b1
          (through_subprocess (contains f subprocess_execution_methods) v.subprocess_symbols value
            b3)
          read_only,
    )
check_call-IsQuiet (text_constant s) args kws line v h = (h, refl)
check_call-IsQuiet (import_node names n) args kws line v h = (h, refl)
check_call-IsQuiet (import_from_node name names n) args kws line v h = (h, refl)
check_call-IsQuiet (call_node g args' kws' n) args kws line v h = (h, refl)
check_call-IsQuiet (other_node children) args kws line v h = (h, refl)

mutual
  unfolding visit Throughout

  visit-IsQuiet :
      (n : Node) (v : SecurityVisitor) → IsQuiet (visit n v) → IsQuiet v × Throughout is_allowed n
  visit-IsQuiet (import_node names line) v h = visit_import-IsQuiet line names v h
  visit-IsQuiet (import_from_node name names line) v h =
      visit_import_from-IsQuiet line name names v h
  visit-IsQuiet (name_node id) v h = (h, refl)
  visit-IsQuiet (attribute_node value attr) v h =
      let (quiet, below) = visit-IsQuiet value v h in (quiet, (refl, below))
  visit-IsQuiet (text_constant s) v h = (h, refl)
  visit-IsQuiet (call_node func args kws line) v h =
      let v1 = check_call func args kws line v in
      let (quiet3, in_kws) = visit_keywords-IsQuiet kws (visit_nodes args (visit func v1)) h in
      let (quiet2, in_args) = visit_nodes-IsQuiet args (visit func v1) quiet3 in
      let (quiet1, in_func) = visit-IsQuiet func v1 quiet2 in
      let (quiet, allowed) = check_call-IsQuiet func args kws line v quiet1 in
      (quiet, (allowed, in_func, in_args, in_kws))
  visit-IsQuiet (other_node children) v h =
      let (quiet, below) = visit_nodes-IsQuiet children v h in (quiet, (refl, below))

  visit_nodes-IsQuiet :
      (ns : Nodes) (v : SecurityVisitor)
      → IsQuiet (visit_nodes ns v)
      → IsQuiet v × ThroughoutNodes is_allowed ns
  visit_nodes-IsQuiet no_nodes v h = (h, tt)
  visit_nodes-IsQuiet (more_nodes n ns) v h =
      let (quiet1, in_rest) = visit_nodes-IsQuiet ns (visit n v) h in
      let (quiet, in_first) = visit-IsQuiet n v quiet1 in (quiet, (in_first, in_rest))

  visit_keywords-IsQuiet :
      (ks : Keywords) (v : SecurityVisitor)
      → IsQuiet (visit_keywords ks v)
      → IsQuiet v × ThroughoutKeywords is_allowed ks
  visit_keywords-IsQuiet no_keywords v h = (h, tt)
  visit_keywords-IsQuiet (keyword arg value rest) v h =
      let (quiet1, in_rest) = visit_keywords-IsQuiet rest (visit value v) h in
      let (quiet, in_first) = visit-IsQuiet value v quiet1 in (quiet, (in_first, in_rest))

-- A tree in which the visitor finds nothing is free of forbidden imports and calls at every depth.
pub visit-allowed : (n : Node) → IsQuiet (visit n no_violations) → Throughout is_allowed n
visit-allowed n h = (visit-IsQuiet n no_violations h).1
