-- ===== src/Validation/Allowed.antt =====
-- What a syntax tree may hold, told without validation/security.py's visitor.
use agentic_test_system.Prelude.{
  String, ◌≡◌, Bool, true, false, ◌&&◌, ◌||◌, not, Option, none, some, List, [], ◌∷◌, contains,
  ◌==◌, string_eq, if◌then◌else◌,
}
use agentic_test_system.Core.Syntax.{
  Alias, Node, Nodes, Keywords, import_node, import_from_node, name_node, attribute_node,
  text_constant, call_node, other_node, no_nodes, more_nodes, no_keywords, keyword,
}
use agentic_test_system.Validation.Security.{
  subprocess_execution_methods, is_subprocess_receiver, forbidden_modules, forbidden_builtins,
  forbidden_direct_execution, forbidden_write_methods, root_module, is_write_mode, is_mode,
  second_argument,
}

-- The expression that gives the mode of an `open`: the last argument named `mode`, or else the one
-- in front of the keywords.
abbrev pub stated_mode : Option Node → Keywords → Option Node
stated_mode found no_keywords = found
stated_mode found (keyword arg value rest) =
    stated_mode (if is_mode arg then some value else found) rest

abbrev pub is_read_mode : Option Node → Bool
is_read_mode none = true
is_read_mode (some (text_constant s)) = not (is_write_mode s)
is_read_mode (some _) = false

-- An `open` with no keyword `mode` and no second positional argument, or where the text of the one,
-- or else of the other, asks for no writing. That is the mode of the function `open`; the mode of a
-- method such as `path.open("w")` may be its first argument, of which nothing is asked here.
abbrev pub states_no_writing : Nodes → Keywords → Bool
states_no_writing args kws = is_read_mode (stated_mode (second_argument args) kws)

-- What may be called: no name of the lists of functions that evaluate or execute, and as a method
-- neither a name of the list of those that write to the file system nor one of `subprocess` that runs
-- a command; and an `open` only if it states no writing.
abbrev pub is_allowed_call : Node → Nodes → Keywords → Bool
is_allowed_call (name_node f) args kws =
    not (contains f forbidden_builtins)
    && not (contains f forbidden_direct_execution)
    && (not (f == "open") || states_no_writing args kws)
is_allowed_call (attribute_node value f) args kws =
    not (contains f forbidden_builtins)
    && not (contains f forbidden_direct_execution)
    && not (contains f forbidden_write_methods)
    && not (contains f subprocess_execution_methods && is_subprocess_receiver [] value)
    && (not (f == "open") || states_no_writing args kws)
is_allowed_call _ args kws = true

abbrev pub is_allowed_module : String → Bool
is_allowed_module name = not (contains (root_module name) forbidden_modules)

abbrev pub are_allowed_names : List Alias → Bool
are_allowed_names [] = true
are_allowed_names (a ∷ names) = is_allowed_module a.name && are_allowed_names names

abbrev pub is_allowed_from : Option String → Bool
is_allowed_from none = true
is_allowed_from (some name) = is_allowed_module name

abbrev pub is_allowed : Node → Bool
is_allowed (import_node names line) = are_allowed_names names
is_allowed (import_from_node name names line) = is_allowed_from name
is_allowed (call_node func args kws line) = is_allowed_call func args kws
is_allowed _ = true

-- A test holds at a node and at every node below it.
unfoldable mutual
  pub Throughout : (Node → Bool) → Node → Type 0
  Throughout p (import_node names line) = p (import_node names line) ≡ true
  Throughout p (import_from_node name names line) = p (import_from_node name names line) ≡ true
  Throughout p (name_node id) = p (name_node id) ≡ true
  Throughout p (attribute_node value attr) =
      (p (attribute_node value attr) ≡ true) × Throughout p value
  Throughout p (text_constant s) = p (text_constant s) ≡ true
  Throughout p (call_node func args kws line) =
      (p (call_node func args kws line) ≡ true)
      × Throughout p func
      × ThroughoutNodes p args
      × ThroughoutKeywords p kws
  Throughout p (other_node children) = (p (other_node children) ≡ true) × ThroughoutNodes p children

  pub ThroughoutNodes : (Node → Bool) → Nodes → Type 0
  ThroughoutNodes p no_nodes = Unit
  ThroughoutNodes p (more_nodes n ns) = Throughout p n × ThroughoutNodes p ns

  pub ThroughoutKeywords : (Node → Bool) → Keywords → Type 0
  ThroughoutKeywords p no_keywords = Unit
  ThroughoutKeywords p (keyword arg value rest) = Throughout p value × ThroughoutKeywords p rest
