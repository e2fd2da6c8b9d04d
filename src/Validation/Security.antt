-- ===== src/Validation/Security.antt =====
-- validation/security.py: the visitor of the syntax tree, and the gate.
use agentic_test_system.Prelude.{
  ℕ, String, Bool, true, false, ◌&&◌, ◌||◌, Option, none, some, List, [], ◌∷◌, ◌++◌, ◌<>◌, contains,
  split_on, has_text, is_blank, is_empty, join, shown, ◌==◌, string_eq, if◌then◌else◌,
}
use agentic_test_system.Core.{
  Timestamp, TestCandidate, passed, rejected_security, Action, pure, raise, ◌>>=◌,
}
use agentic_test_system.Core.Syntax.{
  Alias, Node, Nodes, Keywords, import_node, import_from_node, name_node, attribute_node,
  text_constant, call_node, other_node, no_nodes, more_nodes, no_keywords, keyword, Parsed, tree,
  no_syntax, no_parse,
}
use agentic_test_system.Workflow.Services.{ValidationResult}
use agentic_test_system.Validation.Pipeline.{Gate}

abbrev pub forbidden_modules : List String
forbidden_modules =
    "os" ∷ "sys" ∷ "subprocess" ∷ "shutil" ∷ "socket" ∷ "http" ∷ "urllib" ∷ "requests"
    ∷ "multiprocessing" ∷ "threading" ∷ "ctypes" ∷ "pty" ∷ "commands" ∷ "telnetlib" ∷ "ftplib"
    ∷ "poplib" ∷ "smtplib" ∷ "importlib" ∷ "builtins" ∷ []

abbrev pub forbidden_builtins : List String
forbidden_builtins =
    "eval" ∷ "exec" ∷ "compile" ∷ "__import__" ∷ "globals" ∷ "locals" ∷ "delattr" ∷ []

abbrev pub forbidden_direct_execution : List String
forbidden_direct_execution =
    "system" ∷ "popen" ∷ "spawn" ∷ "fork" ∷ "execve" ∷ "execl" ∷ "execv" ∷ []

abbrev pub subprocess_execution_methods : List String
subprocess_execution_methods = "run" ∷ "call" ∷ "Popen" ∷ "check_call" ∷ "check_output" ∷ []

abbrev pub forbidden_write_methods : List String
forbidden_write_methods =
    "write_text" ∷ "write_bytes" ∷ "mkdir" ∷ "makedirs" ∷ "rmdir" ∷ "remove" ∷ "unlink" ∷ "rename"
    ∷ "replace" ∷ "chmod" ∷ "chown" ∷ "touch" ∷ "copyfile" ∷ "copy2" ∷ "copytree" ∷ "move"
    ∷ "rmtree" ∷ "truncate" ∷ []

-- `_SecurityASTVisitor`
pub record SecurityVisitor : Type 0 where
  pub violations : List String
  pub subprocess_symbols : List String

abbrev pub no_violations : SecurityVisitor
no_violations = record { violations = []; subprocess_symbols = [] }

abbrev pub violated : String → SecurityVisitor → SecurityVisitor
violated message v = record v { violations = v.violations ++ message ∷ [] }

abbrev pub subprocess_symbol : String → SecurityVisitor → SecurityVisitor
subprocess_symbol name v = record v { subprocess_symbols = name ∷ v.subprocess_symbols }

abbrev first_of : List String → String
first_of [] = ""
first_of (x ∷ xs) = x

-- `name.split(".")[0]`
unfoldable pub root_module : String → String
unfolding split_on
root_module name = first_of (split_on 0x2e name)

-- `alias.asname or alias.name`
abbrev pub local_name : Alias → String
local_name alias = elim alias.asname [
  | none ↦ alias.name
  | some a ↦ if is_blank a then alias.name else a
]

unfoldable pub visit_alias : ℕ → Alias → SecurityVisitor → SecurityVisitor
unfolding root_module
visit_alias line alias v =
    let v1 =
      if contains (root_module alias.name) forbidden_modules
      then violated ("Forbidden import '" <> alias.name <> "' at line " <> shown line) v
      else v in
    if alias.name == "subprocess" then subprocess_symbol (local_name alias) v1 else v1

unfoldable pub visit_import : ℕ → List Alias → SecurityVisitor → SecurityVisitor
unfolding visit_alias
visit_import line [] v = v
visit_import line (alias ∷ names) v = visit_import line names (visit_alias line alias v)

abbrev pub subprocess_symbols_of : List Alias → SecurityVisitor → SecurityVisitor
subprocess_symbols_of [] v = v
subprocess_symbols_of (alias ∷ names) v =
    subprocess_symbols_of names (subprocess_symbol (local_name alias) v)

unfoldable pub visit_import_from :
    ℕ → Option String → List Alias → SecurityVisitor → SecurityVisitor
unfolding root_module
visit_import_from line none names v = v
visit_import_from line (some from_module) names v =
    let v1 =
      if contains (root_module from_module) forbidden_modules
      then violated ("Forbidden from-import '" <> from_module <> "' at line " <> shown line) v
      else v in
    if is_blank from_module
    then v
    else if root_module from_module == "subprocess"
    then subprocess_symbols_of names v1
    else v1

-- `_is_subprocess_receiver`
unfoldable pub is_subprocess_receiver : List String → Node → Bool
is_subprocess_receiver symbols (name_node id) = id == "subprocess" || contains id symbols
is_subprocess_receiver symbols (attribute_node value attr) =
    attr == "subprocess" || is_subprocess_receiver symbols value
is_subprocess_receiver symbols _ = false

-- The mode that an argument states: a text, or `none` where it cannot be told.
abbrev pub constant_text : Node → Option String
constant_text (text_constant s) = some s
constant_text _ = none

-- `node.args[1]`, if it is there.
abbrev pub second_argument : Nodes → Option Node
second_argument (more_nodes a (more_nodes b rest)) = some b
second_argument _ = none

abbrev pub dynamic_message : ℕ → String
dynamic_message line =
    "Dynamic or non-constant open mode at line " <> shown line <> " cannot be verified safe"

unfoldable pub is_write_mode : String → Bool
unfolding has_text
is_write_mode mode =
    has_text mode "w" || has_text mode "a" || has_text mode "x" || has_text mode "+"

-- Behind the arguments: the mode that was found, if any.
unfoldable pub check_mode : ℕ → Option String → SecurityVisitor → SecurityVisitor
unfolding is_write_mode
check_mode line none v = v
check_mode line (some mode) v =
    if is_write_mode mode
    then violated
        ("Forbidden filesystem write mode '" <> mode <> "' in open() at line " <> shown line) v
    else v

abbrev pub is_mode : Option String → Bool
is_mode none = false
is_mode (some arg) = arg == "mode"

-- `for kw in node.keywords`, with the mode found so far.
unfoldable pub check_keywords : ℕ → Option String → Keywords → SecurityVisitor → SecurityVisitor
unfolding check_mode
check_keywords line mode no_keywords v = check_mode line mode v
check_keywords line mode (keyword arg value rest) v = elim (is_mode arg) [
  | false ↦ check_keywords line mode rest v
  | true ↦ elim (constant_text value) [
    | none ↦ violated (dynamic_message line) v
    | some s ↦ check_keywords line (some s) rest v
  ]
]

-- `_check_open_mode`
unfoldable pub check_open_mode : Nodes → Keywords → ℕ → SecurityVisitor → SecurityVisitor
unfolding check_keywords
check_open_mode args kws line v = elim (second_argument args) [
  | none ↦ check_keywords line none kws v
  | some arg ↦ elim (constant_text arg) [
    | none ↦ violated (dynamic_message line) v
    | some s ↦ check_keywords line (some s) kws v
  ]
]

abbrev pub call_message : String → String → ℕ → String
call_message what name line = "Forbidden " <> what <> " '" <> name <> "()' at line " <> shown line

-- What `visit_Call` does before it goes on to the children.
unfoldable pub check_call : Node → Nodes → Keywords → ℕ → SecurityVisitor → SecurityVisitor
unfolding is_subprocess_receiver check_open_mode
check_call (name_node name) args kws line v =
    if contains name forbidden_builtins
    then violated (call_message "builtin call" name line) v
    else if contains name forbidden_direct_execution
    then violated (call_message "execution call" name line) v
    else if contains name v.subprocess_symbols
    then violated (call_message "subprocess call" name line) v
    else if name == "open"
    then check_open_mode args kws line v
    else v
check_call (attribute_node value name) args kws line v =
    if contains name forbidden_write_methods
    then violated (call_message "filesystem mutation" name line) v
    else if contains name forbidden_direct_execution
    then violated (call_message "execution call" name line) v
    else if contains name subprocess_execution_methods
        && is_subprocess_receiver v.subprocess_symbols value
    then violated (call_message "subprocess execution call" name line) v
    else if contains name forbidden_builtins
    then violated (call_message "builtin call" name line) v
    else if name == "open"
    then check_open_mode args kws line v
    else v
check_call _ args kws line v = v

-- `visit`: the method of the node's class, which goes on to the children by `generic_visit`.
unfoldable mutual
  unfolding visit_import visit_import_from check_call

  pub visit : Node → SecurityVisitor → SecurityVisitor
  visit (import_node names line) v = visit_import line names v
  visit (import_from_node from_module names line) v = visit_import_from line from_module names v
  visit (name_node id) v = v
  visit (attribute_node value attr) v = visit value v
  visit (text_constant s) v = v
  visit (call_node func args kws line) v =
      visit_keywords kws (visit_nodes args (visit func (check_call func args kws line v)))
  visit (other_node children) v = visit_nodes children v

  pub visit_nodes : Nodes → SecurityVisitor → SecurityVisitor
  visit_nodes no_nodes v = v
  visit_nodes (more_nodes n ns) v = visit_nodes ns (visit n v)

  pub visit_keywords : Keywords → SecurityVisitor → SecurityVisitor
  visit_keywords no_keywords v = v
  visit_keywords (keyword arg value rest) v = visit_keywords rest (visit value v)

-- `_build_source`
unfoldable pub build_source : TestCandidate → String
unfolding join
build_source c = join "\n\n" (
    (if is_empty c.imports then [] else join "\n" c.imports ∷ [])
    ++ (if is_blank c.candidate_code then [] else c.candidate_code ∷ []))

abbrev pub security_result :
    TestCandidate → List String → Option String → Timestamp → ValidationResult
security_result c diagnostics none now = record {
  candidate_id = c.candidate_id;
  status = passed;
  gate = "GATE_2_SECURITY";
  passed = true;
  error_message = none;
  diagnostics = diagnostics;
  created_at = now;
}
security_result c diagnostics (some message) now = record {
  candidate_id = c.candidate_id;
  status = rejected_security;
  gate = "GATE_2_SECURITY";
  passed = false;
  error_message = some message;
  diagnostics = diagnostics;
  created_at = now;
}

abbrev pub of_violations : TestCandidate → List String → Timestamp → ValidationResult
of_violations c [] now = security_result c [] none now
of_violations c (x ∷ xs) now =
    security_result c (x ∷ xs) (some ("Security policy violation: " <> x)) now

-- The gate, over `ast.parse` and the clock.
module _ {World : Type 0} (ast_parse : String → Parsed) (clock : Action World Timestamp) where
  abbrev pub of_parsed : TestCandidate → Parsed → Action World ValidationResult
  of_parsed c (no_syntax e) = do
    t ← clock
    pure (
        security_result c (e.message ∷ [])
          (some ("Cannot perform security analysis due to syntax error: " <> e.message)) t)
  of_parsed c (no_parse e) = raise e
  of_parsed c (tree n) = do t ← clock; pure (of_violations c (visit n no_violations).violations t)

  unfoldable pub security_gate : Gate World
  unfolding visit build_source
  security_gate c = of_parsed c (ast_parse (build_source c))
