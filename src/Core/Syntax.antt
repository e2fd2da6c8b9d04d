-- ===== src/Core/Syntax.antt =====
-- The syntax trees that `ast.parse` gives, as far as the sources look into them: the nodes they ask
-- for by class have constructors of their own, and every other node is its children, in the order
-- of its fields.
use agentic_test_system.Prelude.{ℕ, String, Option, List}
use agentic_test_system.Core.Effects.{Exn}

-- `ast.alias`: `name` and `asname`.
pub record Alias : Type 0 where
  pub name : String
  pub asname : Option String

mutual
  pub data Node : Type 0 where
    import_node : List Alias → ℕ → Node
    import_from_node : Option String → List Alias → ℕ → Node
    name_node : String → Node
    attribute_node : Node → String → Node
    text_constant : String → Node
    -- `func`, `args`, `keywords`, `lineno`
    call_node : Node → Nodes → Keywords → ℕ → Node
    other_node : Nodes → Node

  pub data Nodes : Type 0 where
    no_nodes : Nodes
    more_nodes : Node → Nodes → Nodes

  -- `ast.keyword`: `arg` and `value`.
  pub data Keywords : Type 0 where
    no_keywords : Keywords
    keyword : Option String → Node → Keywords → Keywords

-- What the sources read of a `SyntaxError`; `message` is its `str`.
pub record SyntaxFailure : Type 0 where
  pub message : String
  pub msg : String
  pub lineno : Option ℕ
  pub text : Option String
  pub offset : Option ℕ

-- What `ast.parse` does with a text.
pub data Parsed : Type 0 where
  tree : Node → Parsed
  no_syntax : SyntaxFailure → Parsed
  no_parse : Exn → Parsed
