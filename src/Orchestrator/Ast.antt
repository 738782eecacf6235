-- ===== src/Orchestrator/Ast.antt =====
-- The nodes of github.com/expr-lang/expr/ast, as far as `Evaluate` tells them apart.
use ya_lyceum_go_project_fin.Prelude.{ℕ, String}
use ya_lyceum_go_project_fin.Float64.{ℤ}

-- The node types that the last named case of `Evaluate` lists, but for identifiers.
pub data Kind : Type 0 where
  nil_node bool_node string_node member_node slice_node array_node map_node : Kind
  conditional_node builtin_node pointer_node constant_node : Kind

-- Of a call `Evaluate` reads the callee and the number of its arguments; of the node types that it
-- does not support, the name of the Go type. `other` is a node of any further type, by that name.
pub data Node (F : Type 0) : Type 0 where
  integer : ℤ → Node F
  float : F → Node F
  unary : String → Node F → Node F
  binary : String → Node F → Node F → Node F
  call : Node F → ℕ → Node F
  identifier : String → Node F
  listed : Kind → Node F
  other : String → Node F

abbrev pub kind_name : Kind → String
kind_name nil_node = "*ast.NilNode"
kind_name bool_node = "*ast.BoolNode"
kind_name string_node = "*ast.StringNode"
kind_name member_node = "*ast.MemberNode"
kind_name slice_node = "*ast.SliceNode"
kind_name array_node = "*ast.ArrayNode"
kind_name map_node = "*ast.MapNode"
kind_name conditional_node = "*ast.ConditionalNode"
kind_name builtin_node = "*ast.BuiltinNode"
kind_name pointer_node = "*ast.PointerNode"
kind_name constant_node = "*ast.ConstantNode"

-- What the verb `%T` prints.
abbrev pub type_name : {F : Type 0} → Node F → String
type_name (integer n) = "*ast.IntegerNode"
type_name (float v) = "*ast.FloatNode"
type_name (unary op x) = "*ast.UnaryNode"
type_name (binary op l r) = "*ast.BinaryNode"
type_name (call callee n) = "*ast.CallNode"
type_name (identifier name) = "*ast.IdentifierNode"
type_name (listed k) = kind_name k
type_name (other name) = name
