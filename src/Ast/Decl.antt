-- ===== src/Ast/Decl.antt =====
-- src/ast.rs: the declarations and the program.
mod Schema
mod Behaviour
pub use Schema.*
pub use Behaviour.*
use jwc_lang.Prelude.{ℕ, Bool, Option, List, Bytes}
use jwc_lang.Token.{Span}
use jwc_lang.Ast.Tree.{
  Attached, Ident, DottedName, QualifiedTable, NullsOrder, Node, Expr, Block, type_ref, select_expr,
}

pub data Decl : Type 0 where
  namespace : NamespaceDecl → Decl
  import : ImportDecl → Decl
  database : DatabaseDecl → Decl
  schema : SchemaDecl → Decl
  table : TableDecl → Decl
  view : ViewDecl → Decl
  enum : EnumDecl → Decl
  class : ClassDecl → Decl
  error : ErrorDecl → Decl
  service : ServiceDecl → Decl
  middleware : MiddlewareDecl → Decl
  routes : RoutesDecl → Decl
  error_handler : ErrorHandlerDecl → Decl
  server : ServerDecl → Decl
  static : StaticDecl → Decl
  const : ConstDecl → Decl
  function : FunctionDecl → Decl
  job : JobDecl → Decl
  test : TestDecl → Decl

pub record Program : Type 0 where
  pub decls : List Decl
  pub trailing : Attached
