-- ===== src/Ast/Decl/Behaviour.antt =====
-- src/ast.rs: functions, services, jobs, middleware, routes, servers and tests.
use jwc_lang.Prelude.{ℕ, Bool, Option, List, Bytes}
use jwc_lang.Token.{Span}
use jwc_lang.Ast.Tree.{Attached, Ident, Node, Expr, Block, type_ref}
use jwc_lang.Ast.Decl.Schema.{Assignment, Param}

pub record FunctionDecl : Type 0 where
  pub leading : Attached
  pub name : Ident
  pub params : List Param
  pub returns : Option (Node type_ref)
  pub raises : List Ident
  pub body : Block
  pub span : Span

pub record ServiceDecl : Type 0 where
  pub leading : Attached
  pub name : Ident
  pub functions : List FunctionDecl
  pub span : Span

pub record JobDecl : Type 0 where
  pub leading : Attached
  pub name : Ident
  pub params : List Param
  pub retries : Option ℕ
  pub backoff : Option Bytes
  pub every : Option Bytes
  pub body : Block
  pub span : Span

pub record Binder : Type 0 where
  pub name : Ident
  pub ty : Node type_ref
  pub span : Span

pub record CtxDecl : Type 0 where
  pub name : Ident
  pub ty : Node type_ref
  pub span : Span

pub record MiddlewareDecl : Type 0 where
  pub leading : Attached
  pub name : Ident
  pub binders : List Binder
  pub requires : List Ident
  pub provides : List CtxDecl
  pub body : Block
  pub after : Option Block
  pub span : Span

pub record RouteDecl : Type 0 where
  pub leading : Attached
  pub method : Ident
  pub suffix : Bytes
  pub suffix_span : Span
  pub uses : List Ident
  pub body : Block
  pub span : Span

pub record SocketDecl : Type 0 where
  pub leading : Attached
  pub suffix : Bytes
  pub suffix_span : Span
  pub uses : List Ident
  pub on_open : Option Block
  pub on_message : Option (Ident × Block)
  pub on_close : Option Block
  pub span : Span

pub record RoutesDecl : Type 0 where
  pub leading : Attached
  pub prefix : Bytes
  pub prefix_span : Span
  pub uses : List Ident
  pub routes : List RouteDecl
  pub sockets : List SocketDecl
  pub bare : Bool
  pub span : Span

pub record CatchArm : Type 0 where
  pub error : Option Ident
  pub binder : Ident
  pub body : Block
  pub span : Span

pub record ErrorHandlerDecl : Type 0 where
  pub leading : Attached
  pub binder : Ident
  pub arms : List CatchArm
  pub span : Span

pub record ConstDecl : Type 0 where
  pub leading : Attached
  pub name : Ident
  pub value : Expr
  pub span : Span

pub record StaticDecl : Type 0 where
  pub leading : Attached
  pub prefix : Bytes
  pub prefix_span : Span
  pub root : Bytes
  pub root_span : Span
  pub max_age : ℕ
  pub max_age_span : Option Span
  pub span : Span

pub data ServerEntry : Type 0 where
  setting : Assignment → ServerEntry
  group : Ident → List Assignment → Span → ServerEntry

pub record ServerDecl : Type 0 where
  pub leading : Attached
  pub entries : List ServerEntry
  pub span : Span

pub record TestDecl : Type 0 where
  pub leading : Attached
  pub name : Bytes
  pub body : Block
  pub span : Span
