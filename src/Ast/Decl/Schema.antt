-- ===== src/Ast/Decl/Schema.antt =====
-- src/ast.rs: modules, databases, schemas, their tables, enums, views and classes, and errors.
use jwc_lang.Prelude.{ℕ, Bool, Option, List, Bytes}
use jwc_lang.Token.{Span}
use jwc_lang.Ast.Tree.{
  Attached, Ident, DottedName, QualifiedTable, NullsOrder, Node, Expr, type_ref, select_expr,
}

pub record NamespaceDecl : Type 0 where
  pub leading : Attached
  pub name : DottedName
  pub span : Span

pub record ImportDecl : Type 0 where
  pub leading : Attached
  pub name : DottedName
  pub span : Span

pub record Assignment : Type 0 where
  pub leading : Attached
  pub key : Ident
  pub value : Expr
  pub span : Span

pub record DatabaseDecl : Type 0 where
  pub leading : Attached
  pub name : Ident
  pub driver : Ident
  pub init : List Assignment
  pub span : Span

pub record SchemaDecl : Type 0 where
  pub leading : Attached
  pub name : Ident
  pub database : Ident
  pub physical : Option Bytes
  pub span : Span

pub record QualifiedSchema : Type 0 where
  pub database : Ident
  pub schema : Ident
  pub span : Span

pub record RuleCall : Type 0 where
  pub name : Ident
  pub args : List Expr
  pub message : Option Bytes
  pub span : Span

pub data ColumnModifier : Type 0 where
  primary_key : Span → ColumnModifier
  identity : Span → ColumnModifier
  unique : Option Bytes → Span → ColumnModifier
  private : Span → ColumnModifier
  server : Span → ColumnModifier
  default : Expr → Span → ColumnModifier
  on_update : Expr → Span → ColumnModifier
  physical : Bytes → Span → ColumnModifier
  was : Bytes → Span → ColumnModifier
  rule : RuleCall → ColumnModifier

pub record ColumnDef : Type 0 where
  pub leading : Attached
  pub name : Ident
  pub ty : Node type_ref
  pub modifiers : List ColumnModifier
  pub span : Span

pub data RefAction : Type 0 where
  cascade restrict no_action set_null set_default : RefAction

pub data TableConstraint : Type 0 where
  primary : Attached → List Ident → Span → TableConstraint
  -- columns, target, its columns, on delete, on update
  foreign :
      Attached
      → List Ident
      → QualifiedTable
      → List Ident
      → Option RefAction
      → Option RefAction
      → Span
      → TableConstraint
  unique_on : Attached → List Ident → Option Expr → Option Bytes → Span → TableConstraint
  check : Attached → Expr → Option Bytes → Span → TableConstraint

pub record IndexColumn : Type 0 where
  pub name : Ident
  pub desc : Bool
  pub nulls : Option NullsOrder

pub record IndexDef : Type 0 where
  pub leading : Attached
  pub columns : List IndexColumn
  pub predicate : Option Expr
  pub method : Option Ident
  pub span : Span

pub record TableDecl : Type 0 where
  pub leading : Attached
  pub name : Ident
  pub schema : QualifiedSchema
  pub physical : Option Bytes
  pub was : Option Bytes
  pub columns : List ColumnDef
  pub constraints : List TableConstraint
  pub indexes : List IndexDef
  pub span : Span

pub record EnumDecl : Type 0 where
  pub leading : Attached
  pub name : Ident
  pub schema : Option QualifiedSchema
  pub physical : Option Bytes
  pub members : List Ident
  pub span : Span

pub record ViewDecl : Type 0 where
  pub leading : Attached
  pub name : Ident
  pub schema : QualifiedSchema
  pub physical : Option Bytes
  pub body : Node select_expr
  pub span : Span

pub record ClassField : Type 0 where
  pub leading : Attached
  pub name : Ident
  pub ty : Node type_ref
  pub rules : List RuleCall
  pub transient : Bool
  pub span : Span

pub record ClassDecl : Type 0 where
  pub leading : Attached
  pub name : Ident
  pub fields : List ClassField
  pub span : Span

pub record Param : Type 0 where
  pub name : Ident
  pub ty : Node type_ref
  pub default : Option Expr
  pub span : Span

pub record ErrorDecl : Type 0 where
  pub leading : Attached
  pub name : Ident
  pub params : List Param
  pub status : ℕ
  pub message : Option Bytes
  pub span : Span
