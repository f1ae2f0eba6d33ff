-- ===== src/Ast.antt =====
-- src/ast.rs: the binary operators, and below them the tree.
pub mod Tree
pub mod Locals
pub mod Decl
use jwc_lang.Prelude.{String}

pub data BinOp : Type 0 where
  and or eq ne eq_opt lt le gt ge like ilike add sub mul div rem : BinOp

unfoldable pub as_str : BinOp → String
as_str and = "and"
as_str or = "or"
as_str eq = "=="
as_str ne = "!="
as_str eq_opt = "==?"
as_str lt = "<"
as_str le = "<="
as_str gt = ">"
as_str ge = ">="
as_str like = "like"
as_str ilike = "ilike"
as_str add = "+"
as_str sub = "-"
as_str mul = "*"
as_str div = "/"
as_str rem = "%"
