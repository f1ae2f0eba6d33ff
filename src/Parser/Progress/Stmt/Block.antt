-- ===== src/Parser/Progress/Stmt/Block.antt =====
-- src/parser.rs: statements and blocks take tokens, and a block goes on behind a statement that fails.
use jwc_lang.Prelude.{ℕ, suc}
use jwc_lang.Token.{Span}
use jwc_lang.Ast.Tree.{Attached}
use jwc_lang.Parser.Names.{Parsers}
use jwc_lang.Parser.Progress.{Eats}
use jwc_lang.Parser.Progress.Rules.{Keeps-looping}
use jwc_lang.Parser.Progress.Expect.{before, after, Keeps-after}
use jwc_lang.Parser.Progress.Names.{Calls}
use jwc_lang.Parser.Stmt.Block
use jwc_lang.Parser.Progress.Recover.{Turns-next_member}
use jwc_lang.Parser.Progress.Expr.Whole.{Eats-parse_expr}
use jwc_lang.Parser.Progress.Stmt.Control
use jwc_lang.Parser.Progress.Stmt.Assign.{
  Solid-at_target, EatsHere-parse_op_assign, EatsHere-parse_assign, EatsHere-parse_field_assign,
  EatsHere-parse_context_assign,
}

module _ (b : ℕ) (self : Parsers) (calls : Calls b self) where
  Eats-parse_expr_stmt :
      (leading : Attached) (start : Span) → Eats (suc b) (Block.parse_expr_stmt self leading start)
  unfolding Block.parse_expr_stmt
  Eats-parse_expr_stmt leading start = search (before, after, Eats-parse_expr) depth 12

  Eats-parse_plain :
      (leading : Attached) (start : Span) → Eats (suc b) (Block.parse_plain self leading start)
  unfolding Block.parse_plain
  Eats-parse_plain leading start =
      search
        (
          before, Solid-at_target, EatsHere-parse_op_assign, EatsHere-parse_assign,
          EatsHere-parse_field_assign, EatsHere-parse_context_assign, Eats-parse_expr_stmt,
        )
        depth 12

  Eats-parse_worded :
      (leading : Attached) (start : Span) → Eats (suc b) (Block.parse_worded self leading start)
  unfolding Block.parse_worded
  Eats-parse_worded leading start =
      search
        (
          before, Control.EatsHere-parse_break, Control.EatsHere-parse_continue,
          Control.EatsHere-parse_return, Control.EatsHere-parse_throw,
          Control.EatsHere-parse_dispatch, Control.EatsHere-parse_transaction,
          Control.EatsHere-parse_assert, Eats-parse_plain,
        )
        depth 20

  pub Eats-parse_stmt : Eats (suc b) (Block.parse_stmt self)
  unfolding Block.parse_stmt
  Eats-parse_stmt =
      search
        (
          before, after, Control.EatsHere-parse_let, Control.EatsHere-parse_if,
          Control.EatsHere-parse_for, Control.EatsHere-parse_while, Eats-parse_worded,
        )
        depth 20

  pub Eats-parse_block : Eats (suc b) (Block.parse_block self)
  unfolding Block.parse_block
  Eats-parse_block =
      search (before, after, Keeps-after b, Keeps-looping, Turns-next_member, calls.statement) depth
        12
