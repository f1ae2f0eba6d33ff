-- ===== src/Parser/Stmt/Block.antt =====
-- src/parser.rs: `parse_stmt`, and `parse_block`, which goes on behind a statement that fails.
use jwc_lang.Prelude.{[], codes}
use jwc_lang.Token.{Span, to, l_brace, r_brace, semi, dot, eq}
use jwc_lang.Ast.Tree.{Node, Block, Attached, stmt, expr_stmt, vec}
use jwc_lang.Parser.Action.{Action, pure, gets, branch, ◌>>=◌, looping, both, fails}
use jwc_lang.Parser.Cursor.{at_word, next_is, ident_at, span, attached, expect, refuse_removed}
use jwc_lang.Parser.Names.{Parsers}
use jwc_lang.Parser.Recover.{next_member}
use jwc_lang.Parser.Expr.Whole.{parse_expr}
use jwc_lang.Parser.Stmt.Control.{
  parse_let, parse_if, parse_for, parse_while, parse_break, parse_continue, parse_return,
  parse_throw, parse_dispatch, parse_transaction, parse_assert,
}
use jwc_lang.Parser.Stmt.Assign.{
  at_target, at_op_assign, at_field_assign, parse_op_assign, parse_assign, parse_field_assign,
  parse_context_assign,
}

module _ (self : Parsers) where
  unfoldable pub parse_expr_stmt : Attached → Span → Action (Node stmt)
  parse_expr_stmt leading start = do
    e ← parse_expr self
    close ← expect semi
    pure (expr_stmt leading e (to start close.span))

  -- a statement that begins with no word of its own
  unfoldable pub parse_plain : Attached → Span → Action (Node stmt)
  parse_plain leading start =
      branch (both at_target at_op_assign) (parse_op_assign self leading start) (
        branch (both at_target (next_is 1 eq)) (parse_assign self leading start) (
          branch (both at_target (both (fails (at_word (codes "context"))) at_field_assign))
            (parse_field_assign self leading start)
            (branch (both (at_word (codes "context")) (both (next_is 1 dot) (next_is 3 eq)))
              (parse_context_assign self leading start) (parse_expr_stmt leading start))))

  unfoldable pub parse_worded : Attached → Span → Action (Node stmt)
  parse_worded leading start =
      branch (both (at_word (codes "break")) (next_is 1 semi)) (parse_break leading start) (
        branch (both (at_word (codes "continue")) (next_is 1 semi)) (parse_continue leading start) (
          branch (at_word (codes "return")) (parse_return self leading start) (
            branch (at_word (codes "throw")) (parse_throw self leading start) (
              branch (both (at_word (codes "dispatch")) (ident_at 1))
                (parse_dispatch self leading start)
                (branch (both (at_word (codes "transaction")) (next_is 1 l_brace))
                  (parse_transaction self leading start)
                  (branch (at_word (codes "assert")) (parse_assert self leading start)
                    (parse_plain leading start)))))))

  unfoldable pub parse_stmt : Action (Node stmt)
  parse_stmt = do
    _ ← refuse_removed
    leading ← gets attached
    start ← gets span
    branch (at_word (codes "let")) (parse_let self leading start) (
        branch (at_word (codes "if")) (parse_if self leading start) (
          branch (at_word (codes "for")) (parse_for self leading start) (
            branch (at_word (codes "while")) (parse_while self leading start)
              (parse_worded leading start))))

  unfoldable pub parse_block : Action (Block × Span)
  parse_block = do
    _ ← expect l_brace
    out ← looping (next_member self.statement) []
    close ← expect r_brace
    pure (vec out, close.span)
