-- ===== src/Parser/Expr/Operators.antt =====
-- src/parser.rs: the operators, each level from the level below it.
use jwc_lang.Prelude.{Bool, true, false, Option, none, some, codes, if◌then◌else◌}
use jwc_lang.Prelude.Loop.{Flow, again, break}
use jwc_lang.Token.{
  Tok, Span, to, same_bytes, ident, l_paren, r_paren, question, colon, eq_eq, bang_eq, eq_eq_opt,
  lt, lt_eq, gt, gt_eq, plus, minus, star, slash, percent, coalesce, bang,
}
use jwc_lang.Ast.{BinOp}
use jwc_lang.Ast
use jwc_lang.Ast.Tree
use jwc_lang.Ast.Tree.{Node, Expr, expr_at, expr_span, not_op, neg_op, vec}
use jwc_lang.Parser.Action.{Action, Test, pure, gets, branch, ◌>>=◌, looping, both, fails}
use jwc_lang.Parser.Cursor.{bump, at, at_word, word_at, next_is, looking, span, expect}
use jwc_lang.Parser.Names.{Parsers, items_before}
use jwc_lang.Parser.Expr.Primary.{parse_postfix}

unfoldable pub binary_of : BinOp → Expr → Expr → Expr
binary_of op lhs rhs = expr_at (Tree.binary op lhs rhs) (to (expr_span lhs) (expr_span rhs))

-- One round of a level whose operators associate to the left.
unfoldable pub next_binary :
    Test → BinOp → Action Expr → Action (Flow Expr Expr) → Expr → Action (Flow Expr Expr)
next_binary t op level other lhs =
    branch t (do _ ← bump; rhs ← level; pure (again (binary_of op lhs rhs))) other

unfoldable pub compare_op : Tok → Option BinOp
compare_op eq_eq = some Ast.eq
compare_op bang_eq = some Ast.ne
compare_op eq_eq_opt = some Ast.eq_opt
compare_op lt = some Ast.lt
compare_op lt_eq = some Ast.le
compare_op gt = some Ast.gt
compare_op gt_eq = some Ast.ge
compare_op (ident w) =
    if same_bytes w (codes "like")
    then some Ast.like
    else if same_bytes w (codes "ilike")
    then some Ast.ilike
    else none
compare_op _ = none

module _ (self : Parsers) where
  unfoldable pub parse_unary : Action Expr
  parse_unary = do
    start ← gets span
    branch (at minus)
        (do
          _ ← bump
          rhs ← self.unary
          pure (expr_at (Tree.unary neg_op rhs) (to start (expr_span rhs))))
        (parse_postfix self)

  unfoldable pub next_multiplicative : Expr → Action (Flow Expr Expr)
  next_multiplicative lhs =
      next_binary (at star) Ast.mul parse_unary
        (next_binary (at slash) Ast.div parse_unary
          (next_binary (at percent) Ast.rem parse_unary (pure (break lhs)) lhs) lhs)
        lhs

  unfoldable pub parse_multiplicative : Action Expr
  parse_multiplicative = do lhs ← parse_unary; looping next_multiplicative lhs

  unfoldable pub next_additive : Expr → Action (Flow Expr Expr)
  next_additive lhs =
      next_binary (at plus) Ast.add parse_multiplicative
        (next_binary (at minus) Ast.sub parse_multiplicative (pure (break lhs)) lhs) lhs

  unfoldable pub parse_additive : Action Expr
  parse_additive = do lhs ← parse_multiplicative; looping next_additive lhs

  -- `in (…)`, with `not` in front of it or without
  unfoldable pub parse_in : Bool → Expr → Action Expr
  parse_in negated lhs = do
    _ ← bump
    _ ← expect l_paren
    items ← items_before r_paren self.expr
    close ← expect r_paren
    pure (expr_at (Tree.in_list lhs (vec items) negated) (to (expr_span lhs) close.span))

  unfoldable pub parse_rhs : Option BinOp → Expr → Action Expr
  parse_rhs none lhs = pure lhs
  parse_rhs (some op) lhs = do _ ← bump; rhs ← parse_additive; pure (binary_of op lhs rhs)

  unfoldable pub parse_compare : Action Expr
  parse_compare = do
    lhs ← parse_additive
    branch (at_word (codes "in")) (parse_in false lhs) (
        branch (both (at_word (codes "not")) (word_at 1 (codes "in")))
          (do _ ← bump; parse_in true lhs) (looking λ t. parse_rhs (compare_op t) lhs))

  -- `(…)` behind `exists`
  unfoldable pub parse_exists : Bool → Span → Action Expr
  parse_exists negated start = do
    _ ← bump
    _ ← expect l_paren
    q ← self.expr
    close ← expect r_paren
    pure (expr_at (Tree.exists q negated) (to start close.span))

  unfoldable pub parse_negated : Span → Action Expr
  parse_negated start = do
    _ ← bump
    rhs ← self.not_expr
    pure (expr_at (Tree.unary not_op rhs) (to start (expr_span rhs)))

  unfoldable pub parse_not : Action Expr
  parse_not = do
    start ← gets span
    branch (at bang) (parse_negated start) (
        branch (both (at_word (codes "not")) (word_at 1 (codes "exists")))
          (do _ ← bump; parse_exists true start)
          (branch (both (at_word (codes "not")) (fails (word_at 1 (codes "in"))))
            (parse_negated start)
            (branch (both (at_word (codes "exists")) (next_is 1 l_paren)) (parse_exists false start)
              parse_compare)))

  unfoldable pub next_and : Expr → Action (Flow Expr Expr)
  next_and lhs = next_binary (at_word (codes "and")) Ast.and parse_not (pure (break lhs)) lhs

  unfoldable pub parse_and : Action Expr
  parse_and = do lhs ← parse_not; looping next_and lhs

  unfoldable pub next_or : Expr → Action (Flow Expr Expr)
  next_or lhs =
      next_binary (both (at_word (codes "or")) (fails (word_at 1 (codes "throw")))) Ast.or parse_and
        (pure (break lhs)) lhs

  unfoldable pub parse_or : Action Expr
  parse_or = do lhs ← parse_and; looping next_or lhs

  unfoldable pub parse_branches : Expr → Action Expr
  parse_branches cond = do
    _ ← bump
    then_value ← self.ternary
    _ ← expect colon
    otherwise ← self.ternary
    pure (
        expr_at (Tree.ternary cond then_value otherwise)
          (to (expr_span cond) (expr_span otherwise)))

  unfoldable pub parse_ternary : Action Expr
  parse_ternary = do cond ← parse_or; branch (at question) (parse_branches cond) (pure cond)

  unfoldable pub next_coalesce : Expr → Action (Flow Expr Expr)
  next_coalesce lhs =
      branch (at coalesce)
        (do
          _ ← bump
          rhs ← parse_ternary
          pure (again (expr_at (Tree.coalesce lhs rhs) (to (expr_span lhs) (expr_span rhs)))))
        (pure (break lhs))

  unfoldable pub parse_coalesce : Action Expr
  parse_coalesce = do lhs ← parse_ternary; looping next_coalesce lhs
