-- ===== src/Parser/Expr/Whole.antt =====
-- src/parser.rs, `parse_expr`: a whole expression, with what can follow it.
use jwc_lang.Prelude.{List, [], codes}
use jwc_lang.Prelude.Loop.{Flow, again, break}
use jwc_lang.Token.{to, l_paren, r_paren, l_brace}
use jwc_lang.Ast.Tree
use jwc_lang.Ast.Tree.{Expr, expr_at, expr_span, vec}
use jwc_lang.Parser.Action.{Action, pure, branch, ◌>>=◌, looping, both}
use jwc_lang.Parser.Cursor.{bump, at, at_word, word_at, next_is, ident_at, expect, expect_ident}
use jwc_lang.Parser.Names.{Parsers, items_before}
use jwc_lang.Parser.Objects.{parse_object_entries}
use jwc_lang.Parser.Expr.Primary.{outside_query}
use jwc_lang.Parser.Expr.Operators.{parse_coalesce}

module _ (self : Parsers) where
  -- `(…)`, if it is there
  unfoldable pub parse_throw_args : Action (List Expr)
  parse_throw_args =
      branch (at l_paren)
        (do _ ← bump; args ← items_before r_paren self.expr; _ ← expect r_paren; pure args)
        (pure [])

  unfoldable pub parse_or_throw : Expr → Action Expr
  parse_or_throw e = do
    _ ← bump
    _ ← bump
    error ← expect_ident
    args ← parse_throw_args
    pure (expr_at (Tree.or_throw e error (vec args)) (expr_span e))

  unfoldable pub parse_catch : Expr → Action Expr
  parse_catch e = do
    _ ← bump
    error ← expect_ident
    _ ← expect l_paren
    binder ← expect_ident
    _ ← expect r_paren
    body ← self.block
    pure (expr_at (Tree.catch_postfix e error binder body.0) (to (expr_span e) body.1))

  unfoldable pub parse_with : Expr → Action Expr
  parse_with e = do
    _ ← bump
    headers ← parse_object_entries self
    pure (expr_at (Tree.with_headers e (vec headers.0)) (to (expr_span e) headers.1))

  unfoldable pub parse_cookie : Expr → Action Expr
  parse_cookie e = do
    _ ← bump
    _ ← expect l_paren
    args ← items_before r_paren self.expr
    close ← expect r_paren
    pure (expr_at (Tree.cookie e (vec args)) (to (expr_span e) close.span))

  unfoldable pub next_cookie : Expr → Action (Flow Expr Expr)
  next_cookie e =
      branch (both (at_word (codes "cookie")) (both outside_query (next_is 1 l_paren)))
        (do e' ← parse_cookie e; pure (again e')) (pure (break e))

  unfoldable pub parse_expr : Action Expr
  parse_expr = do
    e ← parse_coalesce self
    e₁ ←
        branch (both (at_word (codes "or")) (word_at 1 (codes "throw"))) (parse_or_throw e) (pure e)
    e₂ ← branch (both (at_word (codes "catch")) (ident_at 1)) (parse_catch e₁) (pure e₁)
    e₃ ←
        branch (both (at_word (codes "with")) (both outside_query (next_is 1 l_brace)))
          (parse_with e₂) (pure e₂)
    looping next_cookie e₃
