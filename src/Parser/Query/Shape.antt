-- ===== src/Parser/Query/Shape.antt =====
-- src/parser.rs: the parts that queries share: projections, sort keys and pages.
use jwc_lang.Prelude.{Bool, true, false, Option, none, some, List, [], ◌∷◌, ◌++◌, codes}
use jwc_lang.Prelude.Loop.{Flow, again, break}
use jwc_lang.Token.{Span, to, l_brace, r_brace, comma, colon, dot}
use jwc_lang.Ast.Tree.{
  Node, Expr, Ident, object_shape, proj_field, sort_key, page_clause, shape_at, column, computed,
  nested, sort_at, page_at, expr_span, shape_span, sort_span, vec, opt,
}
use jwc_lang.Parser.Action.{Action, pure, branch, ◌>>=◌, looping, either, given}
use jwc_lang.Parser.Cursor.{bump, at, at_eof, at_word, expect, expect_ident, expect_word}
use jwc_lang.Parser.Names.{Parsers, parse_nulls_order, some_items}

-- `T.id`, behind the name
unfoldable pub parse_column_field : Ident → Action (Node proj_field)
parse_column_field name = do _ ← bump; col ← expect_ident; pure (column (some name) col)

-- `desc`, `asc` or neither, and the span up to it
unfoldable pub parse_direction : Span → Action (Bool × Span)
parse_direction so_far =
    branch (at_word (codes "desc")) (do t ← bump; pure (true, to so_far t.span))
      (branch (at_word (codes "asc")) (do t ← bump; pure (false, to so_far t.span))
        (pure (false, so_far)))

-- the span of an expression that may be missing
unfoldable pub span_or : Option Expr → Span → Span
span_or none other = other
span_or (some e) other = expr_span e

module _ (self : Parsers) where
  -- behind `alias:`
  unfoldable pub parse_alias_field : Ident → Action (Node proj_field)
  parse_alias_field name = do
    _ ← bump
    branch (at l_brace)
        (do shape ← self.shape; pure (nested name shape (to name.span (shape_span shape))))
        (do value ← self.expr; pure (computed name value (to name.span (expr_span value))))

  unfoldable pub parse_proj_field : Action (Node proj_field)
  parse_proj_field = do
    name ← expect_ident
    branch (at dot) (parse_column_field name)
        (branch (at colon) (parse_alias_field name) (pure (column none name)))

  unfoldable pub next_proj_field :
      List (Node proj_field) → Action (Flow (List (Node proj_field)) (List (Node proj_field)))
  next_proj_field fields = branch (either (at r_brace) at_eof) (pure (break fields)) (do
    one ← parse_proj_field
    branch (at comma) (do _ ← bump; pure (again (fields ++ one ∷ [])))
        (pure (break (fields ++ one ∷ []))))

  unfoldable pub parse_object_shape : Action (Node object_shape)
  parse_object_shape = do
    start ← expect l_brace
    fields ← looping next_proj_field []
    close ← expect r_brace
    pure (shape_at (vec fields) (to start.span close.span))

  unfoldable pub parse_sort_key : Action (Node sort_key)
  parse_sort_key = do
    value ← self.expr
    direction ← parse_direction (expr_span value)
    nulls ← parse_nulls_order
    pure (sort_at value direction.0 nulls direction.1)

  unfoldable pub parse_order_by : Action (List (Node sort_key))
  parse_order_by = do _ ← expect_word (codes "orderby"); some_items parse_sort_key

  -- the word, and then an expression
  unfoldable pub parse_clause : Action Expr
  parse_clause = do _ ← bump; self.expr

  unfoldable pub parse_page : Action (Node page_clause)
  parse_page = do
    start ← expect_word (codes "page")
    after ← given (at_word (codes "after")) parse_clause
    _ ← expect_word (codes "size")
    size ← self.expr
    max ← given (at_word (codes "max")) parse_clause
    pure (page_at (opt after) size (opt max) (to start.span (span_or max (expr_span size))))

unfoldable pub last_sort_span : List (Node sort_key) → Span → Span
last_sort_span [] other = other
last_sort_span (k ∷ ks) other = last_sort_span ks (sort_span k)
