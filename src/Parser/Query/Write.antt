-- ===== src/Parser/Query/Write.antt =====
-- src/parser.rs: `insert`, `update` and `delete`.
use jwc_lang.Prelude.{Bool, true, false, Option, none, some, List, [], ◌∷◌, codes}
use jwc_lang.Token.{Span, to, l_paren, dot, dot_dot_dot, eq, eq_opt}
use jwc_lang.Ast.Tree.{
  Node, Expr, Ident, QualifiedTable, insert_expr, insert_at, conflict_clause, conflict_action,
  conflict_at, do_nothing, do_update, set_item, set_to, set_spread, update_expr, update_at,
  delete_expr, delete_at, object_shape, sort_key, expr_span, shape_span, set_span, conflict_span,
  vec, opt,
}
use jwc_lang.Parser.Action.{Action, Test, pure, gets, branch, ◌>>=◌, both, in_query, given}
use jwc_lang.Parser.Cursor.{
  bump, at, at_word, word_at, next_is, span, expect, expect_ident, expect_word,
}
use jwc_lang.Parser.Names.{
  Parsers, parse_qualified_table, parse_ident_list_parens, parse_spread_source, parse_except_list,
  some_items, unbound_write, bound_or, parse_flag,
}
use jwc_lang.Parser.Objects.{parse_object_entries}
use jwc_lang.Parser.Query.Shape.{parse_clause, span_or, last_sort_span}
use jwc_lang.Parser.Query.Join.{parse_sorting}
use jwc_lang.Parser.Query.Select.{at_projection}

unfoldable pub last_set_span : List (Node set_item) → Span → Span
last_set_span [] other = other
last_set_span (s ∷ ss) other = last_set_span ss (set_span s)

unfoldable pub shape_span_or : Option (Node object_shape) → Span → Span
shape_span_or none other = other
shape_span_or (some s) other = shape_span s

unfoldable pub conflict_span_or : Option (Node conflict_clause) → Span → Span
conflict_span_or none other = other
conflict_span_or (some c) other = conflict_span c

-- `None` on the word, and a name otherwise
unfoldable pub parse_write_binder : Test → Action (Option Ident)
parse_write_binder missing = branch missing (pure none) (do b ← expect_ident; pure (some b))

unfoldable pub parse_set_spread : Span → Action (Node set_item)
parse_set_spread start = do
  _ ← bump
  source ← parse_spread_source
  except ← parse_except_list
  pure (set_spread source except (to start source.span))

-- `=?` or `=`
unfoldable pub parse_set_sign : Action Bool
parse_set_sign = branch (at eq_opt) (do _ ← bump; pure true) (do _ ← expect eq; pure false)

-- the name of `update name of`
unfoldable pub parse_of_binder : Action (Option Ident)
parse_of_binder = do b ← expect_ident; _ ← expect_word (codes "of"); pure (some b)

-- `where`, the projection, `orderby` and `first`, and where they end
pub record WriteTail : Type 0 where
  pub filter : Option Expr
  pub projection : Option (Node object_shape)
  pub order_by : List (Node sort_key)
  pub first : Bool
  pub stop : Span

module _ (self : Parsers) where
  unfoldable pub parse_set_to : Span → Action (Node set_item)
  parse_set_to start = do
    col ← expect_ident
    optional ← parse_set_sign
    value ← self.expr
    pure (set_to col value optional (to start (expr_span value)))

  unfoldable pub parse_set_item : Action (Node set_item)
  parse_set_item = do
    start ← gets span
    branch (at dot_dot_dot) (parse_set_spread start) (parse_set_to start)

  unfoldable pub parse_set_clause : Action (List (Node set_item))
  parse_set_clause = do _ ← expect_word (codes "set"); some_items parse_set_item

  -- the action of `on conflict … do`, and its span
  unfoldable pub parse_conflict_action : Span → Action (Node conflict_action × Span)
  parse_conflict_action start =
      branch (at_word (codes "nothing")) (do w ← bump; pure (do_nothing, w.span))
        (do
          _ ← expect_word (codes "update")
          sets ← parse_set_clause
          pure (do_update (vec sets), last_set_span sets start))

  unfoldable pub parse_conflict : Action (Node conflict_clause)
  parse_conflict = do
    start ← expect_word (codes "on")
    _ ← expect_word (codes "conflict")
    columns ← branch (at l_paren) parse_ident_list_parens (pure [])
    _ ← expect_word (codes "do")
    action ← parse_conflict_action start.span
    pure (conflict_at columns action.0 (to start.span action.1))

  unfoldable pub parse_projection : Action (Option (Node object_shape))
  parse_projection = given at_projection (do _ ← bump; self.shape)

  unfoldable pub parse_insert_tail : Span → Ident → QualifiedTable → Action (Node insert_expr)
  parse_insert_tail start binder table = do
    values ← parse_object_entries self
    conflict ← given (both (at_word (codes "on")) (word_at 1 (codes "conflict"))) parse_conflict
    projection ← parse_projection
    let so_far = shape_span_or projection (conflict_span_or conflict values.1)
    buffered ← parse_flag (at_word (codes "buffered")) so_far
    pure (
        insert_at binder table (vec values.0) (opt conflict) (opt projection) buffered.0
          (to start buffered.1))

  unfoldable pub parse_insert : Action (Node insert_expr)
  parse_insert = do
    start ← expect_word (codes "insert")
    written ← parse_write_binder (at_word (codes "into"))
    _ ← expect_word (codes "into")
    table ← parse_qualified_table
    binder ← bound_or written (unbound_write start.span (codes "insert") (codes "into") table)
    in_query (parse_insert_tail start.span binder table)

  unfoldable pub parse_write_tail : Span → Action WriteTail
  parse_write_tail start = do
    filter ← given (at_word (codes "where")) (parse_clause self)
    projection ← parse_projection
    order_by ← parse_sorting self
    let so_far = last_sort_span order_by (shape_span_or projection (span_or filter start))
    first ← parse_flag (at_word (codes "first")) so_far
    pure (record {
      filter = filter;
      projection = projection;
      order_by = order_by;
      first = first.0;
      stop = first.1;
    })

  unfoldable pub parse_update_tail : Span → Ident → QualifiedTable → Action (Node update_expr)
  parse_update_tail start binder table = do
    sets ← parse_set_clause
    t ← parse_write_tail start
    pure (
        update_at binder table (vec sets) (opt t.filter) (opt t.projection) (vec t.order_by) t.first
          (to start t.stop))

  unfoldable pub parse_update : Action (Node update_expr)
  parse_update = do
    start ← expect_word (codes "update")
    written ← branch (next_is 1 dot) (pure none) parse_of_binder
    table ← parse_qualified_table
    binder ← bound_or written (unbound_write start.span (codes "update") (codes "of") table)
    in_query (parse_update_tail start.span binder table)

  unfoldable pub parse_delete_tail : Span → Ident → QualifiedTable → Action (Node delete_expr)
  parse_delete_tail start binder table = do
    t ← parse_write_tail table.span
    pure (
        delete_at binder table (opt t.filter) (opt t.projection) (vec t.order_by) t.first
          (to start t.stop))

  unfoldable pub parse_delete : Action (Node delete_expr)
  parse_delete = do
    start ← expect_word (codes "delete")
    written ← parse_write_binder (at_word (codes "from"))
    _ ← expect_word (codes "from")
    table ← parse_qualified_table
    binder ← bound_or written (unbound_write start.span (codes "delete") (codes "from") table)
    in_query (parse_delete_tail start.span binder table)
