-- ===== src/Parser/Query/Join.antt =====
-- src/parser.rs: the joins of a query.
use jwc_lang.Prelude.{Option, none, some, List, [], codes, utf8}
use jwc_lang.Token.{Span, to}
use jwc_lang.Ast.Tree.{
  Node, Expr, Ident, QualifiedTable, JoinKind, left_join, inner_join, Cardinality, one_row,
  many_rows, group_rows, join_clause, join_result, join_at, result_at, expr_span, sort_key, vec,
  opt,
}
use jwc_lang.Parser.Action.{Action, Test, pure, gets, branch, ◌>>=◌, both, either, fails, given}
use jwc_lang.Parser.Cursor.{
  bump, at_word, word_at, at_ident, span, expect_ident, expect_word, refuse_note,
}
use jwc_lang.Parser.Names.{Parsers, parse_qualified_table}
use jwc_lang.Parser.Query.Shape.{parse_order_by, parse_clause, span_or, last_sort_span}

unfoldable pub parse_join_kind : Action JoinKind
parse_join_kind =
    branch (at_word (codes "left")) (do _ ← bump; pure left_join)
      (branch (at_word (codes "inner")) (do _ ← bump; pure inner_join)
        (do
          here ← gets span
          refuse_note "E0016" here (codes "expected `left` or `inner`")
              (utf8 "`right`, `full` and `cross` are not grammar — swap the sides and use `left`")
              "queries.md §4.1"))

-- `matches!(&self.peek().tok, Tok::Ident(w) if w != "on")`
unfoldable pub at_binder : Test
at_binder = both at_ident (fails (at_word (codes "on")))

unfoldable pub parse_join_binder : QualifiedTable → Action Ident
parse_join_binder table = branch at_binder expect_ident (pure table.object)

unfoldable pub parse_cardinality : Action Cardinality
parse_cardinality =
    branch (at_word (codes "one")) (do _ ← bump; pure one_row)
      (branch (at_word (codes "many")) (do _ ← bump; pure many_rows)
        (branch (both (at_word (codes "group")) (fails (word_at 1 (codes "by"))))
          (do _ ← bump; pure group_rows)
          (do
            here ← gets span
            refuse_note "E0017" here (codes "expected `one`, `many` or `group`")
                (codes
                  "cardinality is written at the join: `as one account`, `as many members`, or `as group` for a join that only feeds aggregates")
                "queries.md §4.3")))

unfoldable pub parse_result_name : Cardinality → Span → Action Ident
parse_result_name group_rows rstart = pure (record { name = []; span = rstart })
parse_result_name _ rstart = expect_ident

unfoldable pub at_join_result : Test
at_join_result = both (at_word (codes "as")) (
    either (word_at 1 (codes "one"))
      (either (word_at 1 (codes "many")) (word_at 1 (codes "group"))))

unfoldable pub join_end : Option (Node join_result × Span) → Option Expr → Expr → Span
join_end (some r) filter on = r.1
join_end none filter on = span_or filter (expr_span on)

unfoldable pub join_result_of : Option (Node join_result × Span) → Option (Node join_result)
join_result_of (some r) = some r.0
join_result_of none = none

module _ (self : Parsers) where
  unfoldable pub parse_sorting : Action (List (Node sort_key))
  parse_sorting = branch (at_word (codes "orderby")) (parse_order_by self) (pure [])

  -- the result that is written, and where it ends
  unfoldable pub parse_join_result : Action (Node join_result × Span)
  parse_join_result = do
    rstart ← gets span
    _ ← bump
    cardinality ← parse_cardinality
    name ← parse_result_name cardinality rstart
    under ← given (at_word (codes "under")) (do _ ← bump; expect_ident)
    order_by ← parse_sorting
    limit ← given (at_word (codes "limit")) (parse_clause self)
    let stop = span_or limit (last_sort_span order_by name.span)
    pure (result_at cardinality name under (vec order_by) (opt limit) (to rstart stop), stop)

  unfoldable pub parse_join : Action (Node join_clause)
  parse_join = do
    start ← gets span
    kind ← parse_join_kind
    _ ← expect_word (codes "join")
    table ← parse_qualified_table
    binder ← parse_join_binder table
    _ ← expect_word (codes "on")
    on ← self.expr
    filter ←
        given (both (at_word (codes "where")) (fails (word_at 1 (codes "exists"))))
          (parse_clause self)
    result ← given at_join_result parse_join_result
    pure (
        join_at kind table binder on (opt filter) (opt (join_result_of result))
          (to start (join_end result filter on)))
