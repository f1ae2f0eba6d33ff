-- ===== src/Parser/Query/Select.antt =====
-- src/parser.rs: `select`, whose clauses are read in any order and reported out of order.
use jwc_lang.Prelude.{
  ℕ, max, Bool, true, false, Option, none, some, List, [], ◌∷◌, ◌++◌, Bytes, codes, utf8, ltb,
}
use jwc_lang.Prelude.Loop.{Flow, again, break}
use jwc_lang.Token.{Span, to, l_brace}
use jwc_lang.Diag.{Diagnostic, error, with_note, with_clause}
use jwc_lang.Ast.Tree.{
  Node, Expr, Ident, QualifiedTable, select_expr, select_at, join_clause, object_shape, sort_key,
  page_clause, expr_span, join_span, shape_span, page_span, vec, opt,
}
use jwc_lang.Parser.Action.{
  Action, Test, pure, gets, branch, ◌>>=◌, push_diag, looping, both, either, fails, in_query,
}
use jwc_lang.Parser.Cursor.{
  bump, at_word, at_ident, word_at, next_is, span, expect_ident, expect_word, refuse_note,
}
use jwc_lang.Parser.Names.{Parsers, parse_qualified_table, some_items}
use jwc_lang.Parser.Query.Shape.{parse_order_by, parse_clause, parse_page, last_sort_span}
use jwc_lang.Parser.Query.Join.{parse_join}

-- the clauses, in their order
pub data Clause : Type 0 where
  join_part where_part group_part having_part projection_part order_part page_part limit_part
        first_part :
      Clause

-- `this_phase`
unfoldable pub phase_of : Clause → ℕ
phase_of join_part = 1
phase_of where_part = 2
phase_of group_part = 3
phase_of having_part = 4
phase_of projection_part = 5
phase_of order_part = 6
phase_of page_part = 7
phase_of limit_part = 7
phase_of first_part = 8

unfoldable pub clause_name : Clause → Bytes
clause_name join_part = codes "join"
clause_name where_part = codes "where"
clause_name group_part = codes "group by"
clause_name having_part = codes "having"
clause_name projection_part = codes "as { }"
clause_name order_part = codes "orderby"
clause_name page_part = codes "page/limit"
clause_name limit_part = codes "page/limit"
clause_name first_part = codes "first"

-- what is known of a query while its clauses are read
pub record Clauses : Type 0 where
  pub joins : List (Node join_clause)
  pub filter : Option Expr
  pub group_by : List Expr
  pub having : Option Expr
  pub projection : Option (Node object_shape)
  pub order_by : List (Node sort_key)
  pub limit : Option Expr
  pub page : Option (Node page_clause)
  pub first : Bool
  pub stop : Span
  pub phase : ℕ

abbrev pub no_clauses : Span → Clauses
no_clauses stop = record {
  joins = [];
  filter = none;
  group_by = [];
  having = none;
  projection = none;
  order_by = [];
  limit = none;
  page = none;
  first = false;
  stop = stop;
  phase = 0;
}

unfoldable pub late_clause : Span → Bytes → Diagnostic
late_clause cspan name = with_clause "queries.md §1" (
    with_note
      (codes
        "clause order is fixed: joins, where, group by, having, as { }, orderby, page/limit, first")
      (error "E0501" cspan (codes "`" ++ name ++ codes "` appears after a later clause")))

-- `if this_phase < phase { … } phase = this_phase.max(phase)`
unfoldable pub report_late : Clause → Clauses → Action (Unit {0})
report_late clause c =
    branch (λ s. ltb (phase_of clause) c.phase)
      (do cspan ← gets span; push_diag (late_clause cspan (clause_name clause))) (pure tt)

unfoldable pub in_phase : Clause → Clauses → Clauses
in_phase clause c = record c { phase = max (phase_of clause) c.phase }

unfoldable pub last_expr_span : List Expr → Span → Span
last_expr_span [] other = other
last_expr_span (e ∷ es) other = last_expr_span es (expr_span e)

-- `as {`
unfoldable pub at_projection : Test
at_projection = both (at_word (codes "as")) (next_is 1 l_brace)

unfoldable pub parse_select_binder : Action Ident
parse_select_binder = branch (both at_ident (fails (at_word (codes "from")))) expect_ident (do
  here ← gets span
  refuse_note "E0015" here (codes "`select` needs a binder before `from`")
      (utf8
        "write `select I from App.billing.Invoices` — the binder is what column references and joins attach to")
      "names.md §5.4")

module _ (self : Parsers) where
  -- `match this_phase { … }`
  unfoldable pub parse_part : Clause → Clauses → Action Clauses
  parse_part join_part c = do
    j ← parse_join self
    pure (record c { joins = c.joins ++ j ∷ []; stop = join_span j })
  parse_part where_part c = do
    e ← parse_clause self
    pure (record c { filter = some e; stop = expr_span e })
  parse_part group_part c = do
    _ ← bump
    _ ← bump
    es ← some_items self.expr
    pure (record c { group_by = c.group_by ++ es; stop = last_expr_span (c.group_by ++ es) c.stop })
  parse_part having_part c = do
    e ← parse_clause self
    pure (record c { having = some e; stop = expr_span e })
  parse_part projection_part c = do
    _ ← bump
    shape ← self.shape
    pure (record c { projection = some shape; stop = shape_span shape })
  parse_part order_part c = do
    keys ← parse_order_by self
    pure (record c { order_by = keys; stop = last_sort_span keys c.stop })
  parse_part page_part c = do
    p ← parse_page self
    pure (record c { page = some p; stop = page_span p })
  parse_part limit_part c = do
    e ← parse_clause self
    pure (record c { limit = some e; stop = expr_span e })
  parse_part first_part c = do t ← bump; pure (record c { first = true; stop = t.span })

  unfoldable pub parse_late : Clause → Clauses → Action (Flow Clauses Clauses)
  parse_late clause c = do
    _ ← report_late clause c
    c' ← parse_part clause (in_phase clause c)
    pure (again c')

  -- one round: which clause begins here, if any
  unfoldable pub next_clause : Clauses → Action (Flow Clauses Clauses)
  next_clause c =
      branch (either (at_word (codes "left")) (at_word (codes "inner"))) (parse_late join_part c) (
        branch (at_word (codes "where")) (parse_late where_part c) (
          branch (both (at_word (codes "group")) (word_at 1 (codes "by"))) (parse_late group_part c)
            (branch (at_word (codes "having")) (parse_late having_part c) (
              branch at_projection (parse_late projection_part c) (
                branch (at_word (codes "orderby")) (parse_late order_part c) (
                  branch (at_word (codes "page")) (parse_late page_part c) (
                    branch (at_word (codes "limit")) (parse_late limit_part c) (
                      branch (at_word (codes "first")) (parse_late first_part c)
                        (pure (break c))))))))))

  unfoldable pub parse_select_tail : Span → Ident → QualifiedTable → Action (Node select_expr)
  parse_select_tail start binder source = do
    c ← looping next_clause (no_clauses source.span)
    pure (
        select_at binder source (vec c.joins) (opt c.filter) (vec c.group_by) (opt c.having)
          (opt c.projection) (vec c.order_by) (opt c.limit) (opt c.page) c.first (to start c.stop))

  unfoldable pub parse_select : Action (Node select_expr)
  parse_select = do
    start ← gets span
    _ ← expect_word (codes "select")
    binder ← parse_select_binder
    _ ← expect_word (codes "from")
    source ← parse_qualified_table
    in_query (parse_select_tail start binder source)
