-- ===== src/Parser/Progress/Query/Join.antt =====
-- src/parser.rs: the joins take tokens.
use jwc_lang.Prelude.{ℕ, suc}
use jwc_lang.Token.{Span}
use jwc_lang.Ast.Tree.{QualifiedTable}
use jwc_lang.Parser.Names.{Parsers}
use jwc_lang.Parser.Progress.{Keeps, Eats}
use jwc_lang.Parser.Progress.Rules.{Keeps-Eats}
use jwc_lang.Parser.Progress.Expect.{before, after, Eats-after}
use jwc_lang.Parser.Progress.Names.{names, Calls}
use jwc_lang.Ast.Tree.{Cardinality, one_row, many_rows, group_rows}
use jwc_lang.Parser.Query.Join
use jwc_lang.Parser.Progress.Query.Shape.{Eats-parse_order_by, Keeps-parse_clause}

Eats-parse_join_kind : (b : ℕ) → Eats (suc b) Join.parse_join_kind
unfolding Join.parse_join_kind
Eats-parse_join_kind b = search (before, after) depth 12

module _ (b : ℕ) where
  Keeps-parse_join_binder : (t : QualifiedTable) → Keeps b (Join.parse_join_binder t)
  unfolding Join.parse_join_binder
  Keeps-parse_join_binder t = search after depth 12

  Keeps-parse_cardinality : Keeps b Join.parse_cardinality
  unfolding Join.parse_cardinality
  Keeps-parse_cardinality = search after depth 12

  Keeps-parse_result_name : (c : Cardinality) (s : Span) → Keeps b (Join.parse_result_name c s)
  unfolding Join.parse_result_name
  Keeps-parse_result_name one_row s = search after
  Keeps-parse_result_name many_rows s = search after
  Keeps-parse_result_name group_rows s = search after

module _ (b : ℕ) (self : Parsers) (calls : Calls b self) where
  pub Keeps-parse_sorting : Keeps b (Join.parse_sorting self)
  unfolding Join.parse_sorting
  Keeps-parse_sorting = search (after, Keeps-Eats, Eats-after b, Eats-parse_order_by) depth 12

  Keeps-parse_join_result : Keeps b (Join.parse_join_result self)
  unfolding Join.parse_join_result
  Keeps-parse_join_result =
      search
        (
          after, Keeps-parse_cardinality, Keeps-parse_result_name, Keeps-parse_sorting,
          Keeps-parse_clause,
        )
        depth 20

  pub Eats-parse_join : Eats (suc b) (Join.parse_join self)
  unfolding Join.parse_join
  Eats-parse_join =
      search
        (
          before, names, Eats-parse_join_kind, Keeps-parse_join_binder, Keeps-parse_join_result,
          Keeps-parse_clause,
        )
        depth 20
